-- ===== src/Executers/Impl/Laws.antt =====
-- executers/executer.go: what one airdrop or transfer does to the balances in memory.
use simple_blockchain_go.Accounts.{AccountState, add, check_nonce, subtract}
use simple_blockchain_go.Accounts.Laws.{IsBounded, subtract_add_lem}
use simple_blockchain_go.Base.{
  Bool, Bytes, [], arith, bytes_eq, bytes_eq_iff, bytes_eq_self, err, if◌then◌else◌, insert, lookup,
  lookup-insert, nonce_invalid, not_enough_balance, ok, overflow, some, true, ℕ, ◌+◌, ◌↔◌, ◌∷◌, ◌≡◌,
  ◌≢◌, ◌≤◌, ◌⊎◌,
}
use simple_blockchain_go.Common.{generator_balance}
use simple_blockchain_go.Executers.Impl.{States, in_place, transfer_impl}

-- The sum of all balances.
unfoldable pub total : States → ℕ
total [] = 0
total ((k, s) ∷ m) = s.balance + total m

-- Every account is within the generator's balance.
abbrev pub IsBoundedAll : States → Type 0
IsBoundedAll m = (k : Bytes) (s : AccountState) → lookup k m ≡ some s → IsBounded s

pub total-insert :
    (k : Bytes) (s s' : AccountState) (m : States)
    → lookup k m ≡ some s
    → total (insert k s' m) + s.balance ≡ total m + s'.balance
unfolding total
total-insert k s s' [] h = cc
total-insert k s s' ((j, t) ∷ m) h = ground (arith, total-insert k s s' m)

-- A method on an account that is there.
pub in_place_lem :
    (k : Bytes) (method : AccountState → Bool × AccountState) (m : States) (s : AccountState)
    → lookup k m ≡ some s
    → in_place k method m ≡ ((method s).0, insert k (method s).1 m)
unfolding in_place
in_place_lem k method m s h = rw (h, in_place)

-- The states that a transfer goes through, between two accounts that are there.
module _ (from : Bytes) (nonce : ℕ) (to : Bytes) (amount : ℕ) (m : States)
    (s t : AccountState) where
  abbrev pub s₁ : AccountState
  s₁ = (check_nonce s nonce).1

  abbrev pub m₁ : States
  m₁ = insert from s₁ m

  abbrev pub s₂ : AccountState
  s₂ = (subtract s₁ amount).1

  abbrev pub m₂ : States
  m₂ = insert from s₂ m₁

  -- The receiver's object is the sender's, if the keys are equal.
  abbrev pub t₂ : AccountState
  t₂ = if bytes_eq to from then s₂ else t

  abbrev pub m₃ : States
  m₃ = insert to (add t₂ amount).1 m₂

  lookup-m₁ : lookup from m₁ ≡ some s₁
  lookup-m₁ = rw (lookup-insert from from s₁ m, bytes_eq_self from)

  lookup-m₂ : lookup to m ≡ some t → lookup to m₂ ≡ some t₂
  lookup-m₂ h = ground (arith, lookup-insert from to s₂ m₁, lookup-insert from to s₁ m)

  pub transfer_steps :
      lookup from m ≡ some s
      → lookup to m ≡ some t
      → transfer_impl from nonce to amount m ≡ (
          if (check_nonce s nonce).0
          then (if (subtract s₁ amount).0
              then (if (add t₂ amount).0 then (m₃, ok tt) else (m₃, err overflow))
              else (m₂, err not_enough_balance))
          else (m₁, err nonce_invalid))
  unfolding transfer_impl
  transfer_steps hs ht =
      let checked = in_place_lem from (λ s. check_nonce s nonce) m s hs in
      let paid = in_place_lem from (λ s. subtract s amount) m₁ s₁ lookup-m₁ in
      let added = in_place_lem to (λ s. add s amount) m₂ t₂ (lookup-m₂ ht) in
      rw (hs, transfer_impl) (rw checked (rw ht (rw checked (rw paid (rw added)))))

pub check_nonce_lem :
    (s : AccountState) (nonce : ℕ)
    → ((check_nonce s nonce).1.balance ≡ s.balance)
      × (((check_nonce s nonce).0 ≡ true) ↔ (s.nonce ≡ nonce))
unfolding check_nonce
check_nonce_lem s nonce = ground arith

-- Between two accounts that are there, and within the generator's balance, a transfer succeeds exactly
-- if the nonce is the sender's, the sender has the amount, and the receiver has room for it or is the
-- sender. It then keeps the sum of all balances. Whatever the outcome, no third account changes.
pub transfer_impl_lem :
    (from : Bytes) (nonce : ℕ) (to : Bytes) (amount : ℕ) (m : States) (s t : AccountState)
    → lookup from m ≡ some s
    → lookup to m ≡ some t
    → IsBounded s
    → IsBounded t
    → let (m', r) = transfer_impl from nonce to amount m in
      ((r ≡ ok tt) ↔ (
        (s.nonce ≡ nonce)
        × (amount ≤ s.balance)
        × ((to ≡ from) ⊎ (t.balance + amount ≤ generator_balance))))
      × ((r ≡ ok tt) → total m' ≡ total m)
      × ((k : Bytes) → k ≢ from → k ≢ to → lookup k m' ≡ lookup k m)
transfer_impl_lem from nonce to amount m s t hs ht bs bt =
    let S₁ = s₁ from nonce to amount m s t in
    let T₂ = t₂ from nonce to amount m s t in
    let checked = check_nonce_lem s nonce in
    let bs₁ : IsBounded S₁ = omega arith in
    let paid = subtract_add_lem S₁ amount bs₁ in
    let bt₂ : IsBounded T₂ = ground (arith, paid.0) in
    let added = subtract_add_lem T₂ amount bt₂ in
    let same = bytes_eq_iff to from in
    let S₂ = s₂ from nonce to amount m s t in
    let M₁ = m₁ from nonce to amount m s t in
    let M₂ = m₂ from nonce to amount m s t in
    let T₃ = (add T₂ amount).1 in
    rw (transfer_steps from nonce to amount m s t hs ht) (
      ground arith,
      ground (
        arith,
        total-insert from s S₁ m hs,
        total-insert from S₁ S₂ M₁ (lookup-m₁ from nonce to amount m s t),
        total-insert to T₂ T₃ M₂ (lookup-m₂ from nonce to amount m s t ht),
      ),
      λ k kf kt. ground (
        arith,
        bytes_eq_iff k from,
        bytes_eq_iff k to,
        lookup-insert from k S₁ m,
        lookup-insert from k S₂ M₁,
        lookup-insert to k T₃ M₂,
      ),
    )

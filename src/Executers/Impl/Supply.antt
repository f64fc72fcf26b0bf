-- ===== src/Executers/Impl/Supply.antt =====
-- executers/executer.go: a call that succeeds keeps the supply.
use simple_blockchain_go.Accounts.{AccountState, add, check_nonce, subtract}
use simple_blockchain_go.Accounts.Laws.{IsBounded, subtract_add_lem}
use simple_blockchain_go.Base.{
  Bool, Bytes, Option-cases, Outcome, [], ap, arith, bytes_eq, bytes_eq_iff, bytes_eq_self, err,
  if◌then◌else◌, inl, inr, insert, lookup, lookup-insert, nonce_invalid, none, not_enough_balance,
  ok, overflow, refl, some, sym, ℕ, ◌∙◌, ◌∷◌, ◌≡◌, ◌≢◌, ◌≤◌,
}
use simple_blockchain_go.Common.{generator_balance}
use simple_blockchain_go.Executers.Impl.{
  States, airdrop_impl, airdrop_known, in_place, transfer_impl,
}
use simple_blockchain_go.Executers.Impl.Airdrop.{airdrop_impl_lem}
use simple_blockchain_go.Executers.Impl.Laws.{
  check_nonce_lem, in_place_lem, total, total-insert, transfer_impl_lem,
}
use simple_blockchain_go.P2p.Laws.{others}

-- The balances add up to the supply.
abbrev pub IsSupplied : States → Type 0
IsSupplied m = total m ≡ generator_balance

balance-total :
    (k : Bytes) (m : States) (s : AccountState) → lookup k m ≡ some s → s.balance ≤ total m
unfolding total
balance-total k [] s h = cc
balance-total k ((j, t) ∷ m) s h = ground (arith, balance-total k m s)

bounded :
    (k : Bytes) (m : States) (s : AccountState) → IsSupplied m → lookup k m ≡ some s → IsBounded s
bounded k m s h there = omega (arith, balance-total k m s there)

transfer_impl-keys :
    (from : Bytes) (nonce : ℕ) (to : Bytes) (amount : ℕ) (m : States)
    → (transfer_impl from nonce to amount m).1 ≡ ok tt
    → (lookup from m ≢ none) × (lookup to m ≢ none)
unfolding transfer_impl
transfer_impl-keys from nonce to amount m h = ground arith

present : (k : Bytes) (m : States) → lookup k m ≢ none → (s : AccountState) × (lookup k m ≡ some s)
present k m h = elim (Option-cases (lookup k m)) [
  | inl absent ↦ absurd (h absent)
  | inr there ↦ there
]

pub transfer_impl-IsSupplied :
    (from : Bytes) (nonce : ℕ) (to : Bytes) (amount : ℕ) (m : States)
    → IsSupplied m
    → (transfer_impl from nonce to amount m).1 ≡ ok tt
    → IsSupplied (transfer_impl from nonce to amount m).0
transfer_impl-IsSupplied from nonce to amount m h went =
    let (from_there, to_there) = transfer_impl-keys from nonce to amount m went in
    let (s, hs) = present from m from_there in
    let (t, ht) = present to m to_there in
    let (when, kept, others) =
      transfer_impl_lem from nonce to amount m s t hs ht (bounded from m s h hs)
        (bounded to m t h ht) in
    kept went ∙ h

airdrop_known-steps :
    (to : Bytes) (nonce : ℕ) (from : Bytes) (amount : ℕ) (m m₁ m₂ m₃ : States)
    (right paid added : Bool)
    → in_place to (λ s. check_nonce s nonce) m ≡ (right, m₁)
    → in_place from (λ s. subtract s amount) m₁ ≡ (paid, m₂)
    → in_place to (λ s. add s amount) m₂ ≡ (added, m₃)
    → airdrop_known to nonce from amount m ≡ (
        if right
        then (if paid
            then (if added then (m₃, ok tt) else (m₃, err overflow))
            else (m₂, err not_enough_balance))
        else (m₁, err nonce_invalid))
unfolding airdrop_known
airdrop_known-steps to nonce from amount m m₁ m₂ m₃ right paid added a b c = rw a (rw b (rw c refl))

airdrop_known-total :
    (to : Bytes) (nonce : ℕ) (from : Bytes) (amount : ℕ) (m : States) (s t : AccountState)
    → lookup from m ≡ some s
    → lookup to m ≡ some t
    → IsBounded s
    → IsBounded t
    → (airdrop_known to nonce from amount m).1 ≡ ok tt
    → total (airdrop_known to nonce from amount m).0 ≡ total m
airdrop_known-total to nonce from amount m s t hs ht bs bt went =
    let T₁ = (check_nonce t nonce).1 in
    let M₁ = insert to T₁ m in
    let S₁ = if bytes_eq from to then T₁ else s in
    let S₂ = (subtract S₁ amount).1 in
    let M₂ = insert from S₂ M₁ in
    let T₂ = if bytes_eq to from then S₂ else T₁ in
    let T₃ = (add T₂ amount).1 in
    let same = bytes_eq_iff to from in
    let same' = bytes_eq_iff from to in
    let checked = check_nonce_lem t nonce in
    let bs₁ : IsBounded S₁ = ground (arith, checked.0) in
    let paid = subtract_add_lem S₁ amount bs₁ in
    let bt₂ : IsBounded T₂ = ground (arith, paid.0, checked.0) in
    let added = subtract_add_lem T₂ amount bt₂ in
    let in₁ : lookup from M₁ ≡ some S₁ = ground (arith, lookup-insert to from T₁ m) in
    let in₂ : lookup to M₂ ≡ some T₂ =
      ground (arith, lookup-insert from to S₂ M₁, lookup-insert to to T₁ m, bytes_eq_self to) in
    let steps =
      airdrop_known-steps to nonce from amount m M₁ M₂ (insert to T₃ M₂) (check_nonce t nonce).0
        (subtract S₁ amount).0 (add T₂ amount).0 (in_place_lem to (λ s. check_nonce s nonce) m t ht)
        (in_place_lem from (λ s. subtract s amount) M₁ S₁ in₁)
        (in_place_lem to (λ s. add s amount) M₂ T₂ in₂) in
    ground (
      arith,
      steps,
      paid,
      added,
      checked.0,
      total-insert to t T₁ m ht,
      total-insert from S₁ S₂ M₁ in₁,
      total-insert to T₂ T₃ M₂ in₂,
    )

airdrop_impl-known :
    (to : Bytes) (nonce : ℕ) (from : Bytes) (amount : ℕ) (m : States) (s t : AccountState)
    → lookup from m ≡ some s
    → lookup to m ≡ some t
    → airdrop_impl to nonce from amount m ≡ airdrop_known to nonce from amount m
unfolding airdrop_impl
airdrop_impl-known to nonce from amount m s t hs ht = ground arith

airdrop_impl-keys :
    (to : Bytes) (nonce : ℕ) (from : Bytes) (amount : ℕ) (m : States)
    → (airdrop_impl to nonce from amount m).1 ≡ ok tt
    → lookup from m ≢ none
unfolding airdrop_impl
airdrop_impl-keys to nonce from amount m h = ground arith

pub airdrop_impl-IsSupplied :
    (to : Bytes) (nonce : ℕ) (from : Bytes) (amount : ℕ) (m : States)
    → IsSupplied m
    → (airdrop_impl to nonce from amount m).1 ≡ ok tt
    → IsSupplied (airdrop_impl to nonce from amount m).0
airdrop_impl-IsSupplied to nonce from amount m h went =
    let (s, hs) = present from m (airdrop_impl-keys to nonce from amount m went) in
    let bs = bounded from m s h hs in
    elim (Option-cases (lookup to m)) [
      | inl absent ↦ (airdrop_impl_lem to nonce from amount m s hs absent bs).1 went ∙ h
      | inr (t, ht) ↦
          let known = airdrop_impl-known to nonce from amount m s t hs ht in
          ap (λ (r : States × Outcome (Unit {0})). total r.0) known
          ∙ airdrop_known-total to nonce from amount m s t hs ht bs (bounded to m t h ht)
              (ap (λ (r : States × Outcome (Unit {0})). r.1) (sym known) ∙ went)
          ∙ h
    ]

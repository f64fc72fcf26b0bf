-- ===== src/Executers/Impl/Airdrop.antt =====
-- executers/executer.go: the airdrop to a caller that has no account yet.
use simple_blockchain_go.Accounts.{AccountState, add, check_nonce, subtract, zero_state}
use simple_blockchain_go.Accounts.Laws.{IsBounded, subtract_add_lem}
use simple_blockchain_go.Base.{
  Bytes, [], arith, bytes_eq_iff, bytes_eq_self, err, if◌then◌else◌, insert, lookup, lookup-insert,
  nonce_invalid, none, not_enough_balance, ok, overflow, some, true, ℕ, ◌+◌, ◌↔◌, ◌∷◌, ◌≡◌, ◌≢◌,
  ◌≤◌,
}
use simple_blockchain_go.Executers.Impl.{States, airdrop_impl, airdrop_new}
use simple_blockchain_go.Executers.Impl.Laws.{check_nonce_lem, in_place_lem, total, total-insert}

total-insert_new :
    (k : Bytes) (s : AccountState) (m : States)
    → lookup k m ≡ none
    → total (insert k s m) ≡ total m + s.balance
unfolding total
total-insert_new k s [] h = omega arith
total-insert_new k s ((j, t) ∷ m) h = ground (arith, total-insert_new k s m)

airdrop_steps :
    (to : Bytes) (nonce : ℕ) (from : Bytes) (amount : ℕ) (m : States) (s : AccountState)
    → lookup from m ≡ some s
    → lookup to m ≡ none
    → let s₁ = (check_nonce zero_state nonce).1 in
      let m₂ = insert from (subtract s amount).1 m in
      airdrop_impl to nonce from amount m ≡ (
        if (check_nonce zero_state nonce).0
        then (if (subtract s amount).0
            then (if (add s₁ amount).0
                then (insert to (add s₁ amount).1 m₂, ok tt)
                else (m₂, err overflow))
            else (m₂, err not_enough_balance))
        else (m, err nonce_invalid))
unfolding airdrop_impl check_nonce airdrop_new subtract
airdrop_steps to nonce from amount m s hs ht =
    rw (hs, airdrop_impl)
      (rw (ht, airdrop_new) (rw (in_place_lem from (λ s. subtract s amount) m s hs)))

new_state :
    (nonce amount : ℕ)
    → (check_nonce zero_state nonce).0 ≡ true
    → (add (check_nonce zero_state nonce).1 amount).0 ≡ true
    → (add (check_nonce zero_state nonce).1 amount).1 ≡ record { nonce = 1; balance = amount }
unfolding check_nonce add
new_state nonce amount right room = ground arith

-- From a generator that is there and within its balance, to a caller without an account, an airdrop
-- succeeds exactly if the nonce is zero and the generator has the amount. The caller's new account
-- then holds the amount, and the sum of all balances is kept. Whatever the outcome, no third account
-- changes.
pub airdrop_impl_lem :
    (to : Bytes) (nonce : ℕ) (from : Bytes) (amount : ℕ) (m : States) (s : AccountState)
    → lookup from m ≡ some s
    → lookup to m ≡ none
    → IsBounded s
    → let (m', r) = airdrop_impl to nonce from amount m in
      ((r ≡ ok tt) ↔ ((nonce ≡ 0) × (amount ≤ s.balance)))
      × ((r ≡ ok tt) → total m' ≡ total m)
      × ((r ≡ ok tt) → lookup to m' ≡ some (record { nonce = 1; balance = amount }))
      × ((k : Bytes) → k ≢ from → k ≢ to → lookup k m' ≡ lookup k m)
airdrop_impl_lem to nonce from amount m s hs ht bs =
    let s₁ = (check_nonce zero_state nonce).1 in
    let S₂ = (subtract s amount).1 in
    let M₂ = insert from S₂ m in
    let S₃ = (add s₁ amount).1 in
    let checked = check_nonce_lem zero_state nonce in
    let paid = subtract_add_lem s amount bs in
    let bz : IsBounded s₁ = omega arith in
    let added = subtract_add_lem s₁ amount bz in
    let absent : lookup to M₂ ≡ none =
      ground (arith, lookup-insert from to S₂ m, bytes_eq_iff to from, ht) in
    rw (airdrop_steps to nonce from amount m s hs ht) (
      ground arith,
      ground (arith, total-insert from s S₂ m hs, total-insert_new to S₃ M₂ absent),
      ground (arith, lookup-insert to to S₃ M₂, bytes_eq_self to, new_state nonce amount),
      λ k kf kt. ground (
        arith,
        bytes_eq_iff k from,
        bytes_eq_iff k to,
        lookup-insert from k S₂ m,
        lookup-insert to k S₃ M₂,
      ),
    )

-- ===== src/Accounts/Laws.antt =====
-- The account methods keep every balance within the generator's, so no sum wraps.
use simple_blockchain_go.Accounts.{AccountState, add, subtract}
use simple_blockchain_go.Base.{arith, false, true, ℕ, ◌+◌, ◌↔◌, ◌≡◌, ◌≤◌}
use simple_blockchain_go.Common.{generator_balance}

-- No account holds more than the generator was given.
abbrev pub IsBounded : AccountState → Type 0
IsBounded s = s.balance ≤ generator_balance

-- On a bounded state `Subtract` and `Add` keep the bound, fail exactly when the funds or the room
-- are short, leave the state alone then, and otherwise move the balance by the amount with no wrap.
pub subtract_add_lem :
    (s : AccountState) (amount : ℕ)
    → IsBounded s
    → IsBounded (subtract s amount).1
      × IsBounded (add s amount).1
      × (((subtract s amount).0 ≡ true) ↔ (amount ≤ s.balance))
      × (((add s amount).0 ≡ true) ↔ (s.balance + amount ≤ generator_balance))
      × (((subtract s amount).0 ≡ true) → (subtract s amount).1.balance + amount ≡ s.balance)
      × (((add s amount).0 ≡ true) → (add s amount).1.balance ≡ s.balance + amount)
      × (((subtract s amount).0 ≡ false) → (subtract s amount).1 ≡ s)
      × (((add s amount).0 ≡ false) → (add s amount).1 ≡ s)
unfolding subtract add
subtract_add_lem s amount h = ground arith

-- ===== src/Accounts.antt =====
-- accounts/account.go: the state of an account. A uint64 is a number below 2^64.
pub mod Laws
use simple_blockchain_go.Base.{Bool, false, if◌then◌else◌, ltb, true, ℕ, ◌%◌, ◌+◌, ◌-◌, ◌==◌}
use simple_blockchain_go.Common.{generator_balance, u64_mod}

pub record AccountState : Type 0 where
  pub nonce : ℕ
  pub balance : ℕ

-- `Subtract`: the result, and the state that is left behind.
unfoldable pub subtract : AccountState → ℕ → Bool × AccountState
subtract s amount =
    if ltb s.balance amount then (false, s) else (true, record s { balance = s.balance - amount })

-- `Add`. The difference wraps, should the balance be above the limit.
unfoldable pub add : AccountState → ℕ → Bool × AccountState
add s amount =
    let max = (generator_balance + u64_mod - s.balance) % u64_mod in
    if ltb max amount
    then (false, s)
    else (true, record s { balance = (s.balance + amount) % u64_mod })

-- `CheckNonce` advances the nonce when it matches.
unfoldable pub check_nonce : AccountState → ℕ → Bool × AccountState
check_nonce s nonce =
    if s.nonce == nonce then (true, record s { nonce = (s.nonce + 1) % u64_mod }) else (false, s)

abbrev pub zero_state : AccountState
zero_state = record { nonce = 0; balance = 0 }

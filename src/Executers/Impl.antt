-- ===== src/Executers/Impl.antt =====
-- airdropImpl and transferImpl of executers/executer.go, over the account states in memory.
--
-- `GetAccountState` hands out the pointer that the map holds, so `CheckNonce`, `Subtract` and `Add`
-- change the state in the map at once, whether or not a Put follows, and two gets of one key give one
-- object. So an account that is found is worked on in place, under its key. An account that is not
-- found comes as a new object, which reaches the map by its Put only.
pub mod Laws
pub mod Airdrop
pub mod Supply
use simple_blockchain_go.Accounts.{AccountState, add, check_nonce, subtract, zero_state}
use simple_blockchain_go.Base.{
  Bool, Bytes, Map, Outcome, err, false, if◌then◌else◌, insert, key_not_found, lookup,
  nonce_invalid, none, not_enough_balance, ok, overflow, some, ℕ,
}

abbrev pub States : Type 0
States = Map AccountState

-- A method called through the pointer that `Get` gave for a key that is there.
unfoldable pub in_place : Bytes → (AccountState → Bool × AccountState) → States → Bool × States
in_place k method m = elim (lookup k m) [
  | none ↦ (false, m)
  | some s ↦ let (done, s') = method s in (done, insert k s' m)
]

-- `airdropImpl`, from the generator's key `from` to the caller's key `to` (both as the map has them):
-- the case of a receiver that is there, and that of a new one.
unfoldable pub airdrop_known : Bytes → ℕ → Bytes → ℕ → States → States × Outcome (Unit {0})
airdrop_known to nonce from amount m =
    let (right, m₁) = in_place to (λ s. check_nonce s nonce) m in
    let (paid, m₂) = in_place from (λ s. subtract s amount) m₁ in
    let (added, m₃) = in_place to (λ s. add s amount) m₂ in
    if right
    then (if paid
        then (if added then (m₃, ok tt) else (m₃, err overflow))
        else (m₂, err not_enough_balance))
    else (m₁, err nonce_invalid)

unfoldable pub airdrop_new : Bytes → ℕ → Bytes → ℕ → States → States × Outcome (Unit {0})
airdrop_new to nonce from amount m =
    let (right, s₁) = check_nonce zero_state nonce in
    let (paid, m₂) = in_place from (λ s. subtract s amount) m in
    let (added, s₃) = add s₁ amount in
    if right
    then (if paid
        then (if added then (insert to s₃ m₂, ok tt) else (m₂, err overflow))
        else (m₂, err not_enough_balance))
    else (m, err nonce_invalid)

unfoldable pub airdrop_impl : Bytes → ℕ → Bytes → ℕ → States → States × Outcome (Unit {0})
airdrop_impl to nonce from amount m = elim (lookup from m) [
  | none ↦ (m, err key_not_found)
  | some _ ↦ elim (lookup to m) [
    | none ↦ airdrop_new to nonce from amount m
    | some _ ↦ airdrop_known to nonce from amount m
  ]
]

-- `transferImpl`. The nonce is checked, and advanced, before the receiver is looked at. A return before
-- that leaves the reply on the receiver unread: what follows from it is in Executers.Executer.
unfoldable pub transfer_impl : Bytes → ℕ → Bytes → ℕ → States → States × Outcome (Unit {0})
transfer_impl from nonce to amount m =
    let (right, m₁) = in_place from (λ s. check_nonce s nonce) m in
    let (paid, m₂) = in_place from (λ s. subtract s amount) m₁ in
    let (added, m₃) = in_place to (λ s. add s amount) m₂ in
    elim (lookup from m) [
      | none ↦ (m, err key_not_found)
      | some _ ↦
          if right
          then elim (lookup to m) [
            | none ↦ (m₁, err key_not_found)
            | some _ ↦
                if paid
                then (if added then (m₃, ok tt) else (m₃, err overflow))
                else (m₂, err not_enough_balance)
          ]
          else (m₁, err nonce_invalid)
    ]

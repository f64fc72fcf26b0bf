-- ===== src/Storage/Service/Batch.antt =====
-- storage/storage_service.go: how many account states FetchAccounts and FetchAllAccounts can move.
use simple_blockchain_go.Accounts.{AccountState}
use simple_blockchain_go.Base.{
  Bool-cases, Bytes, List, Slice, [], arith, content, if◌then◌else◌, inl, inr, length, ltb, ok,
  panic, some, suc, ℕ, ◌+◌, ◌==◌, ◌∷◌, ◌≡◌, ◌≤◌,
}
use simple_blockchain_go.Common.{public_key_size}
use simple_blockchain_go.Env.{Env}
use simple_blockchain_go.Executers.Executer.Mint.{kept}
use simple_blockchain_go.Memory.Service.{MemoryService, put_account_state}
use simple_blockchain_go.Storage.Bolt.{Bolt}
use simple_blockchain_go.Storage.Service.{
  accounts_bucket, batch_size, fetch_accounts, fetch_all_accounts, fetch_each, fetch_pairs,
  read_state, send_put,
}

module _ (bolt : Bolt) (e : Env) (db : bolt.Db) where
  -- The state of every key is read without an error.
  abbrev pub AllRead : List Slice → Type 0
  AllRead [] = Unit
  AllRead (pk ∷ keys) =
      ((s : AccountState) × (read_state bolt e (bolt.read db accounts_bucket (content pk)) ≡ ok s))
      × AllRead keys

  fetch_each_lem :
      (sent : ℕ) (keys : List Slice) (ms : MemoryService)
      → AllRead keys
      → sent ≤ batch_size
      → (fetch_each bolt e sent keys db ms).1
        ≡ (if ltb batch_size (sent + length keys) then panic else ok tt)
  unfolding fetch_each send_put
  fetch_each_lem sent [] ms readable room = ground arith
  fetch_each_lem sent (pk ∷ keys) ms ((s, read), readable) room =
      let next = (put_account_state e pk s ms).0 in
      elim (Bool-cases (ltb sent batch_size)) [
        | inl more ↦ ground (arith, read, fetch_each_lem (suc sent) keys next readable)
        | inr full ↦ ground (arith, read)
      ]

  -- `FetchAccounts` of keys whose states are all read without an error, while no other goroutine has
  -- requests on the states on the way, returns no error if there are at most eleven keys, and never
  -- returns if there are more.
  pub fetch_accounts_lem :
      (keys : List Slice) (ms : MemoryService)
      → AllRead keys
      → (fetch_accounts bolt e keys db ms).1 ≡ (if ltb 11 (length keys) then panic else ok tt)
  unfolding fetch_accounts
  fetch_accounts_lem keys ms readable = ground (arith, fetch_each_lem 0 keys ms readable)

module _ (bolt : Bolt) (e : Env) where
  -- The pairs of the accounts: those with a key of 32 bytes.
  abbrev pub accounts_in : List (Bytes × Bytes) → ℕ
  accounts_in [] = 0
  accounts_in ((k, v) ∷ pairs) =
      let rest = accounts_in pairs in if length k == public_key_size then suc rest else rest

  -- The state of every account is decoded without an error.
  abbrev pub AllDecoded : List (Bytes × Bytes) → Type 0
  AllDecoded [] = Unit
  AllDecoded ((k, v) ∷ pairs) =
      (length k ≡ public_key_size → (s : AccountState) × (e.state_json.unmarshal v ≡ some s))
      × AllDecoded pairs

  fetch_pairs_lem :
      (sent : ℕ) (pairs : List (Bytes × Bytes)) (ms : MemoryService)
      → AllDecoded pairs
      → sent ≤ batch_size
      → (fetch_pairs bolt e sent pairs ms).1
        ≡ (if ltb batch_size (sent + accounts_in pairs) then panic else ok tt)
  unfolding fetch_pairs send_put
  fetch_pairs_lem sent [] ms decoded room = ground arith
  fetch_pairs_lem sent ((k, v) ∷ pairs) ms (one, decoded) room =
      elim (Bool-cases (length k == public_key_size)) [
        | inr skip ↦ ground (arith, fetch_pairs_lem sent pairs ms decoded)
        | inl kept ↦
            let (s, read) = one (ground arith) in
            let next = (put_account_state e (some k) s ms).0 in
            elim (Bool-cases (ltb sent batch_size)) [
              | inl more ↦ ground (arith, read, fetch_pairs_lem (suc sent) pairs next decoded)
              | inr full ↦ ground (arith, read)
            ]
      ]

  -- `FetchAllAccounts` of a database whose account states are all decoded without an error, while no
  -- other goroutine has requests on the states on the way, returns no error if it holds at most eleven
  -- accounts, and never returns if it holds more.
  pub fetch_all_accounts_lem :
      (db : bolt.Db) (ms : MemoryService)
      → AllDecoded (bolt.cursor db accounts_bucket)
      → (fetch_all_accounts bolt e db ms).1
        ≡ (if ltb 11 (accounts_in (bolt.cursor db accounts_bucket)) then panic else ok tt)
  unfolding fetch_all_accounts
  fetch_all_accounts_lem db ms decoded =
      ground (arith, fetch_pairs_lem 0 (bolt.cursor db accounts_bucket) ms decoded)

-- ===== src/Storage/Service.antt =====
-- storage/storage_service.go. The loop `run` takes one request after the other off a channel, so the
-- service is a function of the requests in the order taken.
pub mod Laws
pub mod Batch
pub mod Requests
use simple_blockchain_go.Accounts.{AccountState, zero_state}
use simple_blockchain_go.Base.{
  Bool, Bytes, List, Option, Outcome, Slice, [], content, database, err, false, if◌then◌else◌, json,
  length, ltb, none, not, not_nil, ok, or_err, panic, some, suc, true, ℕ, ◌&&◌, ◌==◌, ◌>>=◌, ◌∷◌,
}
use simple_blockchain_go.Common.{public_key_size}
use simple_blockchain_go.Env.{Env}
use simple_blockchain_go.Memory.Service.{MemoryService, Reply, get_account_state, put_account_state}
use simple_blockchain_go.Storage.Bolt.{Bolt}
use simple_blockchain_go.Storage.Db.{
  DbContent, get_by_index, get_by_key, get_latest, get_latest_index, get_latest_key, put_db, update,
}

abbrev pub get_kind : ℕ
get_kind = 1

abbrev pub put_kind : ℕ
put_kind = 2

-- How many requests on the states go through while no reply is read: the one that the memory service
-- has taken, and the ten that its channel holds. No other goroutine has requests on the way.
abbrev pub batch_size : ℕ
batch_size = 11

pub data ReferenceKind : Type 0 where
  by_key by_index latest latest_key_ref latest_index_ref : ReferenceKind

pub data BucketKind : Type 0 where
  blocks accounts : BucketKind

-- The letters of "blocks" and of "accounts".
abbrev pub blocks_bucket : Bytes
blocks_bucket = b'b' ∷ b'l' ∷ b'o' ∷ b'c' ∷ b'k' ∷ b's' ∷ []

abbrev pub accounts_bucket : Bytes
accounts_bucket = b'a' ∷ b'c' ∷ b'c' ∷ b'o' ∷ b'u' ∷ b'n' ∷ b't' ∷ b's' ∷ []

abbrev pub bucket_of : BucketKind → Bytes
bucket_of blocks = blocks_bucket
bucket_of accounts = accounts_bucket

module _ (bolt : Bolt) where
  open bolt use {Db, read, write, cursor}

  -- `put`; the error is nil or the transaction's. A nil content is `none`.
  unfoldable pub put : BucketKind → Option DbContent → Db → Db × Outcome (Unit {0})
  put bucket none db = (db, ok tt)
  put bucket (some c) db = put_db bolt (bucket_of bucket) c db

  get_reference : Bytes → ReferenceKind → Slice → Db → Slice
  get_reference b by_key ref db = get_by_key bolt b ref db
  get_reference b by_index ref db = get_by_index bolt b ref db
  get_reference b latest ref db = get_latest bolt b db
  get_reference b latest_key_ref ref db = get_latest_key bolt b db
  get_reference b latest_index_ref ref db = get_latest_index bolt b db

  abbrev needs_reference : ReferenceKind → Bool
  needs_reference by_key = true
  needs_reference by_index = true
  needs_reference _ = false

  -- `get`; a read never returns an error.
  unfoldable pub get : BucketKind → ReferenceKind → Slice → Db → Slice
  unfolding get_reference
  get bucket ref_kind ref db =
      if needs_reference ref_kind && not (not_nil ref)
      then none
      else get_reference (bucket_of bucket) ref_kind ref db

-- The three calls that move account states between the database and the memory service. The puts and
-- gets that they send are taken by the memory service in the order sent. Each call sends all its
-- requests before it reads a reply. The memory service answers on a channel without a buffer, so it
-- stops at the first reply until that one is read, while its request channel takes ten more: the
-- twelfth request is never taken, and the call waits for ever, which is a `panic` here.
--
-- A call that ends in an error leaves the replies to what it sent unread, and the memory service
-- stopped. Such an error is not handled by any caller but ends the node, so the memory beside it, as
-- the one beside a `panic`, is what the requests sent would leave, and is used no more.
module _ (bolt : Bolt) (e : Env) where
  open bolt use {Db, read, write, cursor}

  -- The state that `FetchAccounts` reads for one key: zero if the key is not there.
  unfoldable pub read_state : Slice → Outcome AccountState
  read_state none = ok zero_state
  read_state (some raw) = or_err (e.state_json.unmarshal raw) json

  -- A Put of a batch of which `sent` requests are sent: it goes through, or blocks the call.
  unfoldable pub send_put :
      ℕ
      → Slice
      → AccountState
      → (MemoryService → MemoryService × Outcome (Unit {0}))
      → MemoryService
      → MemoryService × Outcome (Unit {0})
  send_put sent pk s next ms =
      if ltb sent batch_size then next (put_account_state e pk s ms).0 else (ms, panic)

  -- The loop of `FetchAccounts`, with as many requests sent.
  unfoldable pub fetch_each :
      ℕ → List Slice → Db → MemoryService → MemoryService × Outcome (Unit {0})
  unfolding read_state send_put
  fetch_each sent [] db ms = (ms, ok tt)
  fetch_each sent (pk ∷ keys) db ms = elim (read_state (read db accounts_bucket (content pk))) [
    | ok s ↦ send_put sent pk s (λ ms'. fetch_each (suc sent) keys db ms') ms
    | err x ↦ (ms, err x)
    | panic ↦ (ms, panic)
  ]

  -- `FetchAccounts`
  unfoldable pub fetch_accounts :
      List Slice → Db → MemoryService → MemoryService × Outcome (Unit {0})
  unfolding fetch_each
  fetch_accounts keys db ms = fetch_each 0 keys db ms

  -- The loop of `FetchAllAccounts` over the cursor: keys of other sizes are passed over.
  unfoldable pub fetch_pairs :
      ℕ → List (Bytes × Bytes) → MemoryService → MemoryService × Outcome (Unit {0})
  unfolding send_put
  fetch_pairs sent [] ms = (ms, ok tt)
  fetch_pairs sent ((k, v) ∷ pairs) ms =
      if length k == public_key_size
      then elim (e.state_json.unmarshal v) [
        | none ↦ (ms, err json)
        | some s ↦ send_put sent (some k) s (λ ms'. fetch_pairs (suc sent) pairs ms') ms
      ]
      else fetch_pairs sent pairs ms

  -- `FetchAllAccounts`
  unfoldable pub fetch_all_accounts : Db → MemoryService → MemoryService × Outcome (Unit {0})
  unfolding fetch_pairs
  fetch_all_accounts db ms = fetch_pairs 0 (cursor db accounts_bucket) ms

  -- One turn of the loop of `PushAccounts`. A nil result, of a nil key, is read through.
  unfoldable pub push_one : Slice → Reply → Db → Outcome Db
  push_one pk none db = panic
  push_one pk (some (s, some x)) db = err x
  push_one pk (some (s, none)) db = do
    enc ← or_err (e.state_json.marshal s) json
    or_err (write db accounts_bucket (content pk) enc) database

  unfoldable pub push_each : List Slice → MemoryService → Db → Outcome Db
  unfolding push_one
  push_each [] ms db = ok db
  push_each (pk ∷ keys) ms db = do
    db' ← push_one pk (get_account_state e pk ms).1 db
    push_each keys ms db'

  -- `PushAccounts`: the Gets are sent first, then the replies are read in one transaction.
  unfoldable pub push_accounts : List Slice → MemoryService → Db → Db × Outcome (Unit {0})
  unfolding push_each
  push_accounts keys ms db =
      if ltb batch_size (length keys) then (db, panic) else update bolt (push_each keys ms) db

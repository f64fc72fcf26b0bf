-- ===== src/Memory/Service.antt =====
-- memory/memory_service.go. The loop `run` takes one request after the other off two channels, so
-- the service is a function of the requests in the order taken. What a caller reads from its result
-- channel is the reply. That channel has no buffer, so the service stops while a reply is not read;
-- where a caller leaves one unread, or sends too many requests first, is in Storage.Service and
-- Executers.Executer.
pub mod Laws
pub mod Run
use simple_blockchain_go.Accounts.{AccountState, zero_state}
use simple_blockchain_go.Base.{
  Bool, Bytes, Error, List, Map, Option, Outcome, Slice, Sort, [], content, if◌then◌else◌,
  key_not_found, none, not_nil, ok, some, ℕ, ◌==◌, ◌>>=◌,
}
use simple_blockchain_go.Env.{Env}
use simple_blockchain_go.Memory.Db.{get, put, get_merkle_nodes}
use simple_blockchain_go.Memory.Mempool.{Mempool, append, contains, new_mempool, remove}
use simple_blockchain_go.Merkle.{MerkleNode, node_data, tree_from_nodes}
use simple_blockchain_go.Types.{Transaction}

abbrev pub append_kind : ℕ
append_kind = 1

abbrev pub remove_kind : ℕ
remove_kind = 2

abbrev pub get_kind : ℕ
get_kind = 3

abbrev pub put_kind : ℕ
put_kind = 4

-- A nil `Keys` is `none`.
pub record MempoolRequest : Type 0 where
  pub request_kind : ℕ
  pub tx : Option Transaction
  pub keys : Option (List Bytes)

-- The result channel of a request is never nil: both senders make one.
pub record StateMemRequest : Type 0 where
  pub request_kind : ℕ
  pub public_key : Slice
  pub state : Option AccountState

-- `*common.Result`; `none` is the nil that answers a Put.
abbrev pub Reply : Type 0
Reply = Option (AccountState × Option Error)

pub record MemoryService : Type 0 where
  pub mempool : Mempool
  pub state_mem : Map AccountState

-- `NewMemoryService`
abbrev pub new_memory_service : MemoryService
new_memory_service = record { mempool = new_mempool; state_mem = [] }

module _ (e : Env) where
  unfoldable pub handle_append : Option Transaction → MemoryService → MemoryService
  handle_append none ms = ms
  handle_append (some tx) ms = record ms { mempool = append e ms.mempool tx }

  unfoldable pub handle_remove : Option (List Bytes) → MemoryService → MemoryService
  handle_remove none ms = ms
  handle_remove (some keys) ms = record ms { mempool = remove ms.mempool keys }

  -- `handleTx`
  unfoldable pub handle_tx : MempoolRequest → MemoryService → MemoryService
  unfolding handle_append handle_remove
  handle_tx req ms =
      if req.request_kind == append_kind
      then handle_append req.tx ms
      else if req.request_kind == remove_kind
      then handle_remove req.keys ms
      else ms

  -- The case `Get` of `handleState`, on a key that is not nil.
  unfoldable pub reply_get : Bytes → Map AccountState → Reply
  unfolding get
  reply_get key m =
      let (state, found) = get zero_state key m in
      if found then some (state, none) else some (zero_state, some key_not_found)

  unfoldable pub put_state : Slice → Option AccountState → Map AccountState → Map AccountState
  unfolding put
  put_state none state m = m
  put_state (some key) none m = m
  put_state (some key) (some state) m = put (e.base58_encode key) state m

  -- `handleState`: the service and the reply.
  unfoldable pub handle_state : StateMemRequest → MemoryService → MemoryService × Reply
  unfolding reply_get put_state
  handle_state req ms =
      if req.request_kind == get_kind
      then (
        ms,
        (if not_nil req.public_key
            then reply_get (e.base58_encode (content req.public_key)) ms.state_mem
            else none),
      )
      else if req.request_kind == put_kind
      then (record ms { state_mem = put_state req.public_key req.state ms.state_mem }, none)
      else (ms, none)

  -- `GetAccountState`, with the reply that its channel delivers.
  unfoldable pub get_account_state : Slice → MemoryService → MemoryService × Reply
  unfolding handle_state
  get_account_state key =
      handle_state (record { request_kind = get_kind; public_key = key; state = none })

  -- `PutAccountState`
  unfoldable pub put_account_state : Slice → AccountState → MemoryService → MemoryService × Reply
  unfolding handle_state
  put_account_state key s =
      handle_state (record { request_kind = put_kind; public_key = key; state = some s })

  -- `AppendTx`, with the turn of `run` that takes its request: the call itself only puts the request on
  -- a channel. What another goroutine reads of the pool between the two is not modelled.
  unfoldable pub append_tx : Transaction → MemoryService → MemoryService
  unfolding handle_tx
  append_tx t = handle_tx (record { request_kind = append_kind; tx = some t; keys = none })

  -- `RemoveTxs`, with the turn of `run` that takes its request
  unfoldable pub remove_txs : List Bytes → MemoryService → MemoryService
  unfolding handle_tx
  remove_txs ks = handle_tx (record { request_kind = remove_kind; tx = none; keys = some ks })

  -- `ContainsTx`
  unfoldable pub contains_tx : Slice → MemoryService → Bool
  contains_tx key ms = contains ms.mempool (e.base58_encode (content key))

  -- `GetStateHash`
  unfoldable pub get_state_hash : Sort MerkleNode → MemoryService → Outcome Bytes
  get_state_hash sort ms = do
    nodes ← get_merkle_nodes e e.state_json.marshal sort zero_state ms.state_mem
    root ← tree_from_nodes e.sum256 nodes
    ok (node_data root)

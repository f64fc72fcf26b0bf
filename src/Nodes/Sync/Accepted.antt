-- ===== src/Nodes/Sync/Accepted.antt =====
-- memory/mempool.go under nodes/sync/sync_service.go and nodes/rpc/rpc_server.go: the pools that a node
-- can reach.
use simple_blockchain_go.Accounts.{AccountState}
use simple_blockchain_go.Base.{
  Bytes, Entries, IsMap, List, Map, Option, [], content, delete, delete-Entries, delete-IsMap, inl,
  inr, insert-Entries, insert-IsMap, refl, ℕ, ◌∷◌, ◌≡◌,
}
use simple_blockchain_go.Env.{Env}
use simple_blockchain_go.Memory.Mempool.{Mempool, append, remove}
use simple_blockchain_go.Memory.Service.{
  MemoryService, append_tx, handle_tx, new_memory_service, remove_txs,
}
use simple_blockchain_go.Nodes.Node.{Node}
use simple_blockchain_go.Nodes.RpcServer.{handle_rpc}
use simple_blockchain_go.Nodes.Sync.Handlers.{handle_sync_message}
use simple_blockchain_go.Nodes.Sync.Messages.{SyncJson}
use simple_blockchain_go.Nodes.Sync.Pool.{
  IsAccepted, Takes, handle_rpc-Takes, handle_sync_message-Takes,
}
use simple_blockchain_go.P2p.Service.{P2pService}
use simple_blockchain_go.Rpc.Wire.{Net}
use simple_blockchain_go.Storage.Bolt.{Bolt}
use simple_blockchain_go.Txs.{to_keys}
use simple_blockchain_go.Types.{Block, Transaction}

module _ (e : Env) where
  -- An entry of the pool: an accepted transaction, under its hash.
  abbrev pub IsEntry : Bytes → Transaction → Type 0
  IsEntry k t = IsAccepted e t × (k ≡ e.base58_encode (content t.hash))

  -- A pool of such entries, none of them with the key of another.
  abbrev pub IsPool : Mempool → Type 0
  IsPool mp = IsMap mp.pool × Entries IsEntry mp.pool

  append_tx-IsPool :
      (t : Transaction) (ms : MemoryService)
      → IsAccepted e t
      → IsPool ms.mempool
      → IsPool (append_tx e t ms).mempool
  unfolding append_tx append
  append_tx-IsPool t ms good h =
      let key = e.base58_encode (content t.hash) in
      (
        insert-IsMap key t ms.mempool.pool h.0,
        insert-Entries IsEntry key t ms.mempool.pool (good, refl) h.1,
      )

  remove-IsPool : (mp : Mempool) (keys : List Bytes) → IsPool mp → IsPool (remove mp keys)
  unfolding remove
  remove-IsPool mp [] h = h
  remove-IsPool mp (k ∷ keys) h =
      remove-IsPool (record mp { pool = delete k mp.pool }) keys
        (delete-IsMap k mp.pool h.0, delete-Entries IsEntry k mp.pool h.1)

  module _ (js : SyncJson) (bolt : Bolt) where
    -- The memories that a node reaches: from the new one by messages, by requests, by the removal of the
    -- transactions of a final block, and by any change of the account states.
    pub data Reached : MemoryService → Type 0 where
      at_start : Reached new_memory_service
      by_message :
          (raw : Bytes) (channels : Option (List ℕ)) (ps : P2pService) (n : Node bolt)
          → Reached n.memory
          → Reached ((handle_sync_message e js bolt raw channels ps n).memory)
      by_request :
          (net : Net) (sent : Bytes) (ps : P2pService) (db : bolt.Db) (ms : MemoryService)
          → Reached ms
          → Reached ((handle_rpc e js bolt net sent ps db ms).memory)
      by_final :
          (blk : Block) (ms : MemoryService)
          → Reached ms
          → Reached (remove_txs e (to_keys e blk.bundle) ms)
      by_states :
          (states : Map AccountState) (ms : MemoryService)
          → Reached ms
          → Reached (record ms { state_mem = states })

    Takes-IsPool :
        (ms ms' : MemoryService) → Takes e ms ms' → IsPool ms.mempool → IsPool ms'.mempool
    Takes-IsPool ms ms' (inl same) h = rw same h
    Takes-IsPool ms ms' (inr (t, good, absent, same)) h = rw same (append_tx-IsPool t ms good h)

    -- From the new memory a node reaches others by messages, by requests, by the removal of the transactions
    -- of a final block, and by changes of the account states. In every one, each transaction in the pool
    -- passed `Verify`, holds a call that passed its own verification, and stands under the base58 form of
    -- its hash, and no key occurs twice.
    pub Reached-IsPool : (ms : MemoryService) → Reached ms → IsPool ms.mempool
    unfolding remove_txs handle_tx
    Reached-IsPool ms at_start = (tt, tt)
    Reached-IsPool ms (by_message raw channels ps n r) =
        Takes-IsPool n.memory ms (handle_sync_message-Takes e js bolt raw channels ps n)
          (Reached-IsPool n.memory r)
    Reached-IsPool ms (by_request net sent ps db ms₀ r) =
        Takes-IsPool ms₀ ms (handle_rpc-Takes e js bolt net sent ps db ms₀) (Reached-IsPool ms₀ r)
    Reached-IsPool ms (by_final blk ms₀ r) =
        remove-IsPool ms₀.mempool (to_keys e blk.bundle) (Reached-IsPool ms₀ r)
    Reached-IsPool ms (by_states states ms₀ r) = Reached-IsPool ms₀ r

-- ===== src/Nodes/Sync/Agreement.antt =====
-- nodes/sync/sync_service.go, `waitForFinality` and `sync`: a node that gets a block from a peer ends
-- where the node that made it ends.
use simple_blockchain_go.Base.{
  List, Slice, Sort, [], ap, arith, false, ok, refl, true, ℕ, ◌==◌, ◌∙◌, ◌≡◌,
}
use simple_blockchain_go.Env.{Env}
use simple_blockchain_go.Executers.Executer.{after_finality, execute_now}
use simple_blockchain_go.Executers.Executer.Pool.{in_pool, push_accounts-in_pool}
use simple_blockchain_go.Executers.Producer.{check_hashes, produce}
use simple_blockchain_go.Executers.Producer.Laws.{
  Assembled, check_block_info_lem, check_hashes_lem, made-parts,
}
use simple_blockchain_go.Memory.Mempool.{Mempool}
use simple_blockchain_go.Memory.Service.{MemoryService, remove_txs}
use simple_blockchain_go.Merkle.{MerkleNode}
use simple_blockchain_go.Nodes.Node.{Node, advance, on_block_stored}
use simple_blockchain_go.Nodes.Sync.Blocks.{
  applied_of, apply_block, apply_executed, check_and_push, push_and_put, put_block, store_final,
  stored,
}
use simple_blockchain_go.Storage.Bolt.{Bolt}
use simple_blockchain_go.Types.{Block, Transaction}
use simple_blockchain_go.Wallets.{Wallet}

module _ (bolt : Bolt) (e : Env) (now : ℕ) where
  -- What a node holds, the mempool left aside.
  abbrev pub Agrees : Node bolt → Node bolt → Type 0
  Agrees n n' =
      (n.db ≡ n'.db)
      × (n.chain ≡ n'.chain)
      × (n.generator ≡ n'.generator)
      × (n.memory.state_mem ≡ n'.memory.state_mem)

  store_final-put_block :
      (blk : Block) (n : Node bolt) (mp : Mempool)
      → (blk.info.height == 0) ≡ false
      → (store_final bolt e now true blk n).1 ≡ ok tt
      → let r = put_block bolt e now blk (record n { memory = in_pool mp n.memory }) in
        (r.1 ≡ stored)
        × Agrees (store_final bolt e now true blk n).0 r.0
        × (r.0.memory.mempool ≡ mp)
  unfolding store_final put_block on_block_stored advance applied_of remove_txs
  store_final-put_block blk n mp later went = ground arith

module _ (bolt : Bolt) (e : Env) (now : ℕ) (sort_nodes : Sort MerkleNode)
    (sort_txs : Sort Transaction) where
  apply_executed-checked :
      (blk : Block) (n : Node bolt) (ms' : MemoryService) (txs : List Transaction)
      (keys : List Slice)
      → check_hashes bolt e sort_nodes n.chain
          (record blk { bundle = record { transactions = txs } })
          ms'
        ≡ ok true
      → apply_executed bolt e now sort_nodes blk n (ms', txs, ok keys)
        ≡ push_and_put bolt e now keys
            (record blk { bundle = record { transactions = txs } })
            (record n { memory = ms' })
  unfolding apply_executed check_and_push
  apply_executed-checked blk n ms' txs keys good = rw (good, check_and_push) refl

  -- A made block passes every check of `sync`, down to the push of its keys.
  apply_block-Assembled :
      (blk : Block) (n : Node bolt) (ms' : MemoryService) (txs : List Transaction)
      (keys : List Slice)
      → (blk.info.height == 0) ≡ false
      → Assembled bolt e sort_nodes sort_txs n.chain ms' txs blk
      → execute_now bolt e n.generator n.db txs [] n.memory ≡ (ms', txs, ok keys)
      → apply_block bolt e now sort_nodes blk n
        ≡ push_and_put bolt e now keys blk (record n { memory = ms' })
  unfolding apply_block
  apply_block-Assembled blk n ms' txs keys later a run =
      rw (later, check_block_info_lem bolt e sort_nodes sort_txs n.chain ms' txs blk a)
        (rw (a.of_txs) (
          rw run (
            apply_executed-checked blk n ms' txs keys
              (check_hashes_lem bolt e sort_nodes sort_txs n.chain ms' txs blk a))))

  push_and_put-done :
      (keys : List Slice) (blk : Block) (n : Node bolt) (ms' : MemoryService) (db' : bolt.Db)
      (mp : Mempool)
      → after_finality bolt e true keys n.db ms' ≡ (db', ms', ok tt)
      → push_and_put bolt e now keys blk (record n { memory = in_pool mp ms' })
        ≡ put_block bolt e now blk (record n { db = db'; memory = in_pool mp ms' })
  unfolding push_and_put after_finality
  push_and_put-done keys blk n ms' db' mp pushed =
      ground (arith, ap (λ f. f n.db) (push_accounts-in_pool bolt e n.db mp keys ms'))

  -- A node makes a block that is not the first of its chain, pushes the accounts without an error once
  -- the verdict is in, and stores the block without an error. Then `sync`, given that block on a node with
  -- the same database, account states, position and generator as the maker had, and with any mempool,
  -- stores it, and ends with the database, the position, the generator and the account states of the maker,
  -- and with its own mempool.
  pub produce-apply_block :
      (n : Node bolt) (w : Wallet) (at : ℕ) (ms' : MemoryService) (blk : Block) (keys : List Slice)
      (db' : bolt.Db) (mp : Mempool)
      → produce bolt e sort_nodes sort_txs n.generator n.db n.chain w at n.memory
        ≡ (ms', ok (blk, keys))
      → (blk.info.height == 0) ≡ false
      → after_finality bolt e true keys n.db ms' ≡ (db', ms', ok tt)
      → (store_final bolt e now true blk (record n { db = db'; memory = ms' })).1 ≡ ok tt
      → let synced_node = record n { memory = record (n.memory) { mempool = mp } } in
        let r = apply_block bolt e now sort_nodes blk synced_node in
        (r.1 ≡ stored)
        × Agrees bolt e now
            (store_final bolt e now true blk (record n { db = db'; memory = ms' })).0
            r.0
        × (r.0.memory.mempool ≡ mp)
  produce-apply_block n w at ms' blk keys db' mp made later pushed went =
      let (txs, a, run) =
        made-parts bolt e sort_nodes sort_txs n.generator n.db n.chain w at n.memory ms' blk keys mp
          made in
      rw
        (apply_block-Assembled blk (record n { memory = in_pool mp n.memory }) (in_pool mp ms') txs
            keys later a run
          ∙ push_and_put-done keys blk n ms' db' mp pushed)
        (store_final-put_block bolt e now blk (record n { db = db'; memory = ms' }) mp later went)

-- ===== src/Executers/Producer/Laws.antt =====
-- executers/block_producer.go: the blocks that NewBlock makes and those that Verify accepts.
use mathlib.Core.Path.{subst}
use simple_blockchain_go.Base.{
  Bytes, List, Outcome, Outcome-cases, Slice, Sort, [], ap, arith, bytes_eq_self, content, inl, inr,
  ok, some, true, ℕ, ◌++◌, ◌>>=◌, ◌∙◌, ◌≡◌,
}
use simple_blockchain_go.Blockchain.{Blockchain}
use simple_blockchain_go.Blocks.{hash_block, new_block}
use simple_blockchain_go.Env.{Env}
use simple_blockchain_go.Executers.Executer.{execute_now}
use simple_blockchain_go.Executers.Executer.Laws.{execute_now_again}
use simple_blockchain_go.Executers.Executer.Pool.{execute_now-in_pool, in_pool}
use simple_blockchain_go.Executers.Producer.{
  assemble, check_block_hash, check_block_info, check_hashes, check_state_hash, produce, verify,
}
use simple_blockchain_go.Memory.Mempool.{Mempool, get_txs_for_block}
use simple_blockchain_go.Memory.Service.{MemoryService, get_state_hash}
use simple_blockchain_go.Merkle.{MerkleNode}
use simple_blockchain_go.Storage.Bolt.{Bolt}
use simple_blockchain_go.Txs.{hash_transactions}
use simple_blockchain_go.Types.{Block, Transaction}
use simple_blockchain_go.Wallets.{Wallet, sign_raw}

module _ (bolt : Bolt) (e : Env) (sort_nodes : Sort MerkleNode) (sort_txs : Sort Transaction) where
  -- What a block that `assemble` makes holds.
  pub record Assembled (bc : Blockchain) (ms : MemoryService) (txs : List Transaction) (blk : Block)
      : Type 0 where
    pub state : Bytes
    pub tx_hash : Bytes
    pub has_state : get_state_hash e sort_nodes ms ≡ ok state
    pub has_tx_hash : hash_transactions e (record { transactions = txs }) ≡ ok tx_hash
    pub at_height : blk.info.height ≡ bc.next_height
    pub after : blk.previous_block_hash ≡ bc.previous_block_hash
    pub of_txs : blk.bundle ≡ record { transactions = txs }
    pub of_state : blk.state_hash ≡ some state
    pub hashed :
        blk.info.hash ≡ some (e.sum256 (tx_hash ++ (content bc.previous_block_hash ++ state)))

  assemble_lem :
      (bc : Blockchain) (w : Wallet) (now : ℕ) (ms : MemoryService) (txs : List Transaction)
      (blk : Block)
      → assemble bolt e sort_nodes bc w now ms txs ≡ ok blk
      → Assembled bc ms txs blk
  unfolding assemble hash_block new_block sign_raw
  assemble_lem bc w now ms txs blk h = elim (Outcome-cases (get_state_hash e sort_nodes ms)) [
    | inl (state, s) ↦ elim (Outcome-cases (hash_transactions e (record { transactions = txs }))) [
      | inl (th, t) ↦ record {
        state = state;
        tx_hash = th;
        has_state = s;
        has_tx_hash = ground arith;
        at_height = ground arith;
        after = ground arith;
        of_txs = ground arith;
        of_state = ground arith;
        hashed = ground arith;
      }
      | inr bad_end ↦ absurd (ground arith)
    ]
    | inr bad_end ↦ absurd (ground arith)
  ]

  pub check_block_info_lem :
      (bc : Blockchain) (ms : MemoryService) (txs : List Transaction) (blk : Block)
      → Assembled bc ms txs blk
      → check_block_info bc blk ≡ true
  unfolding check_block_info
  check_block_info_lem bc ms txs blk a =
      rw (a.at_height, a.after) (ground (arith, bytes_eq_self (content bc.previous_block_hash)))

  pub check_hashes_lem :
      (bc : Blockchain) (ms : MemoryService) (txs : List Transaction) (blk : Block)
      → Assembled bc ms txs blk
      → check_hashes bolt e sort_nodes bc (record blk { bundle = record { transactions = txs } }) ms
        ≡ ok true
  unfolding check_hashes check_state_hash check_block_hash
  check_hashes_lem bc ms txs blk a =
      rw (a.has_state, ◌>>=◌)
        (rw (a.of_state, bytes_eq_self a.state)
          (rw (a.has_tx_hash, check_block_hash, ◌>>=◌) (rw a.hashed (ap ok (bytes_eq_self _)))))

  verify-assemble :
      (generator : Slice) (db : bolt.Db) (bc : Blockchain) (ms ms' : MemoryService)
      (txs : List Transaction) (blk : Block) (keys : List Slice)
      → Assembled bc ms' txs blk
      → execute_now bolt e generator db txs [] ms ≡ (ms', txs, ok keys)
      → verify bolt e sort_nodes generator db bc blk ms
        ≡ (ms', record { verdict = ok true; finality = some keys })
  unfolding verify
  verify-assemble generator db bc ms ms' txs blk keys a run =
      rw (check_block_info_lem bc ms' txs blk a, verify)
        (rw (a.of_txs) (
          rw run (
            ap (λ v. (ms', record { verdict = v; finality = some keys }))
              (check_hashes_lem bc ms' txs blk a))))

  produce_parts :
      (generator : Slice) (db : bolt.Db) (bc : Blockchain) (w : Wallet) (now : ℕ)
      (ms ms' : MemoryService) (blk : Block) (keys : List Slice)
      → produce bolt e sort_nodes sort_txs generator db bc w now ms ≡ (ms', ok (blk, keys))
      → let run = execute_now bolt e generator db (get_txs_for_block sort_txs ms.mempool) [] ms in
        (run.0 ≡ ms')
        × (run.2 ≡ ok keys)
        × (assemble bolt e sort_nodes bc w now run.0 run.1 ≡ ok blk)
  unfolding produce
  produce_parts generator db bc w now ms ms' blk keys h = ground arith

  -- A made block does not say which mempool its maker kept.
  Assembled-in_pool :
      (mp : Mempool) (bc : Blockchain) (ms : MemoryService) (txs : List Transaction) (blk : Block)
      → Assembled bc ms txs blk
      → Assembled bc (in_pool mp ms) txs blk
  unfolding get_state_hash
  Assembled-in_pool mp bc ms txs blk a = record {
    state = a.state;
    tx_hash = a.tx_hash;
    has_state = a.has_state;
    has_tx_hash = a.has_tx_hash;
    at_height = a.at_height;
    after = a.after;
    of_txs = a.of_txs;
    of_state = a.of_state;
    hashed = a.hashed;
  }

  -- What a made block holds, and what its transactions, as executed, give when they are run again on a
  -- node with the same states and any mempool.
  pub made-parts :
      (generator : Slice) (db : bolt.Db) (bc : Blockchain) (w : Wallet) (now : ℕ)
      (ms ms' : MemoryService) (blk : Block) (keys : List Slice) (mp : Mempool)
      → produce bolt e sort_nodes sort_txs generator db bc w now ms ≡ (ms', ok (blk, keys))
      → (txs : List Transaction) × Assembled bc (in_pool mp ms') txs blk
        × (execute_now bolt e generator db txs [] (in_pool mp ms) ≡ (in_pool mp ms', txs, ok keys))
  made-parts generator db bc w now ms ms' blk keys mp h =
      let txs = get_txs_for_block sort_txs ms.mempool in
      let run = execute_now bolt e generator db txs [] ms in
      let (memory, result, made) = produce_parts generator db bc w now ms ms' blk keys h in
      (
        run.1,
        Assembled-in_pool mp bc ms' run.1 blk (
            subst (λ m. Assembled bc m run.1 blk) memory
              (assemble_lem bc w now run.0 run.1 blk made)),
        execute_now-in_pool bolt e db mp generator run.1 [] ms
            ∙ ap
                (λ (r : MemoryService × List Transaction × Outcome (List Slice)).
                  (in_pool mp r.0, r.1, r.2))
                (execute_now_again bolt e generator db txs [] ms result
                  ∙ (λ i. (memory i, run.1, result i))),
      )

  -- A block from `NewBlock` is accepted by `Verify` on a node with the same chain position, account
  -- states, database and generator, whatever its mempool. The verification leaves the account states of the
  -- maker and the mempool of the verifier, and awaits finality for the same keys.
  pub produce-verify :
      (generator : Slice) (db : bolt.Db) (bc : Blockchain) (w : Wallet) (now : ℕ)
      (ms ms' : MemoryService) (blk : Block) (keys : List Slice) (mp : Mempool)
      → produce bolt e sort_nodes sort_txs generator db bc w now ms ≡ (ms', ok (blk, keys))
      → verify bolt e sort_nodes generator db bc blk (record ms { mempool = mp })
        ≡ (record ms' { mempool = mp }, record { verdict = ok true; finality = some keys })
  produce-verify generator db bc w now ms ms' blk keys mp h =
      let (txs, a, run) = made-parts generator db bc w now ms ms' blk keys mp h in
      verify-assemble generator db bc (in_pool mp ms) (in_pool mp ms') txs blk keys a run

-- ===== src/Executers/Producer.antt =====
-- executers/block_producer.go. A finality channel is the list of the executed keys that its reader,
-- `waitForFinality`, holds.
pub mod Laws
use simple_blockchain_go.Accounts.{add}
use simple_blockchain_go.Base.{
  Bool, Bytes, List, Option, Outcome, Slice, Sort, [], bytes_eq, content, equal, err, false,
  if◌then◌else◌, none, ok, panic, some, ℕ, ◌++◌, ◌==◌, ◌>>=◌,
}
use simple_blockchain_go.Blockchain.{Blockchain}
use simple_blockchain_go.Blocks.{hash_block, new_block}
use simple_blockchain_go.Env.{Env}
use simple_blockchain_go.Executers.Executer.{execute_now}
use simple_blockchain_go.Memory.Mempool.{get_txs_for_block}
use simple_blockchain_go.Memory.Service.{MemoryService, get_state_hash}
use simple_blockchain_go.Merkle.{MerkleNode}
use simple_blockchain_go.Storage.Bolt.{Bolt}
use simple_blockchain_go.Txs.{hash_transactions}
use simple_blockchain_go.Types.{Block, Transaction}
use simple_blockchain_go.Wallets.{Wallet, sign_raw}

-- What `Verify` returns: the verdict or the error, and the finality channel, nil or not.
pub record Verified : Type 0 where
  pub verdict : Outcome Bool
  pub finality : Option (List Slice)

-- `CheckBlockInfo`
unfoldable pub check_block_info : Blockchain → Block → Bool
check_block_info bc blk =
    if blk.info.height == bc.next_height
    then equal blk.previous_block_hash bc.previous_block_hash
    else false

module _ (bolt : Bolt) (e : Env) (sort_nodes : Sort MerkleNode) where
  open bolt use {Db}

  -- `CheckStateHash`
  unfoldable pub check_state_hash : MemoryService → Block → Outcome (Bool × Bytes)
  check_state_hash ms blk = do
    state_hash ← get_state_hash e sort_nodes ms
    ok (equal (some state_hash) blk.state_hash, state_hash)

  -- `CheckBlockHash`
  unfoldable pub check_block_hash : Blockchain → Block → Bytes → Outcome Bool
  check_block_hash bc blk state_hash = do
    tx_hash ← hash_transactions e blk.bundle
    let add = tx_hash ++ (content bc.previous_block_hash ++ state_hash)
    ok (bytes_eq (content blk.info.hash) (e.sum256 add))

  -- The end of `NewBlock`, after the execution.
  unfoldable pub assemble :
      Blockchain → Wallet → ℕ → MemoryService → List Transaction → Outcome Block
  assemble bc w now ms txs = do
    state ← get_state_hash e sort_nodes ms
    blk ← hash_block e (
        new_block e bc.next_height w.public_key (record { transactions = txs })
          bc.previous_block_hash (some state) now)
    ok (record blk { info = record (blk.info) { signature = sign_raw e w blk.info.hash } })

  -- `NewBlock`: the memory, and the block with the keys that await finality.
  unfoldable pub produce :
      Sort Transaction
      → Slice
      → Db
      → Blockchain
      → Wallet
      → ℕ
      → MemoryService
      → MemoryService × Outcome (Block × List Slice)
  produce sort_txs generator db bc w now ms =
      let run = execute_now bolt e generator db (get_txs_for_block sort_txs ms.mempool) [] ms in
      (run.0, (do keys ← run.2; blk ← assemble bc w now run.0 run.1; ok (blk, keys)))

  -- The checks of `Verify` after the execution.
  unfoldable pub check_hashes : Blockchain → Block → MemoryService → Outcome Bool
  check_hashes bc blk ms = do
    state ← check_state_hash ms blk
    if state.0 then check_block_hash bc blk state.1 else ok false

  -- `Verify`: an execution that fails counts as a rejection.
  unfoldable pub verify_executed :
      Blockchain
      → Block
      → MemoryService × List Transaction × Outcome (List Slice)
      → MemoryService × Verified
  verify_executed bc blk (ms, txs, ok keys) = (
    ms,
    record {
      verdict = check_hashes bc (record blk { bundle = record { transactions = txs } }) ms;
      finality = some keys;
    },
  )
  verify_executed bc blk (ms, txs, err x) = (ms, record { verdict = ok false; finality = none })
  verify_executed bc blk (ms, txs, panic) = (ms, record { verdict = panic; finality = none })

  unfoldable pub verify : Slice → Db → Blockchain → Block → MemoryService → MemoryService × Verified
  unfolding verify_executed
  verify generator db bc blk ms =
      if check_block_info bc blk
      then verify_executed bc blk (execute_now bolt e generator db blk.bundle.transactions [] ms)
      else (ms, record { verdict = ok false; finality = none })

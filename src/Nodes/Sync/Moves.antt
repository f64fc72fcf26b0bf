-- ===== src/Nodes/Sync/Moves.antt =====
-- nodes/sync/sync_service.go and nodes/node.go: a block that is stored moves the chain on.
use simple_blockchain_go.Storage.Service.{put as put_in_storage}
use simple_blockchain_go.Base.{
  List, Outcome, Slice, Sort, [], arith, err, ok, panic, refl, some, ℕ, ◌%◌, ◌+◌, ◌≡◌,
}
use simple_blockchain_go.Blockchain.{Blockchain, increment, increment_height, increment_slot}
use simple_blockchain_go.Common.{u64_mod}
use simple_blockchain_go.Env.{Env}
use simple_blockchain_go.Executers.Executer.{execute_now}
use simple_blockchain_go.Executers.Faucet.{faucet_init}
use simple_blockchain_go.Memory.Service.{MemoryService}
use simple_blockchain_go.Merkle.{MerkleNode}
use simple_blockchain_go.Nodes.Node.{Node, advance, fetch_generator, on_block_stored}
use simple_blockchain_go.Nodes.Sync.Blocks.{
  Applied, applied_of, apply_block, apply_executed, block_content, check_and_push, push_and_put,
  put_block, stored,
}
use simple_blockchain_go.Storage.Bolt.{Bolt}
use simple_blockchain_go.Storage.Service.{blocks, push_accounts}
use simple_blockchain_go.Types.{Block, Transaction}

module _ (bolt : Bolt) (e : Env) (now : ℕ) where
  fetch_generator-chain :
      (blk : Block) (n : Node bolt)
      → (fetch_generator bolt e now blk n).1 ≡ ok tt
      → (fetch_generator bolt e now blk n).0.chain ≡ increment blk.info.hash n.chain
  unfolding fetch_generator advance
  fetch_generator-chain blk n h = ground arith

  on_block_stored-chain :
      (blk : Block) (n : Node bolt)
      → (on_block_stored bolt e now blk n).1 ≡ ok tt
      → (on_block_stored bolt e now blk n).0.chain ≡ increment blk.info.hash n.chain
  unfolding on_block_stored advance
  on_block_stored-chain blk n h = ground (
    arith,
    fetch_generator-chain blk (record n {
      db = (faucet_init bolt e now n.generator n.db).0;
      generator = (faucet_init bolt e now n.generator n.db).1;
    }),
  )

  applied_of-stored :
      (r : Node bolt × Outcome (Unit {0}))
      → (applied_of bolt e now r).1 ≡ stored
      → (r.1 ≡ ok tt) × ((applied_of bolt e now r).0 ≡ r.0)
  unfolding applied_of
  applied_of-stored (n, ok u) h = (refl, refl)
  applied_of-stored (n, err x) h = cc
  applied_of-stored (n, panic) h = cc

  -- A block that is stored moves the chain on.
  abbrev pub MovesOn : Block → Node bolt → Node bolt × Applied → Type 0
  MovesOn blk n r = r.1 ≡ stored → r.0.chain ≡ increment blk.info.hash n.chain

  put_block-chain : (blk : Block) (n : Node bolt) → MovesOn blk n (put_block bolt e now blk n)
  unfolding put_block
  put_block-chain blk n h =
      let put_there = record n {
        db = (put_in_storage bolt blocks (some (block_content e blk)) n.db).0;
      } in
      ground (
        arith,
        applied_of-stored (on_block_stored bolt e now blk put_there),
        on_block_stored-chain blk put_there,
      )

  push_and_put-chain :
      (keys : List Slice) (blk : Block) (n : Node bolt)
      → MovesOn blk n (push_and_put bolt e now keys blk n)
  unfolding push_and_put
  push_and_put-chain keys blk n h =
      ground
        (arith, put_block-chain blk (record n { db = (push_accounts bolt e keys n.memory n.db).0 }))

  check_and_push-chain :
      (sort_nodes : Sort MerkleNode) (keys : List Slice) (blk : Block) (n : Node bolt)
      → MovesOn blk n (check_and_push bolt e now sort_nodes keys blk n)
  unfolding check_and_push
  check_and_push-chain sort_nodes keys blk n h = ground (arith, push_and_put-chain keys blk n)

  apply_executed-chain :
      (sort_nodes : Sort MerkleNode) (blk : Block) (n : Node bolt)
      (run : MemoryService × List Transaction × Outcome (List Slice))
      → MovesOn blk n (apply_executed bolt e now sort_nodes blk n run)
  unfolding apply_executed
  apply_executed-chain sort_nodes blk n (ms, txs, ok keys) h =
      check_and_push-chain sort_nodes keys (record blk { bundle = record { transactions = txs } })
        (record n { memory = ms }) h
  apply_executed-chain sort_nodes blk n (ms, txs, err x) h = cc
  apply_executed-chain sort_nodes blk n (ms, txs, panic) h = cc

  pub apply_block-chain :
      (sort_nodes : Sort MerkleNode) (blk : Block) (n : Node bolt)
      → MovesOn blk n (apply_block bolt e now sort_nodes blk n)
  unfolding apply_block
  apply_block-chain sort_nodes blk n h = ground (
    arith,
    put_block-chain blk n,
    apply_executed-chain sort_nodes blk n
        (execute_now bolt e n.generator n.db blk.bundle.transactions [] n.memory),
  )

pub increment-next_height :
    (hash : Slice) (bc : Blockchain)
    → (increment hash bc).next_height ≡ (bc.next_height + 1) % u64_mod
unfolding increment increment_slot increment_height
increment-next_height hash bc = ground arith

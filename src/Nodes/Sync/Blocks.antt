-- ===== src/Nodes/Sync/Blocks.antt =====
-- nodes/sync/sync_service.go: a block that is final, or that another node sent, is stored.
use simple_blockchain_go.Storage.Service.{put as put_in_storage}
use simple_blockchain_go.Base.{
  Bool, Error, List, Outcome, Slice, Sort, [], err, false, if◌then◌else◌, ok, panic, some, true, ℕ,
  ◌==◌,
}
use simple_blockchain_go.Blocks.{block_index, block_key}
use simple_blockchain_go.Env.{Env}
use simple_blockchain_go.Executers.Executer.{execute_now}
use simple_blockchain_go.Executers.Producer.{check_block_info, check_hashes}
use simple_blockchain_go.Memory.Service.{MemoryService, remove_txs}
use simple_blockchain_go.Merkle.{MerkleNode}
use simple_blockchain_go.Nodes.Node.{Node, on_block_stored}
use simple_blockchain_go.Storage.Bolt.{Bolt}
use simple_blockchain_go.Storage.Db.{DbContent}
use simple_blockchain_go.Storage.Service.{blocks, push_accounts}
use simple_blockchain_go.Txs.{to_keys}
use simple_blockchain_go.Types.{Block, Transaction}

-- How the treatment of one block in `sync` ends; `crashed` is a call that panics or never returns.
pub data Applied : Type 0 where
  stored : Applied
  refused : Applied
  stopped_by : Error → Applied
  crashed : Applied

module _ (e : Env) where
  -- What the database stores of a block: `ToBytes`, `GetKey` and `GetIndex`.
  unfoldable pub block_content : Block → DbContent
  block_content blk = record {
    to_bytes = e.block_json.marshal blk;
    key = block_key e blk;
    index = block_index e blk;
  }

module _ (bolt : Bolt) (e : Env) (now : ℕ) where
  -- `waitForFinality`, once the verdict is in.
  unfoldable pub store_final : Bool → Block → Node bolt → Node bolt × Outcome (Unit {0})
  store_final false blk n = (n, ok tt)
  store_final true blk n =
      let (db, r) = put_in_storage bolt blocks (some (block_content e blk)) n.db in
      elim r [
        | ok u ↦
            on_block_stored bolt e now blk
              (record n { db = db; memory = remove_txs e (to_keys e blk.bundle) n.memory })
        | err x ↦ (record n { db = db }, err x)
        | panic ↦ (record n { db = db }, panic)
      ]

  unfoldable pub applied_of : Node bolt × Outcome (Unit {0}) → Node bolt × Applied
  applied_of (n, ok u) = (n, stored)
  applied_of (n, err x) = (n, stopped_by x)
  applied_of (n, panic) = (n, crashed)

  -- The end of a turn of `sync`: the block is put, then the event is raised.
  unfoldable pub put_block : Block → Node bolt → Node bolt × Applied
  unfolding applied_of
  put_block blk n =
      let (db, r) = put_in_storage bolt blocks (some (block_content e blk)) n.db in
      elim r [
        | ok u ↦ applied_of (on_block_stored bolt e now blk (record n { db = db }))
        | err x ↦ (record n { db = db }, stopped_by x)
        | panic ↦ (record n { db = db }, crashed)
      ]

  -- The accounts that were executed are pushed before the block.
  unfoldable pub push_and_put : List Slice → Block → Node bolt → Node bolt × Applied
  unfolding put_block
  push_and_put keys blk n =
      let (db, r) = push_accounts bolt e keys n.memory n.db in
      elim r [
        | ok u ↦ put_block blk (record n { db = db })
        | err x ↦ (record n { db = db }, stopped_by x)
        | panic ↦ (record n { db = db }, crashed)
      ]

  module _ (sort_nodes : Sort MerkleNode) where
    -- The checks of the two hashes, after the execution.
    unfoldable pub check_and_push : List Slice → Block → Node bolt → Node bolt × Applied
    unfolding push_and_put
    check_and_push keys blk n = elim (check_hashes bolt e sort_nodes n.chain blk n.memory) [
      | ok good ↦ if good then push_and_put keys blk n else (n, refused)
      | err x ↦ (n, stopped_by x)
      | panic ↦ (n, crashed)
    ]

    -- The execution of the block's transactions; the block holds them as they are afterwards.
    unfoldable pub apply_executed :
        Block
        → Node bolt
        → MemoryService × List Transaction × Outcome (List Slice)
        → Node bolt × Applied
    unfolding check_and_push
    apply_executed blk n (ms, txs, ok keys) =
        check_and_push keys (record blk { bundle = record { transactions = txs } })
          (record n { memory = ms })
    apply_executed blk n (ms, txs, err x) = (record n { memory = ms }, stopped_by x)
    apply_executed blk n (ms, txs, panic) = (record n { memory = ms }, crashed)

    -- One turn of `sync` on a block that arrived; the first block of a chain is put unchecked.
    unfoldable pub apply_block : Block → Node bolt → Node bolt × Applied
    unfolding apply_executed put_block
    apply_block blk n =
        if blk.info.height == 0
        then put_block blk n
        else if check_block_info n.chain blk
        then apply_executed blk n
            (execute_now bolt e n.generator n.db blk.bundle.transactions [] n.memory)
        else (n, refused)

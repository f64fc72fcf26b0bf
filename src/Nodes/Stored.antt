-- ===== src/Nodes/Stored.antt =====
-- storage/storage_service.go under nodes/: a block that was put is there.
use simple_blockchain_go.Storage.Service.{get as get_from_storage, put as put_in_storage}
use simple_blockchain_go.Base.{Bytes, len, length, none, ok, some, ◌≡◌, ◌≤◌}
use simple_blockchain_go.Blocks.{block_index, block_key}
use simple_blockchain_go.Common.Hex.{length-to_hex, to_hex}
use simple_blockchain_go.Env.{Env}
use simple_blockchain_go.Nodes.Sync.Blocks.{block_content}
use simple_blockchain_go.P2p.Laws.{others}
use simple_blockchain_go.Storage.Bolt.{Bolt, IsBolt}
use simple_blockchain_go.Storage.Db.Laws.{put_db_lem}
use simple_blockchain_go.Storage.Service.{blocks, blocks_bucket, by_index, latest}
use simple_blockchain_go.Types.{Block}

module _ (bolt : Bolt) (e : Env) where
  pub put_block_lem :
      IsBolt bolt
      → (blk : Block) (enc : Bytes) (db : bolt.Db) → e.block_json.marshal blk ≡ some enc
      → length enc ≤ 2147483646
      → len blk.info.hash ≡ 32
      → let (db', r) = put_in_storage bolt blocks (some (block_content e blk)) db in
        (r ≡ ok tt)
        × (get_from_storage bolt blocks by_index (some (to_hex 8 blk.info.height)) db' ≡ some enc)
        × (get_from_storage bolt blocks latest none db' ≡ some enc)
  unfolding put_in_storage get_from_storage block_content block_key block_index
  put_block_lem laws blk enc db made small sized =
      let (went, keyed, found, newest, k, i, others, elsewhere) =
        put_db_lem bolt laws blocks_bucket (block_content e blk) enc db made small sized
          (length-to_hex 8 blk.info.height) in
      (went, found, newest)

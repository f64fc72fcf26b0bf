-- ===== src/Blocks.antt =====
-- blocks/block.go.
pub mod Laws
use simple_blockchain_go.Accounts.{add}
use simple_blockchain_go.Base.{
  Bool, Outcome, Slice, and_then, content, len, ltb, none, not_nil, ok, some, ℕ, ◌&&◌, ◌++◌, ◌==◌,
  ◌>>=◌,
}
use simple_blockchain_go.Common.{hash_size, public_key_size}
use simple_blockchain_go.Common.Hex.{to_hex}
use simple_blockchain_go.Env.{Env, verify_signature}
use simple_blockchain_go.Txs.{hash_transactions, verify_bundle}
use simple_blockchain_go.Types.{Block, BlockInfo, TxBundle, is_positive}

module _ (e : Env) where
  -- `NewBlock`, at the clock's second `now`.
  unfoldable pub new_block : ℕ → Slice → TxBundle → Slice → Slice → ℕ → Block
  new_block height pub_key transactions prev_hash state_hash now = record {
    info = record {
      height = height;
      hash = none;
      signature = none;
      public_key = pub_key;
      timestamp = now;
    };
    bundle = transactions;
    previous_block_hash = prev_hash;
    state_hash = state_hash;
  }

  -- `HashBlock`
  unfoldable pub hash_block : Block → Outcome Block
  hash_block b = do
    tx_hash ← hash_transactions e b.bundle
    let add = tx_hash ++ (content b.previous_block_hash ++ content b.state_hash)
    ok (record b { info = record (b.info) { hash = some (e.sum256 add) } })

  -- `BlockInfo.Verify`
  unfoldable pub verify_info : BlockInfo → Outcome Bool
  unfolding verify_signature
  verify_info bi =
      and_then
        (not_nil bi.public_key
          && len bi.public_key == public_key_size
          && not_nil bi.hash
          && len bi.hash == hash_size
          && not_nil bi.signature
          && ltb 0 (len bi.signature)
          && is_positive bi.timestamp)
        (verify_signature e bi.public_key bi.hash bi.signature)

  -- `Block.Verify`
  unfoldable pub verify_block : Block → Outcome Bool
  verify_block b = do
    good ← verify_bundle e b.bundle
    and_then
        (good
          && not_nil b.state_hash
          && len b.state_hash == hash_size
          && not_nil b.previous_block_hash
          && len b.previous_block_hash == hash_size)
        (verify_info b.info)

  -- `GetKey`
  unfoldable pub block_key : Block → Slice
  block_key b = b.info.hash

  -- `GetIndex`
  unfoldable pub block_index : Block → Slice
  unfolding to_hex
  block_index b = some (to_hex 8 b.info.height)

-- ===== src/Blocks/Laws.antt =====
-- blocks/block.go: what a verified block is.
use simple_blockchain_go.Base.{All, Returns, [], arith, content, len, ok, true, ◌≡◌, ◌≢◌}
use simple_blockchain_go.Blocks.{verify_block, verify_info}
use simple_blockchain_go.Common.{hash_size, public_key_size}
use simple_blockchain_go.Env.{Env}
use simple_blockchain_go.Txs.{verify_tx}
use simple_blockchain_go.Txs.Laws.{verify_bundle_lem}
use simple_blockchain_go.Types.{Block, BlockInfo}

module _ (e : Env) where
  verify_info_lem :
      (bi : BlockInfo)
      → Returns (verify_info e bi)
        × (verify_info e bi ≡ ok true
            → (len bi.public_key ≡ public_key_size)
              × (len bi.hash ≡ hash_size)
              × (e.ed25519_verify (content bi.public_key) (content bi.hash) (content bi.signature)
                  ≡ true))
  unfolding verify_info
  verify_info_lem bi = ground arith

  -- `Block.Verify` gives a verdict on every block, it never panics. A block that it accepts has at least one
  -- transaction, each accepted by `Transaction.Verify`, hashes of 32 bytes for state, predecessor and
  -- block, and a signature of its hash by the key that it names.
  pub verify_block_lem :
      (b : Block)
      → Returns (verify_block e b)
        × (verify_block e b ≡ ok true
            → (b.bundle.transactions ≢ [])
              × All (λ tx. verify_tx e tx ≡ ok true) b.bundle.transactions
              × (len b.state_hash ≡ hash_size)
              × (len b.previous_block_hash ≡ hash_size)
              × (len b.info.hash ≡ hash_size)
              × (e.ed25519_verify
                    (content b.info.public_key)
                    (content b.info.hash)
                    (content b.info.signature)
                  ≡ true))
  unfolding verify_block
  verify_block_lem b =
      let (r, exact) = verify_bundle_lem e b.bundle in
      let (r', info) = verify_info_lem b.info in ground arith

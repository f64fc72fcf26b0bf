-- ===== src/Nodes/Restart.antt =====
-- nodes/node.go: a node that starts from its database goes on where it stopped.
use simple_blockchain_go.Storage.Service.{get as get_from_storage, put as put_in_storage}
use simple_blockchain_go.Base.{
  Bytes, ap, arith, false, len, length, none, ok, some, sym, ℕ, ◌%◌, ◌+◌, ◌<◌, ◌==◌, ◌∙◌, ◌≡◌, ◌≤◌,
}
use simple_blockchain_go.Blockchain.{Blockchain, increment, init}
use simple_blockchain_go.Blockchain.Laws.{IsAligned, increment-init}
use simple_blockchain_go.Common.{u32_mod, u64_mod}
use simple_blockchain_go.Env.{Env, IsFaithful}
use simple_blockchain_go.Nodes.Node.{Node, advance, init_chain, on_block_stored, resume}
use simple_blockchain_go.Nodes.Stored.{put_block_lem}
use simple_blockchain_go.Nodes.Sync.Blocks.{applied_of, block_content, put_block, stored}
use simple_blockchain_go.Storage.Bolt.{Bolt, IsBolt}
use simple_blockchain_go.Storage.Service.{blocks, latest}
use simple_blockchain_go.Types.{Block}

module _ (bolt : Bolt) (e : Env) (now : ℕ) where
  resume-chain :
      (n : Node bolt) (bc : Blockchain)
      → init_chain bolt e now (get_from_storage bolt blocks latest none n.db) n.chain ≡ ok bc
      → (resume bolt e now n).0.chain ≡ bc
  unfolding resume
  resume-chain n bc h = ground arith

  put_block-later :
      (blk : Block) (n : Node bolt)
      → (blk.info.height == 0) ≡ false
      → let (db, r) = put_in_storage bolt blocks (some (block_content e blk)) n.db in
        r ≡ ok tt
        → put_block bolt e now blk n ≡ (advance bolt e now blk (record n { db = db }), stored)
  unfolding put_block on_block_stored applied_of
  put_block-later blk n later h = ground arith

  init_chain-block :
      (raw : Bytes) (blk : Block) (bc : Blockchain)
      → e.block_json.unmarshal raw ≡ some blk
      → init_chain bolt e now (some raw) bc
        ≡ ok (init ((blk.info.height + 1) % u64_mod) blk.info.hash bc)
  unfolding init_chain
  init_chain-block raw blk bc read = ground arith

  -- A block with a hash of 32 bytes, an encoding within the database's bound, and the height of a node's
  -- position, which is aligned, not the start of the chain, and below the last height of 32 bits, is stored
  -- by `sync`. A node that starts on that database, and reads the block back as it was marshalled, has then
  -- the position of the node that stored it: height, epoch, slot and previous hash.
  pub resume-put_block :
      IsBolt bolt
      → IsFaithful e.block_json
      → (blk : Block) (enc : Bytes) (n again : Node bolt) → e.block_json.marshal blk ≡ some enc
      → length enc ≤ 2147483646
      → len blk.info.hash ≡ 32
      → IsAligned n.chain
      → blk.info.height ≡ n.chain.next_height
      → 1 ≤ blk.info.height
      → blk.info.height + 1 < u32_mod
      → again.db ≡ (put_block bolt e now blk n).0.db
      → ((put_block bolt e now blk n).1 ≡ stored)
        × ((resume bolt e now again).0.chain ≡ (put_block bolt e now blk n).0.chain)
  unfolding advance
  resume-put_block laws faithful blk enc n again made small sized aligned at later low same =
      let (went, found, newest) = put_block_lem bolt e laws blk enc n.db made small sized in
      let put_is = put_block-later blk n (ground arith) went in
      let read : get_from_storage bolt blocks latest none again.db ≡ some enc =
        ap (λ d. get_from_storage bolt blocks latest none d) (same ∙ ap (λ r. r.0.db) put_is)
        ∙ newest in
      let position = increment-init n.chain again.chain blk.info.hash aligned (omega (arith, at)) in
      let next : (blk.info.height + 1) % u64_mod ≡ n.chain.next_height + 1 = ground arith in
      let resumed = resume-chain again (increment blk.info.hash n.chain) (
        ap (λ s. init_chain bolt e now s again.chain) read
        ∙ init_chain-block enc blk again.chain (faithful blk enc made)
        ∙ rw next (ap ok (sym (position.1)))) in
      (ap (λ r. r.1) put_is, resumed ∙ sym (ap (λ r. r.0.chain) put_is))

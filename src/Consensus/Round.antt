-- ===== src/Consensus/Round.antt =====
-- consensus/: one vote and the finality that answers it, between a validator and the aggregator.
use simple_blockchain_go.Base.{
  Bool, Bytes, Slice, Sort, [], ap, arith, bytes_eq, contains_func, content, equal, false, refl,
  some, true, ◌++◌, ◌∙◌, ◌∷◌, ◌≡◌,
}
use simple_blockchain_go.Blockchain.{Blockchain}
use simple_blockchain_go.Consensus.Exchange.{
  IsSigner, broadcast_finality-broadcasts, handle_finalize-finalize, handle_vote-aggregate,
  vote-broadcasts, vote_of,
}
use simple_blockchain_go.Consensus.Handlers.{handle_consensus_message}
use simple_blockchain_go.Consensus.Messages.{ConsensusJson, finalize_message, vote_message}
use simple_blockchain_go.Consensus.Service.{ConsensusService, add_to_bad_peer, reset}
use simple_blockchain_go.Consensus.Voting.{
  Ended, aggregate, broadcast_finality, broadcast_payload, broadcasts, done, finalize,
  settle_accounts, settle_block, start_timer, then_run, vote,
}
use simple_blockchain_go.Env.{Env, IsFaithful}
use simple_blockchain_go.Memory.Service.{MemoryService}
use simple_blockchain_go.Merkle.{MerkleNode}
use simple_blockchain_go.P2p.Messages.{consensus_message, pack_payload, verify_node}
use simple_blockchain_go.Storage.Bolt.{Bolt}
use simple_blockchain_go.Types.{NodeInfo}
use simple_blockchain_go.Wallets.{Wallet}

add_to_bad_peer-keeps :
    (pk : Slice) (cs : ConsensusService)
    → let cs' = add_to_bad_peer pk cs in
      (cs'.finalize_ch ≡ cs.finalize_ch)
      × (cs'.account_ch ≡ cs.account_ch)
      × (cs'.block_ch ≡ cs.block_ch)
      × (cs'.next_aggregator ≡ cs.next_aggregator)
unfolding add_to_bad_peer
add_to_bad_peer-keeps pk cs = ground arith

finalize-settles :
    (good : Bool) (cs : ConsensusService)
    → cs.finalize_ch ≡ some true
    → finalize good cs
      ≡ (reset cs, settle_accounts good cs.account_ch ++ settle_block good cs.block_ch, done)
unfolding finalize
finalize-settles good cs h = rw (h, finalize) refl

module _ (e : Env) (js : ConsensusJson) (self : NodeInfo) (w : Wallet) (bc : Blockchain) where
  -- What a vote leaves of the state of a validator.
  vote-keeps :
      (good : Bool) (cs : ConsensusService) (b : Bytes)
      → equal cs.next_aggregator w.public_key ≡ false
      → js.vote_json.marshal (vote_of e js self w bc good) ≡ some b
      → let cs' = (vote e js self w bc good cs).0 in
        (cs'.finalize_ch ≡ some true)
        × (cs'.account_ch ≡ cs.account_ch)
        × (cs'.block_ch ≡ cs.block_ch)
        × (cs'.next_aggregator ≡ cs.next_aggregator)
  unfolding vote start_timer then_run broadcast_payload pack_payload
  vote-keeps true cs b apart made = rw (apart, vote) (rw made (refl, refl, refl, refl))
  vote-keeps false cs b apart made =
      rw (apart, vote) (rw made (add_to_bad_peer-keeps cs.next_block_producer (start_timer cs)))

module _ (e : Env) (js : ConsensusJson) (self self₂ : NodeInfo) (w w₂ : Wallet)
    (bc bc₂ : Blockchain) (bolt : Bolt) (sort_nodes : Sort MerkleNode) (generator : Slice)
    (db db₂ : bolt.Db) where
  -- A validator and the aggregator, with valid addresses and key pairs, each know the other's role, and the
  -- JSON of votes and of finalities is read as it was written. The validator's vote is one broadcast, which
  -- the aggregator counts. When the aggregator, while it waits for the finality, announces a verdict, it
  -- broadcasts it and settles its own accounts and block by it. When that broadcast reaches the validator
  -- after its vote, the validator settles by the same verdict the accounts and the block that awaited
  -- it, and resets.
  pub vote_round :
      IsFaithful js.vote_json
      → IsFaithful js.finalize_json
      → IsSigner e w
      → IsSigner e w₂
      → verify_node self ≡ true
      → verify_node self₂ ≡ true
      → (good verdict syncing : Bool) (ms ms₂ : MemoryService) (cs cs₂ : ConsensusService)
        (b b₂ : Bytes)
      → equal cs.next_aggregator w.public_key ≡ false
      → equal w₂.public_key cs.next_aggregator ≡ true
      → equal cs₂.next_aggregator w₂.public_key ≡ true
      → contains_func cs₂.next_validators (λ pk. bytes_eq pk (content w.public_key)) ≡ true
      → cs₂.finalize_ch ≡ some true
      → js.vote_json.marshal (vote_of e js self w bc good) ≡ some b
      → js.finalize_json.marshal (vote_of e js self₂ w₂ bc₂ verdict) ≡ some b₂
      → let voted = (vote e js self w bc good cs).0 in
        let vote_bytes = consensus_message ∷ vote_message ∷ b in
        let final_bytes = consensus_message ∷ finalize_message ∷ b₂ in
        ((vote e js self w bc good cs).1 ≡ broadcasts vote_bytes ∷ [])
        × (handle_consensus_message e js self₂ w₂ bc₂ bolt sort_nodes generator db₂ syncing
              vote_bytes ms₂ cs₂
            ≡ (ms₂, aggregate e js self₂ w₂ bc₂ good cs₂))
        × ((broadcast_finality e js self₂ w₂ bc₂ verdict cs₂).1
            ≡ broadcasts final_bytes
              ∷ (settle_accounts verdict cs₂.account_ch ++ settle_block verdict cs₂.block_ch))
        × (handle_consensus_message e js self w bc bolt sort_nodes generator db syncing final_bytes
              ms voted
            ≡ (
              ms,
              (
                reset voted,
                settle_accounts verdict cs.account_ch ++ settle_block verdict cs.block_ch,
                done,
              ),
            ))
  vote_round fv ff sw sw₂ valid valid₂ good verdict syncing ms ms₂ cs cs₂ b b₂ apart known known₂
        member open_ch made made₂ =
      let voted = (vote e js self w bc good cs).0 in
      let (waits_for, keys, blk, same) = vote-keeps e js self w bc good cs b apart made in
      let still : equal w₂.public_key voted.next_aggregator ≡ true =
        ap (λ a. equal w₂.public_key a) same ∙ known in
      (
        vote-broadcasts e js self w bc good cs b apart made,
        handle_vote-aggregate e js self w bc self₂ w₂ bc₂ bolt sort_nodes generator db₂ fv sw valid
            good syncing ms₂ cs₂ b known₂ member made,
        broadcast_finality-broadcasts e js self₂ w₂ bc₂ verdict cs₂ b₂ known₂ made₂
            ∙ ap (λ (r : Ended). broadcasts (consensus_message ∷ finalize_message ∷ b₂) ∷ r.1)
                (finalize-settles verdict cs₂ open_ch),
        handle_finalize-finalize e js self₂ w₂ bc₂ self w bc bolt sort_nodes generator db ff sw₂
              valid₂ verdict syncing ms voted b₂ still made₂
            ∙ ap (λ r. (ms, r)) (finalize-settles verdict voted waits_for ∙ rw (keys, blk) refl),
      )

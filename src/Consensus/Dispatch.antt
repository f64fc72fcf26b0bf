-- ===== src/Consensus/Dispatch.antt =====
-- consensus/: the validators that a node knows, over every message.
use simple_blockchain_go.Base.{
  Bool, Bool-cases, Bytes, Option-cases, Outcome-cases, Slice, Sort, [], arith, equal, false,
  if◌then◌else◌, inl, inr, some, true, ◌∷◌,
}
use simple_blockchain_go.Blockchain.{Blockchain}
use simple_blockchain_go.Consensus.Handlers.{
  accept_proposal, executed_block, handle_consensus_message, handle_propose_block, settle_proposal,
}
use simple_blockchain_go.Consensus.Messages.{ConsensusJson, vote_message}
use simple_blockchain_go.Consensus.Service.{ConsensusService, add_to_bad_peer}
use simple_blockchain_go.Consensus.Steps.{
  IsValidators, add_to_bad_peer-IsValidators, broadcast_payload-IsValidators, then_run-IsValidators,
}
use simple_blockchain_go.Consensus.Validators.{aggregate-IsValidators, handlers-IsValidators}
use simple_blockchain_go.Consensus.Voting.{broadcast_payload, done, sign_message, start_timer, vote}
use simple_blockchain_go.Env.{Env}
use simple_blockchain_go.Executers.Executer.{execute_now}
use simple_blockchain_go.Executers.Producer.{Verified, verify}
use simple_blockchain_go.Memory.Service.{MemoryService}
use simple_blockchain_go.Merkle.{MerkleNode}
use simple_blockchain_go.P2p.Messages.{consensus_message, pack_payload}
use simple_blockchain_go.Storage.Bolt.{Bolt}
use simple_blockchain_go.Types.{Block, NodeInfo}
use simple_blockchain_go.Wallets.{Wallet}

timer-IsValidators : (cs : ConsensusService) → IsValidators cs → IsValidators (start_timer cs)
unfolding start_timer IsValidators
timer-IsValidators cs h = h

accused :
    (good : Bool) (c : ConsensusService)
    → IsValidators c
    → IsValidators (if good then c else add_to_bad_peer c.next_block_producer c)
accused true c h = h
accused false c h = add_to_bad_peer-IsValidators c.next_block_producer c h

module _ (e : Env) (js : ConsensusJson) (self : NodeInfo) (w : Wallet) (bc : Blockchain) where
  vote-IsValidators :
      (good : Bool) (cs : ConsensusService)
      → IsValidators cs
      → IsValidators (vote e js self w bc good cs).0
  unfolding vote
  vote-IsValidators good cs h =
      let timed = timer-IsValidators cs h in
      elim (Bool-cases (equal (start_timer cs).next_aggregator w.public_key)) [
        | inl here ↦
            ground (arith, aggregate-IsValidators e js self w bc good (start_timer cs) timed)
        | inr elsewhere ↦ rw elsewhere (
            then_run-IsValidators
              (broadcast_payload
                (pack_payload js.vote_json
                  (record {
                    by = sign_message e js self w bc;
                    height = bc.next_height;
                    good = good;
                  })
                  (consensus_message ∷ vote_message ∷ []))
                (start_timer cs))
              (λ c. (if good then c else add_to_bad_peer c.next_block_producer c, [], done))
              (broadcast_payload-IsValidators _ (start_timer cs) timed) (λ c k. accused good c k))
      ]

  module _ (bolt : Bolt) (sort_nodes : Sort MerkleNode) (generator : Slice) (db : bolt.Db) where
    settle_proposal-IsValidators :
        (blk : Block) (v : Verified) (cs : ConsensusService)
        → IsValidators cs
        → IsValidators (settle_proposal e js self w bc bolt sort_nodes generator db blk v cs).0
    unfolding settle_proposal
    settle_proposal-IsValidators blk v cs h = elim (Outcome-cases (v.verdict)) [
      | inl (good, given) ↦ ground (arith, voted good)
      | inr (inl (x, failed)) ↦ ground (arith, waits_not)
      | inr (inr stopped) ↦ ground (arith, h)
    ]
      where
        waits_not : IsValidators (record cs { account_ch = v.finality })
        waits_not = unfold IsValidators in h

        voted :
            (good : Bool)
            → IsValidators
                (vote e js self w bc good (
                  let cs' = record cs { account_ch = v.finality; waiting_finality = true } in
                  if good then record cs' { block_ch = some blk } else cs')).0
        voted true = vote-IsValidators true _ (unfold IsValidators in h)
        voted false = vote-IsValidators false _ (unfold IsValidators in h)

    propose-IsValidators :
        (raw : Bytes) (ms : MemoryService) (cs : ConsensusService)
        → IsValidators cs
        → IsValidators
            (handle_propose_block e js self w bc bolt sort_nodes generator db raw ms cs).1.0
    unfolding handle_propose_block accept_proposal
    propose-IsValidators raw ms cs h = elim (Option-cases (js.propose_json.unmarshal raw)) [
      | inl unread ↦ ground arith
      | inr (msg, read) ↦ ground (
        arith,
        add_to_bad_peer-IsValidators msg.by.from_public_key cs h,
        settle_proposal-IsValidators
            (executed_block msg.block
              (execute_now bolt e generator db msg.block.bundle.transactions [] ms).1)
            (verify bolt e sort_nodes generator db bc msg.block ms).1 cs h,
      )
    ]

    -- Whatever message arrives, `handleConsensusMessage` keeps the keys of the validators 32 bytes long
    -- and apart, whether it ends, fails, panics or blocks.
    pub handle_consensus_message-IsValidators :
        (syncing : Bool) (raw : Bytes) (ms : MemoryService) (cs : ConsensusService)
        → IsValidators cs
        → IsValidators
            (handle_consensus_message e js self w bc bolt sort_nodes generator db syncing raw ms
              cs).1.0
    unfolding handle_consensus_message
    handle_consensus_message-IsValidators syncing [] ms cs h = h
    handle_consensus_message-IsValidators syncing (network ∷ []) ms cs h = h
    handle_consensus_message-IsValidators syncing (network ∷ kind ∷ raw) ms cs h =
        let each = handlers-IsValidators e js self w bc syncing raw self cs h in
        ground (arith, each, propose-IsValidators raw ms cs h)

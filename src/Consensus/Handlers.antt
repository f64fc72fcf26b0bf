-- ===== src/Consensus/Handlers.antt =====
-- consensus/handlers.go, and `handleConsensusMessage` of consensus/consensus_service.go. A handler
-- also takes and leaves the memory, which `handleProposeBlock` changes.
use simple_blockchain_go.Base.{
  Bool, Bytes, List, Outcome, Slice, Sort, [], bytes_eq, contains_func, content, equal, err,
  if◌then◌else◌, insert, json, ltb, none, not, ok, panic, some, true, ◌&&◌, ◌-◌, ◌==◌, ◌∷◌,
}
use simple_blockchain_go.Blockchain.{Blockchain}
use simple_blockchain_go.Consensus.Messages.{
  ConsensusJson, GossipMsg, ProposeBlockMsg, StartBlockProcessingMsg, VoteMsg, finalize_message,
  gossip_message, propose_block_message, start_block_processing_message, verify_gossip,
  verify_proposal, verify_start, verify_vote, vote_message,
}
use simple_blockchain_go.Consensus.Service.{
  ConsensusService, add_to_bad_peer, add_to_next_validators, remove_from_next_validators,
}
use simple_blockchain_go.Consensus.Voting.{
  Ended, aggregate, done, fails, finalize, panics, starts_sync, vote,
}
use simple_blockchain_go.Env.{Codec, Env}
use simple_blockchain_go.Executers.Executer.{execute_now}
use simple_blockchain_go.Executers.Producer.{Verified, verify}
use simple_blockchain_go.Memory.Service.{MemoryService}
use simple_blockchain_go.Merkle.{MerkleNode}
use simple_blockchain_go.P2p.Messages.{consensus_message}
use simple_blockchain_go.P2p.Network.{act}
use simple_blockchain_go.Storage.Bolt.{Bolt}
use simple_blockchain_go.Types.{Block, NodeInfo, Transaction}
use simple_blockchain_go.Wallets.{Wallet}

-- The block that the message holds, once `Verify` has run: it sets the status of the transactions
-- in the slice of the block itself.
unfoldable pub executed_block : Block → List Transaction → Block
executed_block blk txs = record blk { bundle = record blk.bundle { transactions = txs } }

module _ (e : Env) (js : ConsensusJson) (self : NodeInfo) (w : Wallet) (bc : Blockchain) where
  -- The message is read, then verified; a message that fails is answered by nothing.
  unfoldable pub receive :
      {M : Type 0}
      → Codec M
      → (M → Outcome Bool)
      → (M → ConsensusService → Ended)
      → Bytes
      → ConsensusService
      → Ended
  receive c verify act raw cs = elim (c.unmarshal raw) [
    | none ↦ (cs, [], fails json)
    | some msg ↦ elim (verify msg) [
      | ok good ↦ if good then act msg cs else (cs, [], done)
      | err x ↦ (cs, [], fails x)
      | panic ↦ (cs, [], panics)
    ]
  ]

  -- `handleVote`
  unfoldable pub accept_vote : VoteMsg → ConsensusService → Ended
  unfolding aggregate
  accept_vote msg cs =
      if contains_func cs.next_validators (λ pk. bytes_eq pk (content msg.by.from_public_key))
      then aggregate e js self w bc msg.good cs
      else (cs, [], done)

  unfoldable pub handle_vote : Bytes → ConsensusService → Ended
  unfolding receive accept_vote verify_vote
  handle_vote raw cs =
      if equal cs.next_aggregator w.public_key
      then receive js.vote_json (verify_vote e) accept_vote raw cs
      else (cs, [], done)

  -- `handleFinalize`
  unfoldable pub accept_finality : VoteMsg → ConsensusService → Ended
  unfolding finalize add_to_bad_peer
  accept_finality msg cs =
      if equal msg.by.from_public_key cs.next_aggregator
      then finalize msg.good cs
      else (add_to_bad_peer msg.by.from_public_key cs, [], done)

  unfoldable pub handle_finalize : Bytes → ConsensusService → Ended
  unfolding receive accept_finality verify_vote
  handle_finalize raw cs = receive js.finalize_json (verify_vote e) accept_finality raw cs

  -- `handleStartBlockProcessing`
  unfoldable pub accept_start : StartBlockProcessingMsg → ConsensusService → Ended
  unfolding add_to_bad_peer
  accept_start msg cs =
      if equal msg.next_block_producer cs.next_block_producer
        && equal msg.next_aggregator cs.next_aggregator
      then (cs, [], done)
      else (add_to_bad_peer msg.by.from_public_key cs, [], done)

  unfoldable pub handle_start_block_processing : Bytes → ConsensusService → Ended
  unfolding receive accept_start verify_start
  handle_start_block_processing raw cs = receive js.start_json (verify_start e) accept_start raw cs

  -- `handleGossip`, from its message on.
  unfoldable pub accept_gossip : GossipMsg → ConsensusService → Ended
  unfolding remove_from_next_validators add_to_next_validators
  accept_gossip msg cs =
      let key = msg.by.from_public_key in
      if msg.is_syncing
      then (cs, [], done)
      else if contains_func cs.bad_peers (bytes_eq (content key))
      then (cs, [], done)
      else if ltb bc.next_height msg.next_height
      then (cs, starts_sync (msg.next_height - 1) ∷ [], done)
      else if ltb msg.next_height bc.next_height
      then (remove_from_next_validators key cs, [], done)
      else if not (msg.next_epoch == bc.next_epoch)
      then (remove_from_next_validators key cs, [], done)
      else if not (msg.next_slot == bc.next_slot)
      then (remove_from_next_validators key cs, [], done)
      else (
        add_to_next_validators key
            (record cs { peers_status = insert msg.by.from.ip4 msg.is_ready cs.peers_status }),
        [],
        done,
      )

  unfoldable pub handle_gossip : Bool → Bytes → ConsensusService → Ended
  unfolding receive accept_gossip verify_gossip
  handle_gossip syncing raw cs =
      if cs.waiting_finality
      then (cs, [], done)
      else if syncing
      then (cs, [], done)
      else receive js.gossip_json (verify_gossip e) accept_gossip raw cs

  module _ (bolt : Bolt) (sort_nodes : Sort MerkleNode) (generator : Slice) (db : bolt.Db) where
    -- `handleProposeBlock`, after the verification of the block by the producer.
    unfoldable pub settle_proposal : Block → Verified → ConsensusService → Ended
    settle_proposal blk v cs = elim (v.verdict) [
      | ok good ↦ vote e js self w bc good (
          let cs' = record cs { account_ch = v.finality; waiting_finality = true } in
          if good then record cs' { block_ch = some blk } else cs')
      | err x ↦ (record cs { account_ch = v.finality }, [], fails x)
      | panic ↦ (cs, [], panics)
    ]

    unfoldable pub accept_proposal :
        ProposeBlockMsg → MemoryService → ConsensusService → MemoryService × Ended
    accept_proposal msg ms cs =
        if equal msg.by.from_public_key cs.next_block_producer
        then (let (ms', v) = verify bolt e sort_nodes generator db bc msg.block ms in
            let run = execute_now bolt e generator db msg.block.bundle.transactions [] ms in
            (ms', settle_proposal (executed_block msg.block run.1) v cs))
        else (ms, (add_to_bad_peer msg.by.from_public_key cs, [], done))

    unfoldable pub handle_propose_block :
        Bytes → MemoryService → ConsensusService → MemoryService × Ended
    handle_propose_block raw ms cs = elim (js.propose_json.unmarshal raw) [
      | none ↦ (ms, (cs, [], fails json))
      | some msg ↦ elim (verify_proposal e msg) [
        | ok good ↦ if good then accept_proposal msg ms cs else (ms, (cs, [], done))
        | err x ↦ (ms, (cs, [], fails x))
        | panic ↦ (ms, (cs, [], panics))
      ]
    ]

    -- `handleConsensusMessage`: `raw[0]` and `raw[1]` may be out of range.
    unfoldable pub handle_consensus_message :
        Bool → Bytes → MemoryService → ConsensusService → MemoryService × Ended
    handle_consensus_message syncing [] ms cs = (ms, (cs, [], panics))
    handle_consensus_message syncing (network ∷ []) ms cs =
        (ms, (cs, [], if network == consensus_message then panics else done))
    handle_consensus_message syncing (network ∷ kind ∷ raw) ms cs =
        if not (network == consensus_message)
        then (ms, (cs, [], done))
        else if kind == gossip_message
        then (ms, handle_gossip syncing raw cs)
        else if kind == start_block_processing_message
        then (ms, handle_start_block_processing raw cs)
        else if kind == propose_block_message
        then handle_propose_block raw ms cs
        else if kind == vote_message
        then (ms, handle_vote raw cs)
        else if kind == finalize_message
        then (ms, handle_finalize raw cs)
        else (ms, (cs, [], done))

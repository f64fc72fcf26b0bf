-- ===== src/Consensus/Loop.antt =====
-- consensus/consensus_service.go: `proposeBlock` and one tick of `loop`.
use simple_blockchain_go.Base.{
  Bool, Bytes, List, Slice, Sort, [], equal, err, if◌then◌else◌, length, ltb, ok, panic, some, true,
  ℕ, ◌%◌, ◌&&◌, ◌++◌, ◌+◌, ◌==◌, ◌||◌, ◌∷◌,
}
use simple_blockchain_go.Blockchain.{Blockchain}
use simple_blockchain_go.Consensus.Messages.{ConsensusJson, propose_block_message}
use simple_blockchain_go.Consensus.Service.{
  ConsensusService, add_to_next_validators, all_peer_ready, decide_committee, ready,
}
use simple_blockchain_go.Consensus.Voting.{
  Ended, broadcast_gossip, broadcast_payload, broadcast_start, done, fails, panics, reports,
  sign_message, start_timer, then_run, waits,
}
use simple_blockchain_go.Env.{Env}
use simple_blockchain_go.Executers.Producer.{produce}
use simple_blockchain_go.Memory.Mempool.{len_pool}
use simple_blockchain_go.Memory.Service.{MemoryService}
use simple_blockchain_go.Merkle.{MerkleNode}
use simple_blockchain_go.P2p.Messages.{consensus_message, pack_payload}
use simple_blockchain_go.Storage.Bolt.{Bolt}
use simple_blockchain_go.Types.{Block, NodeInfo, Transaction}
use simple_blockchain_go.Wallets.{Wallet}

module _ (e : Env) (js : ConsensusJson) (self : NodeInfo) (w : Wallet) (bc : Blockchain)
    (bolt : Bolt) (sort_nodes : Sort MerkleNode) (sort_txs : Sort Transaction)
    (sort_keys : Sort Bytes) (generator : Slice) (db : bolt.Db) (now : ℕ) where
  -- `proposeBlock`, after the block is made.
  unfoldable pub broadcast_proposal : Block → List Slice → ConsensusService → Ended
  unfolding sign_message broadcast_payload then_run
  broadcast_proposal blk keys cs =
      then_run
        (broadcast_payload
          (pack_payload js.propose_json (record { by = sign_message e js self w bc; block = blk })
            (consensus_message ∷ propose_block_message ∷ []))
          cs)
        (λ c. (record c { block_ch = some blk; account_ch = some keys }, [], done))

  -- `proposeBlock`
  unfoldable pub propose_block : MemoryService → ConsensusService → MemoryService × Ended
  unfolding broadcast_proposal
  propose_block ms cs =
      let (ms', made) = produce bolt e sort_nodes sort_txs generator db bc w now ms in
      (
        ms',
        elim made [
          | ok (blk, keys) ↦ broadcast_proposal blk keys cs
          | err x ↦ (cs, [], fails x)
          | panic ↦ (cs, [], panics)
        ],
      )

  -- The producer waits for the finality of its block, also where it could not propose one.
  unfoldable pub await_finality : Ended → Ended
  unfolding start_timer
  await_finality (cs, effects, done) =
      (start_timer (record cs { waiting_finality = true }), effects, done)
  await_finality (cs, effects, fails x) =
      (start_timer (record cs { waiting_finality = true }), effects ++ reports x ∷ [], done)
  await_finality (cs, effects, panics) = (cs, effects, panics)
  await_finality (cs, effects, waits) = (cs, effects, waits)

  -- The proposal of the node whose turn it is, where there are transactions.
  unfoldable pub propose_in_turn : MemoryService → ConsensusService → MemoryService × Ended
  unfolding propose_block await_finality
  propose_in_turn ms cs =
      if ltb 0 (len_pool ms.mempool) && equal cs.next_block_producer w.public_key
      then (let (ms', r) = propose_block ms cs in (ms', await_finality r))
      else (ms, (cs, [], done))

  unfoldable pub start_processing : MemoryService → ConsensusService → MemoryService × Ended
  unfolding ready all_peer_ready broadcast_start propose_in_turn then_run
  start_processing ms cs =
      if ready cs && all_peer_ready cs
      then (let next = propose_in_turn ms cs in
          let first = broadcast_start e js self w bc cs in
          elim (first.2) [
            | done ↦ (next.0, (next.1.0, first.1 ++ next.1.1, next.1.2))
            | fails x ↦ (ms, first)
            | panics ↦ (ms, first)
            | waits ↦ (ms, first)
          ])
      else (ms, (cs, [], done))

  -- The part of the loop at tick 2 that follows its two tests.
  unfoldable pub process_turn : MemoryService → ConsensusService → MemoryService × Ended
  unfolding add_to_next_validators decide_committee start_processing
  process_turn ms cs =
      elim (decide_committee e sort_keys bc.next_height (add_to_next_validators w.public_key cs)) [
        | ok cs' ↦ start_processing ms cs'
        | err x ↦ (ms, (cs, [], fails x))
        | panic ↦ (ms, (cs, [], panics))
      ]

  -- One tick of `loop`, of the count `tick` and with `peers` peers: the next count, and the rest.
  unfoldable pub loop_tick :
      ℕ → Bool → ℕ → MemoryService → ConsensusService → ℕ × (MemoryService × Ended)
  unfolding broadcast_gossip process_turn
  loop_tick peers syncing tick ms cs =
      if peers == 0
      then (tick, (ms, (cs, [], done)))
      else if cs.waiting_finality
      then (tick, (ms, (cs, [], done)))
      else if ltb tick 2
      then ((tick + 1) % 4, (ms, broadcast_gossip e js self w bc syncing cs))
      else if tick == 2
      then if syncing || length cs.next_validators == 0
        then (tick, (ms, (cs, [], done)))
        else ((tick + 1) % 4, process_turn ms cs)
      else ((tick + 1) % 4, (ms, (cs, [], done)))

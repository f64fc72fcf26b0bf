-- ===== src/Consensus/Voting.antt =====
-- consensus/consensus_service.go: what the service sends, the votes, the timer and the finality. A
-- channel has no buffer: a send on nil, or on a channel from which nobody receives any more, blocks
-- the goroutine for good.
use simple_blockchain_go.Base.{
  Bool, Bytes, Error, List, Option, Outcome, Slice, [], equal, err, false, if◌then◌else◌, length,
  ltb, none, ok, panic, some, true, ℕ, ◌%◌, ◌++◌, ◌+◌, ◌/◌, ◌==◌, ◌∷◌,
}
use simple_blockchain_go.Blockchain.{Blockchain}
use simple_blockchain_go.Consensus.Messages.{
  ConsensusJson, Signed, consensus_msg_sig_content, finalize_message, gossip_message,
  start_block_processing_message, vote_message,
}
use simple_blockchain_go.Consensus.Service.{ConsensusService, add_to_bad_peer, ready, reset}
use simple_blockchain_go.Env.{Env}
use simple_blockchain_go.P2p.Messages.{consensus_message, pack_payload}
use simple_blockchain_go.Types.{Block, NodeInfo}
use simple_blockchain_go.Wallets.{Wallet, sign_raw}

pub data Effect : Type 0 where
  broadcasts : Bytes → Effect
  settles_accounts : List Slice → Bool → Effect  -- a send to `afterFinality`
  settles_block : Block → Bool → Effect  -- a send to `waitForFinality`
  starts_sync : ℕ → Effect
  reports : Error → Effect  -- a send to the error channel

-- How the goroutine goes on: it ends, fails, panics (or waits for ever in a call of another package), or
-- waits for ever on a channel of the service.
pub data Ending : Type 0 where
  done : Ending
  fails : Error → Ending
  panics : Ending
  waits : Ending

-- What a call leaves: the state, what it did beside, and how it ends.
abbrev pub Ended : Type 0
Ended = ConsensusService × List Effect × Ending

-- The error is dropped by the caller.
unfoldable pub ignore_error : Ended → Ended
ignore_error (cs, effects, done) = (cs, effects, done)
ignore_error (cs, effects, fails x) = (cs, effects, done)
ignore_error (cs, effects, panics) = (cs, effects, panics)
ignore_error (cs, effects, waits) = (cs, effects, waits)

-- `startTimer`
unfoldable pub start_timer : ConsensusService → ConsensusService
start_timer cs = record cs { finalize_ch = some true }

unfoldable pub settle_accounts : Bool → Option (List Slice) → List Effect
settle_accounts good none = []
settle_accounts good (some keys) = settles_accounts keys good ∷ []

unfoldable pub settle_block : Bool → Option Block → List Effect
settle_block good none = []
settle_block good (some blk) = settles_block blk good ∷ []

-- `finalize`
unfoldable pub finalize : Bool → ConsensusService → Ended
unfolding settle_accounts settle_block reset
finalize good cs = elim cs.finalize_ch [
  | none ↦ (cs, [], waits)
  | some receives ↦
      if receives
      then (reset cs, settle_accounts good cs.account_ch ++ settle_block good cs.block_ch, done)
      else (cs, [], waits)
]

-- The case of `timeout` when the timer fires first: it stops receiving, then it finalizes.
unfoldable pub timeout : ConsensusService → Ended
unfolding finalize
timeout cs = finalize false (record cs { finalize_ch = some false })

unfoldable pub broadcast_payload : Outcome Bytes → ConsensusService → Ended
broadcast_payload (ok payload) cs = (cs, broadcasts payload ∷ [], done)
broadcast_payload (err x) cs = (cs, [], fails x)
broadcast_payload panic cs = (cs, [], panics)

-- The call after a broadcast, which is left out where the broadcast fails.
unfoldable pub then_run : Ended → (ConsensusService → Ended) → Ended
then_run (cs, effects, done) f = let r = f cs in (r.0, effects ++ r.1, r.2)
then_run (cs, effects, fails x) f = (cs, effects, fails x)
then_run (cs, effects, panics) f = (cs, effects, panics)
then_run (cs, effects, waits) f = (cs, effects, waits)

unfoldable pub count_vote : Bool → ConsensusService → ConsensusService
count_vote good cs = record cs {
  num_voted = cs.num_voted + 1;
  num_voted_ok = if good then cs.num_voted_ok + 1 else cs.num_voted_ok;
}

-- The last vote is in, and the verdict: `NumVotedOk > modTotal/2 - 1`.
unfoldable pub all_voted : ConsensusService → Bool
all_voted cs = cs.num_voted + 1 == length cs.next_validators

unfoldable pub poll_verdict : ConsensusService → Bool
poll_verdict cs =
    let n = length cs.next_validators in
    let mod_total = if n % 2 == 0 then n else n + 1 in ltb (mod_total / 2) (cs.num_voted_ok + 1)

module _ (e : Env) (js : ConsensusJson) (self : NodeInfo) (w : Wallet) (bc : Blockchain) where
  -- The fields that each message of this node has.
  unfoldable pub sign_message : Signed
  unfolding sign_raw
  sign_message = record {
    from = self;
    from_public_key = w.public_key;
    signature = sign_raw e w (some consensus_msg_sig_content);
  }

  -- `broadcastFinality`
  unfoldable pub broadcast_finality : Bool → ConsensusService → Ended
  unfolding sign_message broadcast_payload then_run finalize
  broadcast_finality good cs =
      if equal cs.next_aggregator w.public_key
      then then_run
          (broadcast_payload
            (pack_payload js.finalize_json
              (record { by = sign_message; height = bc.next_height; good = good })
              (consensus_message ∷ finalize_message ∷ []))
            cs)
          (finalize good)
      else (cs, [], done)

  -- `aggregate`
  unfoldable pub aggregate : Bool → ConsensusService → Ended
  unfolding broadcast_finality count_vote all_voted poll_verdict
  aggregate good cs =
      if equal cs.next_aggregator w.public_key
      then (let cs' = count_vote good cs in
          if all_voted cs'
          then ignore_error (broadcast_finality (poll_verdict cs') cs')
          else (cs', [], done))
      else (cs, [], done)

  -- `vote`
  unfoldable pub vote : Bool → ConsensusService → Ended
  vote good cs =
      let cs' = start_timer cs in
      if equal cs'.next_aggregator w.public_key
      then aggregate good cs'
      else then_run
          (broadcast_payload
            (pack_payload js.vote_json
              (record { by = sign_message; height = bc.next_height; good = good })
              (consensus_message ∷ vote_message ∷ []))
            cs')
          (λ c. (if good then c else add_to_bad_peer c.next_block_producer c, [], done))

  -- `broadcastStartBlockProcessing`
  unfoldable pub broadcast_start : ConsensusService → Ended
  unfolding sign_message broadcast_payload
  broadcast_start cs =
      broadcast_payload
        (pack_payload js.start_json
          (record {
            by = sign_message;
            next_block_producer = cs.next_block_producer;
            next_aggregator = cs.next_aggregator;
          })
          (consensus_message ∷ start_block_processing_message ∷ []))
        cs

  -- `broadcastGossip`
  unfoldable pub broadcast_gossip : Bool → ConsensusService → Ended
  unfolding sign_message broadcast_payload ready
  broadcast_gossip syncing cs =
      broadcast_payload
        (pack_payload js.gossip_json
          (record {
            by = sign_message;
            is_syncing = syncing;
            is_ready = ready cs;
            next_height = bc.next_height;
            next_epoch = bc.next_epoch;
            next_slot = bc.next_slot;
            bad_nodes = cs.bad_peers;
          })
          (consensus_message ∷ gossip_message ∷ []))
        cs

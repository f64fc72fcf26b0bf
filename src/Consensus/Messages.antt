-- ===== src/Consensus/Messages.antt =====
-- consensus/consensus_msgs.go.
use simple_blockchain_go.Base.{
  Bool, Bytes, List, Outcome, Slice, [], all, and_then, false, if◌then◌else◌, len, length, ltb,
  not_nil, ok, some, ℕ, ◌&&◌, ◌==◌, ◌>>=◌, ◌∷◌,
}
use simple_blockchain_go.Blocks.{verify_block}
use simple_blockchain_go.Common.{public_key_size}
use simple_blockchain_go.Env.{Codec, Env, verify_signature}
use simple_blockchain_go.P2p.Messages.{verify_node}
use simple_blockchain_go.Types.{Block, NodeInfo}

abbrev pub gossip_message : ℕ
gossip_message = 1

abbrev pub start_block_processing_message : ℕ
start_block_processing_message = 2

abbrev pub propose_block_message : ℕ
propose_block_message = 3

abbrev pub vote_message : ℕ
vote_message = 4

abbrev pub finalize_message : ℕ
finalize_message = 5

-- The fields that every message has.
pub record Signed : Type 0 where
  pub from : NodeInfo
  pub from_public_key : Slice
  pub signature : Slice

pub record GossipMsg : Type 0 where
  pub by : Signed
  pub is_syncing : Bool
  pub is_ready : Bool
  pub next_height : ℕ
  pub next_epoch : ℕ
  pub next_slot : ℕ
  pub bad_nodes : List Bytes

pub record StartBlockProcessingMsg : Type 0 where
  pub by : Signed
  pub next_block_producer : Slice
  pub next_aggregator : Slice

pub record ProposeBlockMsg : Type 0 where
  pub by : Signed
  pub block : Block

-- `VoteMsg` and `FinalizeMsg` have the same fields.
pub record VoteMsg : Type 0 where
  pub by : Signed
  pub height : ℕ
  pub good : Bool

-- `ConsensusMsgSigContent`: the letters of "ConsensusMsgSignatureVersion2".
abbrev pub consensus_msg_sig_content : Bytes
consensus_msg_sig_content =
    b'C' ∷ b'o' ∷ b'n' ∷ b's' ∷ b'e' ∷ b'n' ∷ b's' ∷ b'u' ∷ b's' ∷ b'M' ∷ b's' ∷ b'g' ∷ b'S' ∷ b'i'
    ∷ b'g' ∷ b'n' ∷ b'a' ∷ b't' ∷ b'u' ∷ b'r' ∷ b'e' ∷ b'V' ∷ b'e' ∷ b'r' ∷ b's' ∷ b'i' ∷ b'o'
    ∷ b'n' ∷ b'2' ∷ []

pub record ConsensusJson : Type 0 where
  pub gossip_json : Codec GossipMsg
  pub start_json : Codec StartBlockProcessingMsg
  pub propose_json : Codec ProposeBlockMsg
  pub vote_json : Codec VoteMsg
  pub finalize_json : Codec VoteMsg

module _ (e : Env) where
  -- `VerifyConsensusSignature`
  unfoldable pub verify_consensus_signature : Slice → Slice → Outcome Bool
  verify_consensus_signature signature pub_key =
      verify_signature e pub_key (some consensus_msg_sig_content) signature

  -- The tests that the messages share, in their order: the signature is verified before the length
  -- of the key is looked at.
  unfoldable pub verify_signed : Signed → Outcome Bool
  unfolding verify_consensus_signature
  verify_signed s = and_then (verify_node s.from) (do
    good ← verify_consensus_signature s.signature s.from_public_key
    ok (good && len s.from_public_key == public_key_size && ltb 0 (len s.signature)))

  -- `GossipMsg.Verify`
  unfoldable pub verify_gossip : GossipMsg → Outcome Bool
  unfolding verify_signed
  verify_gossip gm =
      if all gm.bad_nodes (λ pk. length pk == public_key_size)
      then verify_signed gm.by
      else ok false

  -- `StartBlockProcessingMsg.Verify`
  unfoldable pub verify_start : StartBlockProcessingMsg → Outcome Bool
  unfolding verify_signed
  verify_start sm = do
    good ← verify_signed sm.by
    ok (
        good
        && not_nil sm.next_block_producer
        && len sm.next_block_producer == public_key_size
        && not_nil sm.next_aggregator
        && len sm.next_aggregator == public_key_size)

  -- `ProposeBlockMsg.Verify`
  unfoldable pub verify_proposal : ProposeBlockMsg → Outcome Bool
  unfolding verify_signed
  verify_proposal pm = do good ← verify_signed pm.by; and_then good (verify_block e pm.block)

  -- `VoteMsg.Verify` and `FinalizeMsg.Verify`
  unfoldable pub verify_vote : VoteMsg → Outcome Bool
  unfolding verify_signed
  verify_vote vm = verify_signed vm.by

-- ===== src/Consensus/Exchange.antt =====
-- consensus/: a vote and a finality on their way between a validator and the aggregator.
use simple_blockchain_go.Base.{
  Bool, Bytes, Outcome, Slice, Sort, [], ap, arith, bytes_eq, contains_func, content, equal, false,
  len, length, ltb, ok, refl, some, true, ◌<◌, ◌==◌, ◌∙◌, ◌∷◌, ◌≡◌,
}
use simple_blockchain_go.Blockchain.{Blockchain}
use simple_blockchain_go.Common.{public_key_size}
use simple_blockchain_go.Consensus.Handlers.{
  accept_finality, accept_vote, handle_consensus_message, handle_finalize, handle_vote, receive,
}
use simple_blockchain_go.Consensus.Messages.{
  ConsensusJson, VoteMsg, consensus_msg_sig_content, finalize_message, verify_consensus_signature,
  verify_signed, verify_vote, vote_message,
}
use simple_blockchain_go.Consensus.Service.{ConsensusService}
use simple_blockchain_go.Consensus.Voting.{
  Ended, aggregate, broadcast_finality, broadcast_payload, broadcasts, finalize, sign_message,
  start_timer, then_run, vote,
}
use simple_blockchain_go.Env.{Codec, Env, IsFaithful, verify_signature}
use simple_blockchain_go.Executers.Producer.{verify}
use simple_blockchain_go.Memory.Service.{MemoryService}
use simple_blockchain_go.Merkle.{MerkleNode}
use simple_blockchain_go.P2p.Messages.{consensus_message, pack_payload, verify_node}
use simple_blockchain_go.Storage.Bolt.{Bolt}
use simple_blockchain_go.Types.{NodeInfo}
use simple_blockchain_go.Wallets.{Wallet, sign_raw}

-- What package crypto/ed25519 documents of the key pair of a wallet.
pub record IsSigner (e : Env) (w : Wallet) : Type 0 where
  pub sized : len w.public_key ≡ public_key_size
  pub verifies :
      (m : Bytes)
      → e.ed25519_verify (content w.public_key) m (e.ed25519_sign w.private_key m) ≡ true
  pub not_empty : (m : Bytes) → 0 < length (e.ed25519_sign w.private_key m)

module _ (e : Env) (js : ConsensusJson) (self : NodeInfo) (w : Wallet) (bc : Blockchain) where
  sign_message-verify_signed :
      IsSigner e w
      → verify_node self ≡ true
      → verify_signed e (sign_message e js self w bc) ≡ ok true
  unfolding verify_signed verify_consensus_signature verify_signature sign_message sign_raw
  sign_message-verify_signed h valid =
      let m = consensus_msg_sig_content in
      let size : (len w.public_key == public_key_size) ≡ true = ground (arith, h.sized) in
      let long : ltb 0 (length (e.ed25519_sign w.private_key m)) ≡ true =
        ground (arith, h.not_empty m) in
      rw (valid, verify_signed) (rw size (rw (h.verifies m) (rw long refl)))

  -- The message by which a node votes, or by which the aggregator announces the verdict.
  abbrev pub vote_of : Bool → VoteMsg
  vote_of good = record { by = sign_message e js self w bc; height = bc.next_height; good = good }

  pub vote-broadcasts :
      (good : Bool) (cs : ConsensusService) (b : Bytes)
      → equal cs.next_aggregator w.public_key ≡ false
      → js.vote_json.marshal (vote_of good) ≡ some b
      → (vote e js self w bc good cs).1 ≡ broadcasts (consensus_message ∷ vote_message ∷ b) ∷ []
  unfolding vote start_timer then_run broadcast_payload pack_payload
  vote-broadcasts good cs b apart made = rw (apart, vote) (rw made refl)

  pub broadcast_finality-broadcasts :
      (good : Bool) (cs : ConsensusService) (b : Bytes)
      → equal cs.next_aggregator w.public_key ≡ true
      → js.finalize_json.marshal (vote_of good) ≡ some b
      → (broadcast_finality e js self w bc good cs).1
        ≡ broadcasts (consensus_message ∷ finalize_message ∷ b) ∷ (finalize good cs).1
  unfolding broadcast_finality then_run broadcast_payload pack_payload
  broadcast_finality-broadcasts good cs b is_aggregator made =
      rw (is_aggregator, broadcast_finality) (rw made refl)

module _ (e : Env) (js : ConsensusJson) (from : NodeInfo) (signer : Wallet) (sent_at : Blockchain)
    (self : NodeInfo) (w : Wallet) (bc : Blockchain) (bolt : Bolt) (sort_nodes : Sort MerkleNode)
    (generator : Slice) (db : bolt.Db) where
  abbrev pub handles : Bool → Bytes → MemoryService → ConsensusService → MemoryService × Ended
  handles = handle_consensus_message e js self w bc bolt sort_nodes generator db

  receive-acts :
      {M : Type 0} (c : Codec M) (verify : M → Outcome Bool) (acts : M → ConsensusService → Ended)
      (raw : Bytes) (msg : M) (cs : ConsensusService)
      → c.unmarshal raw ≡ some msg
      → verify msg ≡ ok true
      → receive e js self w bc c verify acts raw cs ≡ acts msg cs
  unfolding receive
  receive-acts c verify acts raw msg cs read good = rw (read, receive) (rw good refl)

  handles-vote :
      (syncing : Bool) (ms : MemoryService) (cs : ConsensusService) (b : Bytes)
      → equal cs.next_aggregator w.public_key ≡ true
      → handles syncing (consensus_message ∷ vote_message ∷ b) ms cs ≡ (
        ms,
        receive e js self w bc js.vote_json (verify_vote e) (accept_vote e js self w bc) b cs,
      )
  unfolding handle_consensus_message handle_vote
  handles-vote syncing ms cs b is_aggregator = rw (is_aggregator, handle_vote) refl

  handles-finalize :
      (syncing : Bool) (ms : MemoryService) (cs : ConsensusService) (b : Bytes)
      → handles syncing (consensus_message ∷ finalize_message ∷ b) ms cs ≡ (
        ms,
        receive e js self w bc js.finalize_json
            (verify_vote e)
            (accept_finality e js self w bc)
            b
            cs,
      )
  unfolding handle_consensus_message handle_finalize
  handles-finalize syncing ms cs b = refl

  accept_vote-aggregate :
      (msg : VoteMsg) (cs : ConsensusService)
      → contains_func cs.next_validators (λ pk. bytes_eq pk (content msg.by.from_public_key)) ≡ true
      → accept_vote e js self w bc msg cs ≡ aggregate e js self w bc msg.good cs
  unfolding accept_vote
  accept_vote-aggregate msg cs known = rw (known, accept_vote) refl

  accept_finality-finalize :
      (msg : VoteMsg) (cs : ConsensusService)
      → equal msg.by.from_public_key cs.next_aggregator ≡ true
      → accept_finality e js self w bc msg cs ≡ finalize msg.good cs
  unfolding accept_finality
  accept_finality-finalize msg cs known = rw (known, accept_finality) refl

  vote_of-verify_vote :
      IsSigner e signer
      → verify_node from ≡ true
      → (good : Bool) → verify_vote e (vote_of e js from signer sent_at good) ≡ ok true
  unfolding verify_vote
  vote_of-verify_vote signs valid good =
      sign_message-verify_signed e js from signer sent_at signs valid

  -- A vote of a known validator is counted by the aggregator.
  pub handle_vote-aggregate :
      IsFaithful js.vote_json
      → IsSigner e signer
      → verify_node from ≡ true
      → (good syncing : Bool) (ms : MemoryService) (cs : ConsensusService) (b : Bytes)
      → equal cs.next_aggregator w.public_key ≡ true
      → contains_func cs.next_validators (λ pk. bytes_eq pk (content signer.public_key)) ≡ true
      → js.vote_json.marshal (vote_of e js from signer sent_at good) ≡ some b
      → handles syncing (consensus_message ∷ vote_message ∷ b) ms cs
        ≡ (ms, aggregate e js self w bc good cs)
  unfolding sign_message
  handle_vote-aggregate faithful signs valid good syncing ms cs b is_aggregator known made =
      let msg = vote_of e js from signer sent_at good in
      handles-vote syncing ms cs b is_aggregator
      ∙ ap (λ r. (ms, r))
          (receive-acts js.vote_json (verify_vote e) (accept_vote e js self w bc) b msg cs
              (faithful msg b made) (vote_of-verify_vote signs valid good)
            ∙ accept_vote-aggregate msg cs known)

  -- A finality of the aggregator is taken by a validator.
  pub handle_finalize-finalize :
      IsFaithful js.finalize_json
      → IsSigner e signer
      → verify_node from ≡ true
      → (good syncing : Bool) (ms : MemoryService) (cs : ConsensusService) (b : Bytes)
      → equal signer.public_key cs.next_aggregator ≡ true
      → js.finalize_json.marshal (vote_of e js from signer sent_at good) ≡ some b
      → handles syncing (consensus_message ∷ finalize_message ∷ b) ms cs ≡ (ms, finalize good cs)
  unfolding sign_message
  handle_finalize-finalize faithful signs valid good syncing ms cs b known made =
      let msg = vote_of e js from signer sent_at good in
      handles-finalize syncing ms cs b
      ∙ ap (λ r. (ms, r))
          (receive-acts js.finalize_json (verify_vote e) (accept_finality e js self w bc) b msg cs
              (faithful msg b made) (vote_of-verify_vote signs valid good)
            ∙ accept_finality-finalize msg cs known)

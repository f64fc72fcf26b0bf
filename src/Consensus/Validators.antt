-- ===== src/Consensus/Validators.antt =====
-- consensus/: the validators that a node knows, over its handlers.
use mathlib.Core.List.Permᴰ
use mathlib.Core.Path.{subst}
use simple_blockchain_go.Base.{
  All, All-perm, Bool, Bool-cases, Bytes, List, Map, Option-cases, Outcome, Slice, Sort, Sorts, [],
  ap, arith, delete, equal, inl, inr, insert, length, less_by, ok, sym, ℕ, ◌<◌, ◌∙◌, ◌∷◌, ◌≡◌,
}
use simple_blockchain_go.Blockchain.{Blockchain}
use simple_blockchain_go.Common.{public_key_size}
use simple_blockchain_go.Consensus.Committee.{decided}
use simple_blockchain_go.Consensus.Handlers.{
  accept_finality, accept_gossip, accept_start, accept_vote, handle_finalize, handle_gossip,
  handle_start_block_processing, handle_vote, receive,
}
use simple_blockchain_go.Consensus.Keys.{IsApartKeys, perm-IsApartKeys}
use simple_blockchain_go.Consensus.Messages.{
  ConsensusJson, GossipMsg, StartBlockProcessingMsg, VoteMsg, finalize_message, verify_gossip,
  verify_start, verify_vote,
}
use simple_blockchain_go.Consensus.Service.{
  ConsensusService, add_to_next_validators, decide_committee, hash_key, on_peer_disappear,
}
use simple_blockchain_go.Consensus.Steps.{
  IsValidators, add-IsValidators, add_to_bad_peer-IsValidators, broadcast_payload-IsValidators,
  finalize-IsValidators, ignore_error-IsValidators, remove-IsValidators, reset-IsValidators,
  then_run-IsValidators,
}
use simple_blockchain_go.Consensus.Voting.{
  Ended, aggregate, broadcast_finality, broadcast_payload, count_vote, finalize, poll_verdict,
  sign_message,
}
use simple_blockchain_go.Env.{Codec, Env}
use simple_blockchain_go.Executers.Producer.{verify}
use simple_blockchain_go.P2p.Messages.{consensus_message, pack_payload}
use simple_blockchain_go.Types.{NodeInfo}
use simple_blockchain_go.Wallets.{Wallet}

module _ (e : Env) (js : ConsensusJson) (self : NodeInfo) (w : Wallet) (bc : Blockchain) where
  broadcast_finality-IsValidators :
      (good : Bool) (cs : ConsensusService)
      → IsValidators cs
      → IsValidators (broadcast_finality e js self w bc good cs).0
  unfolding broadcast_finality
  broadcast_finality-IsValidators good cs h =
      elim (Bool-cases (equal cs.next_aggregator w.public_key)) [
        | inl here ↦ rw here (
            then_run-IsValidators
              (broadcast_payload
                (pack_payload js.finalize_json
                  (record {
                    by = sign_message e js self w bc;
                    height = bc.next_height;
                    good = good;
                  })
                  (consensus_message ∷ finalize_message ∷ []))
                cs)
              (finalize good) (broadcast_payload-IsValidators _ cs h) (finalize-IsValidators good))
        | inr elsewhere ↦ rw elsewhere h
      ]

  count_vote-IsValidators :
      (good : Bool) (cs : ConsensusService) → IsValidators cs → IsValidators (count_vote good cs)
  unfolding count_vote IsValidators
  count_vote-IsValidators good cs h = h

  pub aggregate-IsValidators :
      (good : Bool) (cs : ConsensusService)
      → IsValidators cs
      → IsValidators (aggregate e js self w bc good cs).0
  unfolding aggregate
  aggregate-IsValidators good cs h =
      let counted = count_vote-IsValidators good cs h in
      let last =
        broadcast_finality e js self w bc (poll_verdict (count_vote good cs))
          (count_vote good cs) in
      ground (
        arith,
        counted,
        ignore_error-IsValidators last (
            broadcast_finality-IsValidators (poll_verdict (count_vote good cs)) (count_vote good cs)
              counted),
      )

  status-IsValidators :
      (m : Map Bool) (cs : ConsensusService)
      → IsValidators cs
      → IsValidators (record cs { peers_status = m })
  unfolding IsValidators
  status-IsValidators m cs h = h

  accept_gossip-IsValidators :
      (msg : GossipMsg) (cs : ConsensusService)
      → IsValidators cs
      → IsValidators (accept_gossip e js self w bc msg cs).0
  unfolding accept_gossip
  accept_gossip-IsValidators msg cs h =
      let m = insert msg.by.from.ip4 msg.is_ready cs.peers_status in
      ground (
        arith,
        remove-IsValidators msg.by.from_public_key cs h,
        add-IsValidators msg.by.from_public_key (record cs { peers_status = m })
            (status-IsValidators m cs h),
      )

  accept_vote-IsValidators :
      (msg : VoteMsg) (cs : ConsensusService)
      → IsValidators cs
      → IsValidators (accept_vote e js self w bc msg cs).0
  unfolding accept_vote
  accept_vote-IsValidators msg cs h = ground (arith, aggregate-IsValidators msg.good cs h)

  accept_finality-IsValidators :
      (msg : VoteMsg) (cs : ConsensusService)
      → IsValidators cs
      → IsValidators (accept_finality e js self w bc msg cs).0
  unfolding accept_finality
  accept_finality-IsValidators msg cs h = ground (
    arith,
    finalize-IsValidators msg.good cs h,
    add_to_bad_peer-IsValidators msg.by.from_public_key cs h,
  )

  accept_start-IsValidators :
      (msg : StartBlockProcessingMsg) (cs : ConsensusService)
      → IsValidators cs
      → IsValidators (accept_start e js self w bc msg cs).0
  unfolding accept_start
  accept_start-IsValidators msg cs h =
      ground (arith, add_to_bad_peer-IsValidators msg.by.from_public_key cs h)

  receive-IsValidators :
      {M : Type 0} (c : Codec M) (verify : M → Outcome Bool) (act : M → ConsensusService → Ended)
      (raw : Bytes) (cs : ConsensusService)
      → ((msg : M) → IsValidators (act msg cs).0)
      → IsValidators cs
      → IsValidators (receive e js self w bc c verify act raw cs).0
  unfolding receive
  receive-IsValidators c verify act raw cs k h = elim (Option-cases (c.unmarshal raw)) [
    | inl unread ↦ ground arith
    | inr (msg, read) ↦ ground (arith, k msg)
  ]

  -- Whatever bytes a gossip, a vote, a finality or a start message holds, its handler keeps the keys
  -- of the validators 32 bytes long and apart, and so does the loss of a peer.
  pub handlers-IsValidators :
      (syncing : Bool) (raw : Bytes) (peer : NodeInfo) (cs : ConsensusService)
      → IsValidators cs
      → IsValidators (handle_gossip e js self w bc syncing raw cs).0
        × IsValidators (handle_vote e js self w bc raw cs).0
        × IsValidators (handle_finalize e js self w bc raw cs).0
        × IsValidators (handle_start_block_processing e js self w bc raw cs).0
        × IsValidators (on_peer_disappear peer cs)
  unfolding handle_gossip handle_vote handle_finalize handle_start_block_processing
      on_peer_disappear
  handlers-IsValidators syncing raw peer cs h =
      let gossip =
        receive-IsValidators js.gossip_json (verify_gossip e) (accept_gossip e js self w bc) raw cs
          (λ msg. accept_gossip-IsValidators msg cs h) h in
      let voted =
        receive-IsValidators js.vote_json (verify_vote e) (accept_vote e js self w bc) raw cs
          (λ msg. accept_vote-IsValidators msg cs h) h in
      (
        ground (arith, gossip),
        ground (arith, voted),
        receive-IsValidators js.finalize_json (verify_vote e) (accept_finality e js self w bc) raw
            cs (λ msg. accept_finality-IsValidators msg cs h) h,
        receive-IsValidators js.start_json (verify_start e) (accept_start e js self w bc) raw cs
            (λ msg. accept_start-IsValidators msg cs h) h,
        reset-IsValidators (record cs { peers_status = delete peer.ip4 cs.peers_status }),
      )

decided_full :
    (e : Env) (sort_keys : Sort Bytes) (next_height : ℕ) (cs cs' : ConsensusService)
    → decide_committee e sort_keys next_height cs ≡ ok cs'
    → 0 < length cs.next_validators
unfolding decide_committee
decided_full e sort_keys next_height cs cs' made = ground arith

-- The choice of a committee, by a sort that keeps the documented promise of SortFunc, and the entry of
-- the node itself keep the keys of the validators 32 bytes long and apart.
pub decide_committee-IsValidators :
    (e : Env) (sort_keys : Sort Bytes) (next_height : ℕ) (pk : Slice) (cs cs' : ConsensusService)
    → Sorts sort_keys (less_by (hash_key e sort_keys))
    → IsValidators cs
    → decide_committee e sort_keys next_height (add_to_next_validators pk cs) ≡ ok cs'
    → IsValidators cs'
unfolding IsValidators
decide_committee-IsValidators e sort_keys next_height pk cs cs' sorts h made =
    let ds = add_to_next_validators pk cs in
    let added = add-IsValidators pk cs h in
    let sorted = Permᴰ.symm (sorts ds.next_validators).0 in
    let (a, made_a, list_a, producer_a, aggregator_a, some_a) =
      decided e sort_keys sorts next_height ds (decided_full e sort_keys next_height ds cs' made) in
    let same : a ≡ cs' = cc in
    let same_list = sym list_a ∙ ap (λ (c : ConsensusService). c.next_validators) same in
    subst (λ (vs : List Bytes). All (λ k. length k ≡ public_key_size) vs × IsApartKeys vs) same_list
      (All-perm (λ k. length k ≡ public_key_size) sorted added.0, perm-IsApartKeys sorted added.1)

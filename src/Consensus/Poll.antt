-- ===== src/Consensus/Poll.antt =====
-- consensus/consensus_service.go: the verdict of a vote.
use mathlib.Core.List.{append-nil}
use simple_blockchain_go.Base.{
  Bool, List, [], ap, arith, equal, false, if◌then◌else◌, length, ltb, refl, suc, sym, true, ℕ, ◌*◌,
  ◌+◌, ◌<◌, ◌==◌, ◌∙◌, ◌∷◌, ◌≡◌,
}
use simple_blockchain_go.Blockchain.{Blockchain}
use simple_blockchain_go.Consensus.Messages.{ConsensusJson}
use simple_blockchain_go.Consensus.Service.{ConsensusService}
use simple_blockchain_go.Consensus.Voting.{
  Ended, aggregate, all_voted, broadcast_finality, count_vote, done, fails, ignore_error, panics,
  poll_verdict, then_run, waits,
}
use simple_blockchain_go.Env.{Env}
use simple_blockchain_go.Executers.Impl.Laws.{total}
use simple_blockchain_go.Types.{NodeInfo}
use simple_blockchain_go.Wallets.{Wallet}

unfoldable pub num_ok : List Bool → ℕ
num_ok [] = 0
num_ok (v ∷ vs) = let rest = num_ok vs in if v then suc rest else rest

unfoldable pub count_all : List Bool → ConsensusService → ConsensusService
unfolding num_ok
count_all vs cs = record cs {
  num_voted = cs.num_voted + length vs;
  num_voted_ok = cs.num_voted_ok + num_ok vs;
}

then_run_done : (r : Ended) → then_run r (λ c. (c, [], done)) ≡ r
unfolding then_run
then_run_done (cs, effects, done) = rw (append-nil effects)
then_run_done (cs, effects, fails x) = refl
then_run_done (cs, effects, panics) = refl
then_run_done (cs, effects, waits) = refl

pub then_run_pure :
    (cs : ConsensusService) (f : ConsensusService → Ended) → then_run (cs, [], done) f ≡ f cs
unfolding then_run
then_run_pure cs f = refl

poll_verdict_lem :
    (cs : ConsensusService)
    → cs.num_voted + 1 ≡ length cs.next_validators
    → poll_verdict cs ≡ ltb cs.num_voted (2 * cs.num_voted_ok)
unfolding poll_verdict
poll_verdict_lem cs h = ground arith

module _ (e : Env) (js : ConsensusJson) (self : NodeInfo) (w : Wallet) (bc : Blockchain) where
  -- The votes that reach the aggregator, its own included, in the order of their calls.
  unfoldable pub poll : List Bool → ConsensusService → Ended
  poll [] cs = (cs, [], done)
  poll (v ∷ vs) cs = then_run (aggregate e js self w bc v cs) (poll vs)

  pub aggregate_early :
      (v : Bool) (cs : ConsensusService)
      → equal cs.next_aggregator w.public_key ≡ true
      → cs.num_voted + 2 < length cs.next_validators
      → aggregate e js self w bc v cs ≡ (count_vote v cs, [], done)
  unfolding aggregate all_voted count_vote
  aggregate_early v cs h early =
      let open_poll : (cs.num_voted + 1 + 1 == length cs.next_validators) ≡ false = ground arith in
      rw (h, open_poll)

  aggregate_last :
      (v : Bool) (cs : ConsensusService)
      → equal cs.next_aggregator w.public_key ≡ true
      → cs.num_voted + 2 ≡ length cs.next_validators
      → aggregate e js self w bc v cs
        ≡ ignore_error
            (broadcast_finality e js self w bc (poll_verdict (count_vote v cs)) (count_vote v cs))
  unfolding aggregate all_voted count_vote
  aggregate_last v cs h last =
      let closed : (cs.num_voted + 1 + 1 == length cs.next_validators) ≡ true = ground arith in
      rw (h, closed)

  count_all-cons :
      (v : Bool) (vs : List Bool) (cs : ConsensusService)
      → count_all vs (count_vote v cs) ≡ count_all (v ∷ vs) cs
  unfolding count_vote count_all num_ok
  count_all-cons v vs cs =
      let voted : cs.num_voted + 1 + length vs ≡ cs.num_voted + suc (length vs) = omega arith in
      let good : (if v then cs.num_voted_ok + 1 else cs.num_voted_ok) + num_ok vs
          ≡ cs.num_voted_ok + (if v then suc (num_ok vs) else num_ok vs) =
        ground arith in
      λ i. record cs { num_voted = voted i; num_voted_ok = good i }

  count_all-nil : (cs : ConsensusService) → count_all [] cs ≡ cs
  unfolding count_all num_ok
  count_all-nil cs =
      let voted : cs.num_voted + 0 ≡ cs.num_voted = omega arith in
      let good : cs.num_voted_ok + 0 ≡ cs.num_voted_ok = omega arith in
      λ i. record cs { num_voted = voted i; num_voted_ok = good i }

  pub count_vote-fields :
      (v : Bool) (cs : ConsensusService)
      → (equal (count_vote v cs).next_aggregator w.public_key
          ≡ equal cs.next_aggregator w.public_key)
        × ((count_vote v cs).num_voted ≡ cs.num_voted + 1)
        × (length (count_vote v cs).next_validators ≡ length cs.next_validators)
  unfolding count_vote
  count_vote-fields v cs = (refl, refl, refl)

  decide_finality : ConsensusService → Ended
  decide_finality cs =
      ignore_error (broadcast_finality e js self w bc (ltb cs.num_voted (2 * cs.num_voted_ok)) cs)

  poll_end :
      (vs : List Bool) (cs : ConsensusService)
      → equal cs.next_aggregator w.public_key ≡ true
      → 0 < length vs
      → cs.num_voted + length vs + 1 ≡ length cs.next_validators
      → poll vs cs ≡ decide_finality (count_all vs cs)
  unfolding poll decide_finality
  poll_end [] cs h pos total = absurd (omega arith)
  poll_end (v ∷ []) cs h pos total =
      let (same, voted, size) = count_vote-fields v cs in
      ap (λ r. then_run r (poll [])) (aggregate_last v cs h (omega arith))
      ∙ then_run_done _
      ∙ ap (λ b. ignore_error (broadcast_finality e js self w bc b (count_vote v cs)))
          (poll_verdict_lem (count_vote v cs) (omega arith))
      ∙ ap decide_finality (sym (count_all-nil (count_vote v cs)) ∙ count_all-cons v [] cs)
  poll_end (v ∷ u ∷ vs) cs h pos total =
      let (same, voted, size) = count_vote-fields v cs in
      ap (λ r. then_run r (poll (u ∷ vs))) (aggregate_early v cs h (omega arith))
      ∙ then_run_pure (count_vote v cs) (poll (u ∷ vs))
      ∙ poll_end (u ∷ vs) (count_vote v cs) (same ∙ h) (omega arith) (omega arith)
      ∙ ap decide_finality (count_all-cons v (u ∷ vs) cs)

  -- At the aggregator, over the votes that are missing up to one less than the number of validators:
  -- the last vote starts `broadcastFinality`, and the votes before it only count. The verdict is yes
  -- exactly if more than half of all the votes counted are yes.
  pub poll_lem :
      (vs : List Bool) (cs : ConsensusService)
      → equal cs.next_aggregator w.public_key ≡ true
      → 0 < length vs
      → cs.num_voted + length vs + 1 ≡ length cs.next_validators
      → let cs' = count_all vs cs in
        poll vs cs
        ≡ ignore_error
            (broadcast_finality e js self w bc (ltb cs'.num_voted (2 * cs'.num_voted_ok)) cs')
  unfolding decide_finality
  poll_lem vs cs h pos total = poll_end vs cs h pos total

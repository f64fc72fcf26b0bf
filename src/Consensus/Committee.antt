-- ===== src/Consensus/Committee.antt =====
-- consensus/consensus_service.go: `decideCommittee` on different nodes.
use mathlib.Core.List.{Permᴰ}
use native.Mathlib.Nat.{mod-lt}
use simple_blockchain_go.Base.{
  All, Bytes, List, Sort, Sorts, [], ap, arith, false, get_elem?, length, length_of_perm, less_by,
  ok, refl, some, sort-perm, suc, sym, true, zero, ℕ, ◌%◌, ◌+◌, ◌<◌, ◌==◌, ◌∙◌, ◌∷◌, ◌≡◌,
}
use simple_blockchain_go.Consensus.Service.{ConsensusService, decide_committee, hash_key, ready}
use simple_blockchain_go.Env.{Env}

get_elem?-some :
    {A : Type 0} (xs : List A) (i : ℕ) → i < length xs → (x : A) × (get_elem? xs i ≡ some x)
get_elem?-some [] i h = absurd (omega arith)
get_elem?-some (x ∷ xs) zero h = (x, refl)
get_elem?-some (x ∷ xs) (suc i) h = get_elem?-some xs i (omega arith)

module _ (e : Env) (sort_keys : Sort Bytes)
    (sorts : Sorts sort_keys (less_by (hash_key e sort_keys))) where
  pub decided :
      (next_height : ℕ) (cs : ConsensusService)
      → 0 < length cs.next_validators
      → (a : ConsensusService) × (decide_committee e sort_keys next_height cs ≡ ok a)
        × (a.next_validators ≡ sort_keys (less_by (hash_key e sort_keys)) cs.next_validators)
        × (a.next_block_producer
            ≡ get_elem? a.next_validators (next_height % length a.next_validators))
        × (a.next_aggregator
            ≡ get_elem? a.next_validators
                ((next_height % length a.next_validators + 1) % length a.next_validators))
        × (0 < length a.next_validators)
  unfolding decide_committee
  decided next_height cs h =
      let full : (length cs.next_validators == 0) ≡ false = ground arith in
      let size = length_of_perm (sorts cs.next_validators).0 in
      let validators = sort_keys (less_by (hash_key e sort_keys)) cs.next_validators in
      let producer = next_height % length validators in
      (
        record cs {
          next_validators = validators;
          next_block_producer = get_elem? validators producer;
          next_aggregator = get_elem? validators ((producer + 1) % length validators);
        },
        rw full,
        refl,
        refl,
        refl,
        omega arith,
      )

  -- Two nodes at one height that know the same validators, at least one, in any order, sort them alike
  -- and choose the same producer and the same aggregator, neither nil, where the hashes tell the
  -- validators apart and the sort does what SortFunc documents.
  pub decide_committee-perm :
      (P : Bytes → Type 0)
      → ((a b : Bytes) → P a → P b → hash_key e sort_keys a ≡ hash_key e sort_keys b → a ≡ b)
      → (next_height : ℕ) (cs ds : ConsensusService) → All P cs.next_validators
      → Permᴰ cs.next_validators ds.next_validators
      → 0 < length cs.next_validators
      → (a : ConsensusService) × (b : ConsensusService) × (decide_committee e sort_keys next_height
            cs
          ≡ ok a)
        × (decide_committee e sort_keys next_height ds ≡ ok b)
        × (a.next_validators ≡ b.next_validators)
        × (a.next_block_producer ≡ b.next_block_producer)
        × (a.next_aggregator ≡ b.next_aggregator)
        × (ready a ≡ true)
  unfolding ready
  decide_committee-perm P apart next_height cs ds all_P perm h =
      let (a, made_a, list_a, producer_a, aggregator_a, some_a) = decided next_height cs h in
      let (b, made_b, list_b, producer_b, aggregator_b, some_b) =
        decided next_height ds (rw (length_of_perm perm) at h) in
      let same : a.next_validators ≡ b.next_validators =
        list_a ∙ sort-perm (hash_key e sort_keys) P apart sort_keys sorts perm all_P ∙ sym list_b in
      let n = length a.next_validators in
      let (p, at_p) =
        get_elem?-some a.next_validators (next_height % n) (mod-lt next_height some_a) in
      let (q, at_q) =
        get_elem?-some a.next_validators ((next_height % n + 1) % n)
          (mod-lt (next_height % n + 1) some_a) in
      (
        a,
        b,
        made_a,
        made_b,
        same,
        producer_a
            ∙ ap (λ (vs : List Bytes). get_elem? vs (next_height % length vs)) same
            ∙ sym producer_b,
        aggregator_a
            ∙ ap (λ (vs : List Bytes). get_elem? vs ((next_height % length vs + 1) % length vs))
                same
            ∙ sym aggregator_b,
        rw (producer_a, aggregator_a, at_p, at_q),
      )

-- ===== src/Consensus/Again.antt =====
-- consensus/handlers.go: one vote that arrives more than once.
use simple_blockchain_go.Base.{
  Bool, Bytes, Slice, Sort, [], ap, arith, bytes_eq, contains_func, content, equal, false,
  if◌then◌else◌, length, length-replicate, ltb, refl, replicate, some, suc, sym, true, zero, ℕ, ◌*◌,
  ◌+◌, ◌<◌, ◌∙◌, ◌∷◌, ◌≡◌,
}
use simple_blockchain_go.Blockchain.{Blockchain}
use simple_blockchain_go.Consensus.Exchange.{IsSigner, handle_vote-aggregate, vote_of}
use simple_blockchain_go.Consensus.Handlers.{handle_consensus_message}
use simple_blockchain_go.Consensus.Messages.{ConsensusJson, vote_message}
use simple_blockchain_go.Consensus.Poll.{
  aggregate_early, count_all, count_vote-fields, num_ok, poll, poll_lem, then_run_pure,
}
use simple_blockchain_go.Consensus.Service.{ConsensusService}
use simple_blockchain_go.Consensus.Voting.{
  Ended, broadcast_finality, count_vote, done, ignore_error, then_run,
}
use simple_blockchain_go.Env.{Env, IsFaithful}
use simple_blockchain_go.Executers.Impl.Laws.{total}
use simple_blockchain_go.Memory.Service.{MemoryService}
use simple_blockchain_go.Merkle.{MerkleNode}
use simple_blockchain_go.P2p.Messages.{consensus_message, verify_node}
use simple_blockchain_go.Storage.Bolt.{Bolt}
use simple_blockchain_go.Types.{NodeInfo}
use simple_blockchain_go.Wallets.{Wallet}

num_ok-replicate : (n : ℕ) (good : Bool) → num_ok (replicate n good) ≡ (if good then n else 0)
unfolding num_ok
num_ok-replicate zero true = refl
num_ok-replicate zero false = refl
num_ok-replicate (suc n) true = ap suc (num_ok-replicate n true)
num_ok-replicate (suc n) false = num_ok-replicate n false

-- The verdict on as many equal votes.
verdict_same :
    (n : ℕ) (good : Bool) (cs : ConsensusService)
    → 0 < n
    → cs.num_voted ≡ 0
    → cs.num_voted_ok ≡ 0
    → let cs' = count_all (replicate n good) cs in ltb cs'.num_voted (2 * cs'.num_voted_ok) ≡ good
unfolding count_all
verdict_same n true cs pos none_yet none_ok =
    ground (arith, length-replicate n true, num_ok-replicate n true)
verdict_same n false cs pos none_yet none_ok =
    ground (arith, length-replicate n false, num_ok-replicate n false)

module _ (e : Env) (js : ConsensusJson) (from : NodeInfo) (signer : Wallet) (sent_at : Blockchain)
    (self : NodeInfo) (w : Wallet) (bc : Blockchain) (bolt : Bolt) (sort_nodes : Sort MerkleNode)
    (generator : Slice) (db : bolt.Db) where
  -- The same message taken so many times, each time after the other.
  unfoldable pub take_again : Bool → MemoryService → Bytes → ℕ → ConsensusService → Ended
  take_again syncing ms raw zero cs = (cs, [], done)
  take_again syncing ms raw (suc n) cs =
      then_run
        (handle_consensus_message e js self w bc bolt sort_nodes generator db syncing raw ms cs).1
        (take_again syncing ms raw n)

  count_vote-known :
      (v : Bool) (cs : ConsensusService) (pk : Bytes)
      → contains_func cs.next_validators (λ k. bytes_eq k pk) ≡ true
      → contains_func (count_vote v cs).next_validators (λ k. bytes_eq k pk) ≡ true
  unfolding count_vote
  count_vote-known v cs pk h = h

  take_again-poll :
      IsFaithful js.vote_json
      → IsSigner e signer
      → verify_node from ≡ true
      → (good syncing : Bool) (ms : MemoryService) (b : Bytes) (n : ℕ) (cs : ConsensusService)
      → js.vote_json.marshal (vote_of e js from signer sent_at good) ≡ some b
      → equal cs.next_aggregator w.public_key ≡ true
      → contains_func cs.next_validators (λ pk. bytes_eq pk (content signer.public_key)) ≡ true
      → cs.num_voted + n + 1 ≡ length cs.next_validators
      → take_again syncing ms (consensus_message ∷ vote_message ∷ b) n cs
        ≡ poll e js self w bc (replicate n good) cs
  unfolding take_again poll
  take_again-poll faithful signs valid good syncing ms b zero cs made is_aggregator known total =
      refl
  take_again-poll faithful signs valid good syncing ms b (suc zero) cs made is_aggregator known
        total =
      ap
        (λ (r : MemoryService × Ended).
          then_run r.1 (take_again syncing ms (consensus_message ∷ vote_message ∷ b) zero))
        (handle_vote-aggregate e js from signer sent_at self w bc bolt sort_nodes generator db
          faithful signs valid good syncing ms cs b is_aggregator known made)
  take_again-poll faithful signs valid good syncing ms b (suc (suc n)) cs made is_aggregator known
        total =
      let (same, voted, size) = count_vote-fields e js self w bc good cs in
      let early = aggregate_early e js self w bc good cs is_aggregator (omega arith) in
      let raw = consensus_message ∷ vote_message ∷ b in
      ap (λ (r : MemoryService × Ended). then_run r.1 (take_again syncing ms raw (suc n)))
        (handle_vote-aggregate e js from signer sent_at self w bc bolt sort_nodes generator db
          faithful signs valid good syncing ms cs b is_aggregator known made)
      ∙ ap (λ r. then_run r (take_again syncing ms raw (suc n))) early
      ∙ then_run_pure (count_vote good cs) (take_again syncing ms raw (suc n))
      ∙ take_again-poll faithful signs valid good syncing ms b (suc n) (count_vote good cs) made
          (same ∙ is_aggregator) (count_vote-known good cs (content signer.public_key) known)
          (omega arith)
      ∙ sym (
          ap (λ r. then_run r (poll e js self w bc (replicate (suc n) good))) early
          ∙ then_run_pure (count_vote good cs) (poll e js self w bc (replicate (suc n) good)))

  -- Before any vote is counted, the vote of one known validator, taken as many times as the aggregator
  -- asks for votes, at least once, decides the block: the aggregator starts `broadcastFinality` with that
  -- vote for the verdict. The validator has a valid address and key pair, and the JSON of votes is read as
  -- it was written.
  pub take_again-broadcast_finality :
      IsFaithful js.vote_json
      → IsSigner e signer
      → verify_node from ≡ true
      → (good syncing : Bool) (ms : MemoryService) (b : Bytes) (n : ℕ) (cs : ConsensusService)
      → js.vote_json.marshal (vote_of e js from signer sent_at good) ≡ some b
      → equal cs.next_aggregator w.public_key ≡ true
      → contains_func cs.next_validators (λ pk. bytes_eq pk (content signer.public_key)) ≡ true
      → cs.num_voted ≡ 0
      → cs.num_voted_ok ≡ 0
      → 0 < n
      → n + 1 ≡ length cs.next_validators
      → take_again syncing ms (consensus_message ∷ vote_message ∷ b) n cs
        ≡ ignore_error (broadcast_finality e js self w bc good (count_all (replicate n good) cs))
  take_again-broadcast_finality faithful signs valid good syncing ms b n cs made is_aggregator known
        none_yet none_ok pos total =
      let size = length-replicate n good in
      take_again-poll faithful signs valid good syncing ms b n cs made is_aggregator known
        (omega arith)
      ∙ poll_lem e js self w bc (replicate n good) cs is_aggregator (omega arith) (omega arith)
      ∙ ap
          (λ verdict.
            ignore_error
              (broadcast_finality e js self w bc verdict (count_all (replicate n good) cs)))
          (verdict_same n good cs pos none_yet none_ok)

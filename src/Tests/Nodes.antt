-- ===== src/Tests/Nodes.antt =====
-- The theorems on the peers and the consensus at concrete inputs.
use mathlib.Core.List.{Permᴰ}
use simple_blockchain_go.Base.{
  Bytes, List, Sort, Sorts, [], ap, arith, bytes_eq, bytes_eq_self, content, equal, false, inl, inr,
  insertion_sort, insertion_sort-Sorts, less_by, ltb, ltb→lt, ok, panic, refl, replicate, some, sym,
  true, ℕ, ◌*◌, ◌++◌, ◌∙◌, ◌∷◌, ◌≡◌, ◌≢◌, ◌⊎◌,
}
use simple_blockchain_go.Consensus.Committee.{decide_committee-perm}
use simple_blockchain_go.Consensus.Crash.{verify_signed_lem}
use simple_blockchain_go.Consensus.Dispatch.{handle_consensus_message-IsValidators}
use simple_blockchain_go.Consensus.Handlers.{handle_consensus_message}
use simple_blockchain_go.Consensus.Messages.{
  ConsensusJson, GossipMsg, ProposeBlockMsg, Signed, StartBlockProcessingMsg, VoteMsg,
  consensus_msg_sig_content, gossip_message, verify_signed,
}
use simple_blockchain_go.Consensus.Poll.{count_all, poll, poll_lem}
use simple_blockchain_go.Consensus.Service.{
  ConsensusService, decide_committee, hash_key, new_consensus_service, ready,
}
use simple_blockchain_go.Consensus.Steps.{IsValidators}
use simple_blockchain_go.Consensus.Voting.{broadcast_finality, ignore_error}
use simple_blockchain_go.Memory.Db.{big_int}
use simple_blockchain_go.P2p.Laws.{broadcast_lem, reaches}
use simple_blockchain_go.P2p.Messages.{consensus_message, is_same_ip, localhost, verify_node}
use simple_blockchain_go.P2p.Service.{P2pService, broadcast, knows_peer}
use simple_blockchain_go.Tests.Data.{
  alice, bob, chain, codec, empty_block, empty_db, env, full_pool, key_of, node_sort, test_bolt,
  test_hash, wallet,
}
use simple_blockchain_go.Types.{NodeInfo, Transaction}

abbrev pub node_at : ℕ → NodeInfo
node_at n = record { ip4 = localhost ++ replicate 4 n; network = 2 }

abbrev pub test_peers : P2pService
test_peers = record { info = node_at 48; peers = node_at 49 ∷ node_at 50 ∷ [] }

broadcast_lem_example :
    reaches (node_at 49) (broadcast (7 ∷ []) (node_at 49 ∷ node_at 50 ∷ []) test_peers) ≡ true
unfolding bytes_eq
broadcast_lem_example =
    (broadcast_lem (7 ∷ []) test_peers).2 (node_at 49) (node_at 50) (node_at 49) apart known
  where
    apart : is_same_ip (node_at 49) (node_at 50) ≡ false
    apart = refl

    known : knows_peer test_peers.peers (node_at 49) ≡ true
    known = refl

abbrev key_sort : Sort Bytes
key_sort less keys = insertion_sort (λ k. big_int 0 (test_hash k)) keys

key_sort-Sorts : Sorts key_sort (less_by (hash_key env key_sort))
key_sort-Sorts keys = insertion_sort-Sorts (hash_key env key_sort) keys

abbrev with_validators : List Bytes → ConsensusService
with_validators keys = record new_consensus_service { next_validators = keys }

-- The keys of the two validators.
abbrev IsValidatorKey : Bytes → Type 0
IsValidatorKey k = (k ≡ alice) ⊎ (k ≡ bob)

keys_lt : ltb (hash_key env key_sort alice) (hash_key env key_sort bob) ≡ true
unfolding big_int
keys_lt = refl

keys_apart :
    (a b : Bytes)
    → IsValidatorKey a
    → IsValidatorKey b
    → hash_key env key_sort a ≡ hash_key env key_sort b
    → a ≡ b
keys_apart a b (inl p) (inl q) h = p ∙ sym q
keys_apart a b (inl p) (inr q) h =
    absurd (differ (ap (hash_key env key_sort) (sym p) ∙ h ∙ ap (hash_key env key_sort) q))
  where
    differ : hash_key env key_sort alice ≢ hash_key env key_sort bob
    differ e =
        omega (arith, ltb→lt (hash_key env key_sort alice) (hash_key env key_sort bob) keys_lt)
keys_apart a b (inr p) (inl q) h =
    absurd (differ (ap (hash_key env key_sort) (sym p) ∙ h ∙ ap (hash_key env key_sort) q))
  where
    differ : hash_key env key_sort bob ≢ hash_key env key_sort alice
    differ e =
        omega (arith, ltb→lt (hash_key env key_sort alice) (hash_key env key_sort bob) keys_lt)
keys_apart a b (inr p) (inr q) h = p ∙ sym q

decide_committee-perm_example :
    (a : ConsensusService) × (b : ConsensusService) × (decide_committee env key_sort 3
        (with_validators (alice ∷ bob ∷ []))
      ≡ ok a)
    × (decide_committee env key_sort 3 (with_validators (bob ∷ alice ∷ [])) ≡ ok b)
    × (a.next_validators ≡ b.next_validators)
    × (a.next_block_producer ≡ b.next_block_producer)
    × (a.next_aggregator ≡ b.next_aggregator)
    × (ready a ≡ true)
decide_committee-perm_example =
    decide_committee-perm env key_sort key_sort-Sorts IsValidatorKey keys_apart 3
      (with_validators (alice ∷ bob ∷ [])) (with_validators (bob ∷ alice ∷ []))
      (inl refl, (inr refl, tt)) (Permᴰ.swap refl refl) (omega arith)

two_keys-IsValidators : IsValidators (with_validators (alice ∷ bob ∷ []))
unfolding IsValidators bytes_eq
two_keys-IsValidators = ((refl, (refl, tt)), (refl, (refl, tt)))

abbrev sign_fields : Signed → Bytes
sign_fields s = content s.from_public_key

abbrev read_signed : Bytes → Signed
read_signed b = record {
  from = node_at 49;
  from_public_key = some b;
  signature = some (b ++ consensus_msg_sig_content);
}

abbrev consensus_json : ConsensusJson
consensus_json = record {
  gossip_json =
      codec (λ (m : GossipMsg). sign_fields m.by)
        (λ b. some (record {
          by = read_signed b;
          is_syncing = false;
          is_ready = true;
          next_height = 1;
          next_epoch = 0;
          next_slot = 1;
          bad_nodes = [];
        }));
  start_json =
      codec (λ (m : StartBlockProcessingMsg). sign_fields m.by)
        (λ b.
          some (record {
            by = read_signed b;
            next_block_producer = some b;
            next_aggregator = some b;
          }));
  propose_json =
      codec (λ (m : ProposeBlockMsg). sign_fields m.by)
        (λ b. some (record { by = read_signed b; block = empty_block }));
  vote_json =
      codec (λ (m : VoteMsg). sign_fields m.by)
        (λ b. some (record { by = read_signed b; height = 1; good = true }));
  finalize_json =
      codec (λ (m : VoteMsg). sign_fields m.by)
        (λ b. some (record { by = read_signed b; height = 1; good = true }));
}

-- The service of the aggregator of three validators, whose timer runs.
abbrev aggregator_service : ConsensusService
aggregator_service = record (with_validators (alice ∷ bob ∷ key_of 3 ∷ [])) {
  next_aggregator = some alice;
  next_block_producer = some bob;
  finalize_ch = some true;
  waiting_finality = true;
}

abbrev after_votes : ConsensusService
after_votes = count_all (true ∷ false ∷ []) aggregator_service

poll_lem_example :
    poll env consensus_json (node_at 48) wallet chain (true ∷ false ∷ []) aggregator_service
    ≡ ignore_error (
        broadcast_finality env consensus_json
          (node_at 48)
          wallet
          chain
          (ltb after_votes.num_voted (2 * after_votes.num_voted_ok))
          after_votes)
poll_lem_example =
    poll_lem env consensus_json (node_at 48) wallet chain (true ∷ false ∷ []) aggregator_service
      alice_aggregates (omega arith) refl
  where
    alice_aggregates : equal (some alice) (some alice) ≡ true
    alice_aggregates = bytes_eq_self alice

abbrev test_sort : Sort Transaction
test_sort less txs = insertion_sort (λ t. t.inner_data.nonce) txs

abbrev short_key : Signed
short_key = record { from = node_at 49; from_public_key = some (1 ∷ []); signature = some (1 ∷ []) }

short_key_from : verify_node short_key.from ≡ true
unfolding verify_node bytes_eq
short_key_from = refl

verify_signed_lem_example : verify_signed env short_key ≡ panic
verify_signed_lem_example = (verify_signed_lem env short_key).2 short_key_from (omega arith)

handle_consensus_message-IsValidators_example :
    IsValidators
      (handle_consensus_message env consensus_json
        (node_at 48)
        wallet
        chain
        test_bolt
        node_sort
        (some (key_of 7))
        empty_db
        false
        (consensus_message ∷ gossip_message ∷ key_of 3)
        full_pool
        (with_validators (alice ∷ bob ∷ []))).1.0
handle_consensus_message-IsValidators_example =
    handle_consensus_message-IsValidators env consensus_json (node_at 48) wallet chain test_bolt
      node_sort (some (key_of 7)) empty_db false (consensus_message ∷ gossip_message ∷ key_of 3)
      full_pool (with_validators (alice ∷ bob ∷ [])) two_keys-IsValidators

-- ===== src/Tests/Votes.antt =====
-- The theorem on a vote and its finality at a concrete input.
-- Votes whose key and signature are there, with the lengths of the strings ahead.
use simple_blockchain_go.Base.{
  Bool, Bytes, Option, Slice, [], ap, arith, bytes_eq, bytes_eq_self, contains_func, content, drop,
  drop-append, equal, false, if◌then◌else◌, length, length-append, none, refl, some, sym, take,
  take-append, true, ℕ, ◌++◌, ◌==◌, ◌∙◌, ◌∷◌, ◌≡◌,
}
use simple_blockchain_go.Consensus.Again.{take_again, take_again-broadcast_finality}
use simple_blockchain_go.Consensus.Exchange.{IsSigner, vote_of}
use simple_blockchain_go.Consensus.Messages.{ConsensusJson, VoteMsg, vote_message}
use simple_blockchain_go.Consensus.Poll.{count_all}
use simple_blockchain_go.Consensus.Round.{vote_round}
use simple_blockchain_go.Consensus.Service.{ConsensusService, new_consensus_service}
use simple_blockchain_go.Consensus.Voting.{
  broadcast_finality, broadcasts, ignore_error, sign_message, vote,
}
use simple_blockchain_go.Env.{Codec, IsFaithful}
use simple_blockchain_go.P2p.Messages.{consensus_message, verify_node}
use simple_blockchain_go.Tests.Data.{
  alice, bob, chain, codec, empty_db, env, full_pool, key_of, node_sort, test_bolt, wallet,
}
use simple_blockchain_go.Tests.Nodes.{node_at}
use simple_blockchain_go.Types.{NodeInfo}
use simple_blockchain_go.Wallets.{Wallet}

abbrev write_vote : Bool → ℕ → NodeInfo → Slice → Slice → Option Bytes
write_vote good height from (some k) (some s) = some (
    (if good then 1 else 0)
    ∷ height
    ∷ from.network
    ∷ length from.ip4
    ∷ (from.ip4 ++ length k ∷ (k ++ s)))
write_vote good height from k s = none

abbrev vote_with : ℕ → ℕ → NodeInfo → Slice → Slice → VoteMsg
vote_with good height from k s = record {
  by = record { from = from; from_public_key = k; signature = s };
  height = height;
  good = good == 1;
}

abbrev read_key : ℕ → ℕ → NodeInfo → Bytes → Option VoteMsg
read_key good height from [] = none
read_key good height from (n ∷ l) =
    some (vote_with good height from (some (take n l)) (some (drop n l)))

abbrev read_vote : Bytes → Option VoteMsg
read_vote (good ∷ height ∷ network ∷ n ∷ l) =
    read_key good height (record { ip4 = take n l; network = network }) (drop n l)
read_vote _ = none

abbrev vote_codec : Codec VoteMsg
vote_codec = record {
  marshal = λ v. write_vote v.good v.height v.by.from v.by.from_public_key v.by.signature;
  unmarshal = read_vote;
}

is_one : (good : Bool) → ((if good then 1 else 0) == 1) ≡ good
is_one true = refl
is_one false = refl

faithful_vote :
    (good : Bool) (height : ℕ) (from : NodeInfo) (k s : Slice) (b : Bytes)
    → write_vote good height from k s ≡ some b
    → read_vote b
      ≡ some (record {
        by = record { from = from; from_public_key = k; signature = s };
        height = height;
        good = good;
      })
faithful_vote good height from none s b h = cc
faithful_vote good height from (some k) none b h = cc
faithful_vote good height from (some k) (some s) b h =
    let same : (if good then 1 else 0)
          ∷ height
          ∷ from.network
          ∷ length from.ip4
          ∷ (from.ip4 ++ length k ∷ (k ++ s))
        ≡ b =
      cc in
    ap read_vote (sym same)
    ∙ rw
        (
          take-append from.ip4 (length k ∷ (k ++ s)),
          drop-append from.ip4 (length k ∷ (k ++ s)),
          take-append k s,
          drop-append k s,
          is_one good,
        )
        refl

vote_codec-IsFaithful : IsFaithful vote_codec
vote_codec-IsFaithful v b h =
    faithful_vote v.good v.height v.by.from v.by.from_public_key v.by.signature b h

abbrev unread : {M : Type 0} → Codec M
unread = codec (λ m. []) (λ b. none)

abbrev consensus_json : ConsensusJson
consensus_json = record {
  gossip_json = unread;
  start_json = unread;
  propose_json = unread;
  vote_json = vote_codec;
  finalize_json = vote_codec;
}

abbrev bob_wallet : Wallet
bob_wallet = record { private_key = bob; public_key = some bob; nonce = 0; balance = 0 }

wallet-IsSigner : IsSigner env wallet
wallet-IsSigner = record {
  sized = refl;
  verifies = λ m. bytes_eq_self (alice ++ m);
  not_empty = λ m. omega (arith, length-append alice m);
}

bob_wallet-IsSigner : IsSigner env bob_wallet
bob_wallet-IsSigner = record {
  sized = refl;
  verifies = λ m. bytes_eq_self (bob ++ m);
  not_empty = λ m. omega (arith, length-append bob m);
}

valid_nodes : (verify_node (node_at 49) ≡ true) × (verify_node (node_at 50) ≡ true)
unfolding bytes_eq verify_node
valid_nodes = (refl, refl)

-- The validator Alice and the aggregator Bob.
abbrev validator_state : ConsensusService
validator_state = record new_consensus_service {
  next_aggregator = some bob;
  account_ch = some (some alice ∷ []);
}

abbrev aggregator_state : ConsensusService
aggregator_state = record new_consensus_service {
  next_aggregator = some bob;
  next_validators = alice ∷ bob ∷ [];
  finalize_ch = some true;
}

abbrev yes_vote : Bytes
yes_vote = content (vote_codec.marshal (vote_of env consensus_json (node_at 49) wallet chain true))

abbrev yes_final : Bytes
yes_final =
    content (vote_codec.marshal (vote_of env consensus_json (node_at 50) bob_wallet chain true))

yes_made :
    (vote_codec.marshal (vote_of env consensus_json (node_at 49) wallet chain true) ≡ some yes_vote)
    × (vote_codec.marshal (vote_of env consensus_json (node_at 50) bob_wallet chain true)
        ≡ some yes_final)
unfolding sign_message
yes_made = (refl, refl)

roles :
    (equal (some bob) (some alice) ≡ false)
    × (equal (some bob) (some bob) ≡ true)
    × (contains_func (alice ∷ bob ∷ []) (λ pk. bytes_eq pk alice) ≡ true)
unfolding bytes_eq
roles = (refl, refl, refl)

vote_round_example :
    (vote env consensus_json (node_at 49) wallet chain true validator_state).1
    ≡ broadcasts (consensus_message ∷ vote_message ∷ yes_vote) ∷ []
vote_round_example =
    (vote_round env consensus_json (node_at 49) (node_at 50) wallet bob_wallet chain chain test_bolt
      node_sort none empty_db empty_db vote_codec-IsFaithful vote_codec-IsFaithful wallet-IsSigner
      bob_wallet-IsSigner valid_nodes.0 valid_nodes.1 true true false full_pool full_pool
      validator_state aggregator_state yes_vote yes_final roles.0 roles.1 roles.1 roles.2 refl
      yes_made.0 yes_made.1).0

-- The aggregator of three validators, before any vote.
abbrev asking_state : ConsensusService
asking_state = record new_consensus_service {
  next_aggregator = some bob;
  next_validators = alice ∷ bob ∷ key_of 3 ∷ [];
  finalize_ch = some true;
}

alice_known : contains_func (alice ∷ bob ∷ key_of 3 ∷ []) (λ pk. bytes_eq pk alice) ≡ true
unfolding bytes_eq
alice_known = refl

take_again-broadcast_finality_example :
    take_again env consensus_json
      (node_at 49)
      wallet
      chain
      (node_at 50)
      bob_wallet
      chain
      test_bolt
      node_sort
      none
      empty_db
      false
      full_pool
      (consensus_message ∷ vote_message ∷ yes_vote)
      2
      asking_state
    ≡ ignore_error (
        broadcast_finality env consensus_json
          (node_at 50)
          bob_wallet
          chain
          true
          (count_all (true ∷ true ∷ []) asking_state))
take_again-broadcast_finality_example =
    take_again-broadcast_finality env consensus_json (node_at 49) wallet chain (node_at 50)
      bob_wallet chain test_bolt node_sort none empty_db vote_codec-IsFaithful wallet-IsSigner
      valid_nodes.0 true false full_pool yes_vote 2 asking_state yes_made.0 roles.1 alice_known refl
      refl (omega arith) refl

-- ===== src/Consensus/Service.antt =====
-- consensus/consensus_service.go: the state of the service, its validators and their committee.
use simple_blockchain_go.Base.{
  Bool, Bytes, List, Map, Option, Outcome, Slice, Sort, [], all, bytes_eq, contains_func, content,
  delete, delete_first, false, get_elem?, if◌then◌else◌, len, length, less_by, none, not_nil, ok,
  panic, ℕ, ◌%◌, ◌&&◌, ◌++◌, ◌+◌, ◌==◌, ◌∷◌,
}
use simple_blockchain_go.Common.{public_key_size}
use simple_blockchain_go.Env.{Env}
use simple_blockchain_go.Memory.Db.{big_int}
use simple_blockchain_go.Types.{Block, NodeInfo}

pub record ConsensusService : Type 0 where
  pub next_validators : List Bytes
  pub next_block_producer : Slice
  pub next_aggregator : Slice
  pub finalize_ch : Option Bool  -- nil, or whether `timeout` still waits to receive
  pub account_ch : Option (List Slice)  -- nil, or the keys that `afterFinality` will treat
  pub block_ch : Option Block  -- nil, or the block that `waitForFinality` will treat
  pub num_voted : ℕ
  pub num_voted_ok : ℕ
  pub waiting_finality : Bool
  pub peers_status : Map Bool
  pub bad_peers : List Bytes

-- `NewConsensusService`, its state.
abbrev pub new_consensus_service : ConsensusService
new_consensus_service = record {
  next_validators = [];
  next_block_producer = none;
  next_aggregator = none;
  finalize_ch = none;
  account_ch = none;
  block_ch = none;
  num_voted = 0;
  num_voted_ok = 0;
  waiting_finality = false;
  peers_status = [];
  bad_peers = [];
}

-- `reset`
unfoldable pub reset : ConsensusService → ConsensusService
reset cs = record cs {
  next_validators = [];
  next_block_producer = none;
  next_aggregator = none;
  finalize_ch = none;
  account_ch = none;
  block_ch = none;
  num_voted = 0;
  num_voted_ok = 0;
  waiting_finality = false;
}

-- `onPeerDisapear`
unfoldable pub on_peer_disappear : NodeInfo → ConsensusService → ConsensusService
unfolding reset
on_peer_disappear n cs = reset (record cs { peers_status = delete n.ip4 cs.peers_status })

-- `removeFromNextValidators`
unfoldable pub remove_from_next_validators : Slice → ConsensusService → ConsensusService
remove_from_next_validators pk cs =
    if len pk == public_key_size
    then record cs { next_validators = delete_first cs.next_validators (bytes_eq (content pk)) }
    else cs

-- `addToNextValidators`
unfoldable pub add_to_next_validators : Slice → ConsensusService → ConsensusService
add_to_next_validators pk cs =
    if len pk == public_key_size
    then if contains_func cs.next_validators (bytes_eq (content pk))
      then cs
      else record cs { next_validators = cs.next_validators ++ content pk ∷ [] }
    else cs

-- `addToBadPeer`
unfoldable pub add_to_bad_peer : Slice → ConsensusService → ConsensusService
add_to_bad_peer pk cs =
    if len pk == public_key_size
    then if contains_func cs.bad_peers (bytes_eq (content pk))
      then cs
      else record cs { bad_peers = cs.bad_peers ++ content pk ∷ [] }
    else cs

-- `ready`
unfoldable pub ready : ConsensusService → Bool
ready cs = not_nil cs.next_block_producer && not_nil cs.next_aggregator

-- `allPeerReady`
unfoldable pub all_peer_ready : ConsensusService → Bool
all_peer_ready cs = all cs.peers_status (λ s. s.1)

module _ (e : Env) (sort_keys : Sort Bytes) where
  -- What the comparison of `decideCommittee` compares.
  abbrev pub hash_key : Bytes → ℕ
  hash_key a = big_int 0 (e.sum256 a)

  -- `decideCommittee`, at the next height. With no validators it divides by zero.
  unfoldable pub decide_committee : ℕ → ConsensusService → Outcome ConsensusService
  decide_committee next_height cs =
      if length cs.next_validators == 0
      then panic
      else (let validators = sort_keys (less_by hash_key) cs.next_validators in
          let producer = next_height % length validators in
          let aggregator = (producer + 1) % length validators in
          ok (record cs {
            next_validators = validators;
            next_block_producer = get_elem? validators producer;
            next_aggregator = get_elem? validators aggregator;
          }))

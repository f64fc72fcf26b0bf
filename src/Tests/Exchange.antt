-- ===== src/Tests/Exchange.antt =====
-- The theorems on block requests, the restart, the clients, the first block and the storage of accounts
-- at concrete inputs.
use simple_blockchain_go.Storage.Service.{get as get_from_storage, put as put_in_storage}
use simple_blockchain_go.Base.{
  All, Bytes, List, Slice, [], ap, arith, bytes_eq, content, false, length, none, ok, refl, some,
  sym, true, ◌∷◌, ◌≡◌, ◌≤◌,
}
use simple_blockchain_go.Clients.{get_account_info}
use simple_blockchain_go.Clients.Laws.{get_account_info-handle_rpc}
use simple_blockchain_go.Common.{generator_balance}
use simple_blockchain_go.Env.{IsFaithful}
use simple_blockchain_go.Genesis.{first_block, generate}
use simple_blockchain_go.Genesis.Laws.{faucet_init-generate}
use simple_blockchain_go.Memory.Service.{get_account_state}
use simple_blockchain_go.Nodes.Node.{Node, resume}
use simple_blockchain_go.Nodes.Restart.{resume-put_block}
use simple_blockchain_go.Nodes.RpcServer.{handle_rpc}
use simple_blockchain_go.Nodes.Sync.Blocks.{block_content, put_block}
use simple_blockchain_go.Nodes.Sync.Exchange.{handle_sync_message-exchange}
use simple_blockchain_go.Nodes.Sync.Handlers.{check_response, handle_sync_message}
use simple_blockchain_go.Nodes.Sync.Loop.{block_request}
use simple_blockchain_go.Nodes.Sync.Messages.{block_request_message, block_response_message}
use simple_blockchain_go.P2p.Messages.{is_same_ip, pack_payload, sync_message, verify_node}
use simple_blockchain_go.P2p.Service.{P2pService, peer_by_index, send}
use simple_blockchain_go.Rpc.Wire.{Net}
use simple_blockchain_go.Storage.Db.{get_by_key}
use simple_blockchain_go.Storage.Service.{accounts, blocks, by_key, push_accounts, read_state}
use simple_blockchain_go.Storage.Service.Laws.{IsKept, push_accounts-IsKept}
use simple_blockchain_go.Tests.Codecs.{
  block_codec-IsFaithful, block_of, call_codec-IsFaithful, request_codec-IsFaithful,
  response_codec-IsFaithful,
}
use simple_blockchain_go.Tests.Data.{
  alice, bob, empty_db, env, full_pool, hash_size_lem, key_of, test_bolt, test_bolt-IsBolt, wallet,
}
use simple_blockchain_go.Tests.Nodes.{node_at, test_peers}
use simple_blockchain_go.Tests.Sync.{new_test_node, node_env, test_json, test_node}
use simple_blockchain_go.Types.{Block}
use simple_blockchain_go.Wallets.{sign_raw}

abbrev origin_block : Block
origin_block = block_of 0 1 (key_of 4) alice (key_of 5) (key_of 6)

abbrev origin_bytes : Bytes
origin_bytes = content (node_env.block_json.marshal origin_block)

abbrev has_origin : Node test_bolt
has_origin = record test_node {
  db = (put_in_storage test_bolt blocks (some (block_content node_env origin_block)) empty_db).0;
}

abbrev other_peers : P2pService
other_peers = record { info = node_at 49; peers = [] }

abbrev request_payload : Bytes
request_payload =
    sync_message
    ∷ block_request_message
    ∷ content (test_json.block_request_json.marshal (record { from = test_peers.info; height = 0 }))

abbrev response_body : Bytes
response_body = content (
    test_json.block_response_json.marshal
      (record { from = other_peers.info; block = origin_block }))

asked_ok : block_request test_json 0 0 test_peers ≡ ok ((other_peers.info, request_payload) ∷ [])
unfolding block_request pack_payload peer_by_index send bytes_eq
asked_ok = refl

known_ok : verify_node test_peers.info ≡ true
unfolding verify_node bytes_eq
known_ok = refl

apart_ok : is_same_ip test_peers.info other_peers.info ≡ false
unfolding bytes_eq
apart_ok = refl

response_ok :
    check_response node_env test_json (record { from = other_peers.info; block = origin_block })
    ≡ ok true
unfolding check_response
response_ok = refl

handle_sync_message-exchange_example :
    (handle_sync_message node_env test_json test_bolt
      (sync_message ∷ block_response_message ∷ response_body)
      (some (0 ∷ 1 ∷ []))
      test_peers
      new_test_node).delivered
    ≡ some (0, origin_block)
handle_sync_message-exchange_example =
    (handle_sync_message-exchange node_env test_json test_bolt test_bolt-IsBolt
      block_codec-IsFaithful request_codec-IsFaithful response_codec-IsFaithful origin_block
      origin_bytes response_body request_payload 0 (0 ∷ 1 ∷ []) test_peers other_peers new_test_node
      has_origin empty_db none refl (omega arith) refl refl (omega arith) (omega arith) known_ok
      apart_ok asked_ok refl response_ok refl (omega arith) (omega arith)).4

abbrev next_block : Block
next_block = block_of 1 2 (key_of 8) alice (key_of 4) (key_of 6)

abbrev next_bytes : Bytes
next_bytes = content (node_env.block_json.marshal next_block)

abbrev restarted : Node test_bolt
restarted = record new_test_node { db = (put_block test_bolt node_env 1 next_block test_node).0.db }

resume-put_block_example :
    (resume test_bolt node_env 1 restarted).0.chain
    ≡ (put_block test_bolt node_env 1 next_block test_node).0.chain
resume-put_block_example =
    (resume-put_block test_bolt node_env 1 test_bolt-IsBolt block_codec-IsFaithful next_block
      next_bytes test_node restarted refl (omega arith) refl (omega arith, omega arith) refl
      (omega arith) (omega arith) refl).1

abbrev pub whole_net : Net
whole_net = record { arrives = λ n b. n }

pub state_codec-IsFaithful : IsFaithful env.state_json
state_codec-IsFaithful s b e =
    let same : s.nonce ∷ s.balance ∷ [] ≡ b = cc in ap env.state_json.unmarshal (sym same)

-- The accounts with a state for Alice.
abbrev rich_db : Bytes → Bytes → Slice
rich_db bucket k = some (3 ∷ 250 ∷ [])

found_ok :
    get_from_storage test_bolt accounts by_key wallet.public_key rich_db ≡ some (3 ∷ 250 ∷ [])
unfolding get_from_storage get_by_key
found_ok = refl

read_ok :
    read_state test_bolt node_env
      (get_from_storage test_bolt accounts by_key wallet.public_key rich_db)
    ≡ ok (record { nonce = 3; balance = 250 })
unfolding read_state get_from_storage get_by_key
read_ok = refl

get_account_info-handle_rpc_example :
    get_account_info node_env whole_net
      (λ sent.
        (handle_rpc node_env test_json test_bolt whole_net sent test_peers rich_db
          full_pool).written)
      wallet
    ≡ ok (record { nonce = 3; balance = 250 })
get_account_info-handle_rpc_example =
    get_account_info-handle_rpc whole_net (λ n sent h. refl) node_env test_json test_bolt
      call_codec-IsFaithful state_codec-IsFaithful wallet (3 ∷ alice) (0 ∷ 0 ∷ [])
      (record { nonce = 3; balance = 250 }) test_peers rich_db full_pool refl refl (omega arith)
      refl (omega arith) (rw found_ok (omega arith)) read_ok

-- The random bytes of a first block.
abbrev pub random_bytes : Bytes
random_bytes = key_of 5

abbrev pub first_bytes : Bytes
first_bytes =
    content (node_env.block_json.marshal (first_block node_env 1 wallet random_bytes random_bytes))

abbrev pub supply_bytes : Bytes
supply_bytes = 0 ∷ generator_balance ∷ []

pub first_made :
    node_env.block_json.marshal (first_block node_env 1 wallet random_bytes random_bytes)
    ≡ some first_bytes
unfolding first_block sign_raw
first_made = refl

pub first_small : length first_bytes ≤ 2147483646
unfolding first_block sign_raw
first_small = omega arith

pub absent_ok : get_from_storage test_bolt accounts by_key wallet.public_key empty_db ≡ none
unfolding get_from_storage get_by_key
absent_ok = refl

faucet_init-generate_example :
    (generate test_bolt node_env 1 wallet random_bytes random_bytes empty_db).1 ≡ ok tt
faucet_init-generate_example =
    (faucet_init-generate test_bolt node_env test_bolt-IsBolt block_codec-IsFaithful
      state_codec-IsFaithful hash_size_lem 1 2 3 wallet random_bytes random_bytes first_bytes
      supply_bytes empty_db refl first_made first_small refl (omega arith) absent_ok).0

-- The generator and Bob, whose states the full pool has.
abbrev two_owners : List Slice
two_owners = some (key_of 7) ∷ some bob ∷ []

abbrev owners_db : Bytes → Bytes → Slice
owners_db = (push_accounts test_bolt env two_owners full_pool empty_db).0

owners_ok : push_accounts test_bolt env two_owners full_pool empty_db ≡ (owners_db, ok tt)
unfolding push_accounts get_account_state bytes_eq
owners_ok = refl

push_accounts-IsKept_example :
    All
      (IsKept test_bolt env test_bolt-IsBolt state_codec-IsFaithful full_pool owners_db)
      two_owners
push_accounts-IsKept_example =
    push_accounts-IsKept test_bolt env test_bolt-IsBolt state_codec-IsFaithful full_pool two_owners
      empty_db owners_db owners_ok

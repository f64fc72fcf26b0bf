-- ===== src/Tests/Sync.antt =====
-- The theorems on the sync loop and the pool at concrete inputs.
use simple_blockchain_go.Storage.Service.{put as put_in_storage}
use simple_blockchain_go.Accounts.{add, check_nonce, subtract}
use simple_blockchain_go.Base.{
  Bytes, Slice, [], arith, bytes_eq, content, false, insertion_sort, len, none, ok, refl, some,
  true, ℕ, ◌==◌, ◌∷◌, ◌≡◌,
}
use simple_blockchain_go.Blocks.{hash_block, new_block}
use simple_blockchain_go.Common.{
  is_power_of_2, last_loop, last_power_of_2, next_loop, next_power_of_2,
}
use simple_blockchain_go.Env.{Env}
use simple_blockchain_go.Executers.Executer.{
  add_key, after_finality, after_revert, execute_airdrop, execute_call, execute_now,
  execute_transfer, execute_tx, faucet_generator, finish_turn, note_keys, revert, runnable,
  with_keys,
}
use simple_blockchain_go.Executers.Impl.{
  airdrop_impl, airdrop_known, airdrop_new, in_place, transfer_impl,
}
use simple_blockchain_go.Executers.Producer.{assemble, produce}
use simple_blockchain_go.Memory.Db.{
  big_int, fake_nodes, get_merkle_node, get_merkle_nodes, nodes_of,
}
use simple_blockchain_go.Memory.Mempool.{get_txs, get_txs_for_block, new_mempool}
use simple_blockchain_go.Memory.Service.{
  get_account_state, get_state_hash, handle_state, new_memory_service, put_account_state, put_state,
  reply_get,
}
use simple_blockchain_go.Merkle.{
  build_levels, leaves_from_raw, new_level, new_merkle_node, tree_from_nodes, tree_from_raw,
}
use simple_blockchain_go.Nodes.Node.{Node, new_node, on_block_stored}
use simple_blockchain_go.Nodes.Stored.{put_block_lem}
use simple_blockchain_go.Nodes.Sync.Accepted.{IsPool, Reached-IsPool, at_start, by_message}
use simple_blockchain_go.Nodes.Sync.Agreement.{produce-apply_block}
use simple_blockchain_go.Nodes.Sync.Blocks.{apply_block, block_content, store_final, stored}
use simple_blockchain_go.Nodes.Sync.Handlers.{handle_sync_message}
use simple_blockchain_go.Nodes.Sync.Loop.{Answer, got_block, sync}
use simple_blockchain_go.Nodes.Sync.Messages.{SyncJson, TransactionMsg, tx_message}
use simple_blockchain_go.Nodes.Sync.Target.{AtTarget, Ends, sync-Ends, sync_alone}
use simple_blockchain_go.P2p.Messages.{sync_message}
use simple_blockchain_go.Rpc.{
  verify_airdrop_call, verify_airdrop_param, verify_call, verify_get_account_state_call,
  verify_transfer_call, verify_transfer_param,
}
use simple_blockchain_go.Storage.Service.{
  blocks, fetch_accounts, push_accounts, push_each, push_one, read_state,
}
use simple_blockchain_go.Tests.Chain.{made_pair, new_memory, produced_ok, tx_sort}
use simple_blockchain_go.Tests.Codecs.{
  block_codec, block_of, call_codec, request_codec, response_codec,
}
use simple_blockchain_go.Tests.Data.{
  airdrop_tx, alice, chain, codec, empty_db, env, full_pool, key_of, node_sort, test_bolt,
  test_bolt-IsBolt, wallet,
}
use simple_blockchain_go.Tests.Nodes.{node_at, test_peers}
use simple_blockchain_go.Txs.{hash_transactions, marshal_all}
use simple_blockchain_go.Types.{Block}
use simple_blockchain_go.Wallets.{sign_raw}

abbrev pub test_node : Node test_bolt
test_node = record { db = empty_db; memory = full_pool; chain = chain; generator = some (key_of 7) }

abbrev pub node_env : Env
node_env = record env { block_json = block_codec; call_json = call_codec }

-- Every height is answered with a block of this height.
abbrev answers : ℕ → Answer
answers h = got_block (block_of h 1 (key_of 4) alice (key_of 5) (key_of 6))

sync-Ends_example :
    Ends test_bolt
      (sync test_bolt node_env 1 node_sort answers 9 (λ r. 2) 4 test_node)
      (AtTarget test_bolt node_env 1 node_sort answers 4 (omega arith))
sync-Ends_example =
    sync-Ends test_bolt node_env 1 node_sort answers 4 (omega arith) 9 (λ r. 2) test_node
      (λ r. omega arith) (omega arith) (omega arith)

sync_alone_example : sync test_bolt node_env 1 node_sort answers 9 (λ r. 0) 4 test_node ≡ none
sync_alone_example =
    sync_alone test_bolt node_env 1 node_sort answers 4 (omega arith) 9 test_node (omega arith)

abbrev pushed_db : Bytes → Bytes → Slice
pushed_db = (after_finality test_bolt env true made_pair.1 empty_db new_memory).0

pushed_ok :
    after_finality test_bolt env true made_pair.1 empty_db new_memory
    ≡ (pushed_db, new_memory, ok tt)
unfolding after_finality push_accounts produce execute_now get_txs_for_block get_txs execute_tx
    runnable verify_call execute_call execute_airdrop faucet_generator with_keys airdrop_impl
    bytes_eq airdrop_new check_nonce add subtract hash_block new_block is_power_of_2 last_loop
    last_power_of_2 next_loop next_power_of_2 add_key after_revert execute_transfer finish_turn
    note_keys revert airdrop_known in_place transfer_impl assemble big_int fake_nodes
    get_merkle_node get_merkle_nodes nodes_of get_account_state get_state_hash handle_state
    put_account_state put_state reply_get build_levels leaves_from_raw new_level new_merkle_node
    tree_from_nodes tree_from_raw verify_airdrop_call verify_airdrop_param
    verify_get_account_state_call verify_transfer_call verify_transfer_param fetch_accounts
    push_each push_one read_state hash_transactions marshal_all sign_raw insertion_sort
pushed_ok = refl

abbrev final_node : Node test_bolt
final_node = record test_node { db = pushed_db; memory = new_memory }

-- A later block whose bytes are put is stored without an error.
put_is_enough :
    (blk : Block) (n : Node test_bolt)
    → (blk.info.height == 0) ≡ false
    → (put_in_storage test_bolt blocks (some (block_content env blk)) n.db).1 ≡ ok tt
    → (store_final test_bolt env 1 true blk n).1 ≡ ok tt
unfolding store_final on_block_stored
put_is_enough blk n later went = ground arith

hash_ok : len made_pair.0.info.hash ≡ 32
unfolding produce execute_now get_txs_for_block get_txs execute_tx runnable verify_call execute_call
    execute_airdrop faucet_generator with_keys airdrop_impl bytes_eq airdrop_new check_nonce
    in_place subtract add hash_block new_block is_power_of_2 last_loop last_power_of_2 next_loop
    next_power_of_2 add_key after_revert execute_transfer finish_turn note_keys revert airdrop_known
    transfer_impl assemble big_int fake_nodes get_merkle_node get_merkle_nodes nodes_of
    get_state_hash handle_state put_account_state put_state reply_get build_levels leaves_from_raw
    new_level new_merkle_node tree_from_nodes tree_from_raw verify_airdrop_call verify_airdrop_param
    verify_get_account_state_call verify_transfer_call verify_transfer_param fetch_accounts
    read_state hash_transactions marshal_all sign_raw insertion_sort
hash_ok = refl

later_ok : (made_pair.0.info.height == 0) ≡ false
unfolding produce execute_now get_txs_for_block get_txs execute_tx runnable verify_call execute_call
    execute_airdrop faucet_generator with_keys airdrop_impl bytes_eq airdrop_new check_nonce
    in_place subtract add hash_block new_block is_power_of_2 last_loop last_power_of_2 next_loop
    next_power_of_2 add_key after_revert execute_transfer finish_turn note_keys revert airdrop_known
    transfer_impl assemble big_int fake_nodes get_merkle_node get_merkle_nodes nodes_of
    get_state_hash handle_state put_account_state put_state reply_get build_levels leaves_from_raw
    new_level new_merkle_node tree_from_nodes tree_from_raw verify_airdrop_call verify_airdrop_param
    verify_get_account_state_call verify_transfer_call verify_transfer_param fetch_accounts
    read_state hash_transactions marshal_all sign_raw insertion_sort
later_ok = refl

stored_ok : (store_final test_bolt env 1 true made_pair.0 final_node).1 ≡ ok tt
stored_ok =
    put_is_enough made_pair.0 final_node later_ok
      (put_block_lem test_bolt env test_bolt-IsBolt made_pair.0 (content made_pair.0.info.hash)
        pushed_db refl (omega (arith, hash_ok)) hash_ok).0

-- The node that syncs has an empty pool.
abbrev synced_node : Node test_bolt
synced_node = record test_node { memory = record full_pool { mempool = new_mempool } }

produce-apply_block_example :
    (apply_block test_bolt env 1 node_sort made_pair.0 synced_node).1 ≡ stored
produce-apply_block_example =
    (produce-apply_block test_bolt env 1 node_sort tx_sort test_node wallet 1 new_memory made_pair.0
      made_pair.1 pushed_db new_mempool produced_ok later_ok pushed_ok stored_ok).0

-- A message brings the airdrop that Alice asks for.
abbrev airdrop_message : TransactionMsg
airdrop_message = record { origins = node_at 50 ∷ []; tx = airdrop_tx alice 0 50 }

abbrev pub test_json : SyncJson
test_json = record {
  tx_msg_json = codec (λ (m : TransactionMsg). content m.tx.hash) (λ b. some airdrop_message);
  block_request_json = request_codec;
  block_response_json = response_codec;
}

abbrev pub new_test_node : Node test_bolt
new_test_node = new_node test_bolt empty_db new_memory_service

abbrev tx_raw : Bytes
tx_raw = sync_message ∷ tx_message ∷ []

Reached-IsPool_example : IsPool env (
    (handle_sync_message env test_json test_bolt tx_raw none test_peers
      new_test_node).memory.mempool)
Reached-IsPool_example =
    Reached-IsPool env test_json test_bolt
      ((handle_sync_message env test_json test_bolt tx_raw none test_peers new_test_node).memory)
      (by_message tx_raw none test_peers new_test_node at_start)

-- ===== src/Tests/Chain.antt =====
-- The theorems on execution, blocks, transactions and the chain at concrete inputs.
use simple_blockchain_go.Accounts.{add, check_nonce, subtract}
use simple_blockchain_go.Base.{
  List, Outcome, Slice, Sort, [], arith, bytes_eq, insertion_sort, lookup, none, ok, panic, refl,
  some, true, ◌∷◌, ◌≡◌, ◌≢◌,
}
use simple_blockchain_go.Blockchain.{Blockchain, increment, init}
use simple_blockchain_go.Blockchain.Laws.{init_disagrees}
use simple_blockchain_go.Blocks.{hash_block, new_block, verify_block, verify_info}
use simple_blockchain_go.Blocks.Laws.{verify_block_lem}
use simple_blockchain_go.Common.{
  is_power_of_2, last_loop, last_power_of_2, next_loop, next_power_of_2,
}
use simple_blockchain_go.Env.{verify_signature}
use simple_blockchain_go.Executers.Executer.{
  Turn, add_key, after_revert, execute_airdrop, execute_call, execute_now, execute_transfer,
  execute_tx, faucet_generator, finish_turn, leaves_reply, note_keys, revert, runnable, with_keys,
}
use simple_blockchain_go.Executers.Executer.Laws.{execute_tx-status}
use simple_blockchain_go.Executers.Impl.{
  States, airdrop_impl, airdrop_known, airdrop_new, in_place, transfer_impl,
}
use simple_blockchain_go.Executers.Impl.Airdrop.{airdrop_impl_lem}
use simple_blockchain_go.Executers.Impl.Laws.{total, transfer_impl_lem}
use simple_blockchain_go.Executers.Producer.{assemble, produce, verify}
use simple_blockchain_go.Executers.Producer.Laws.{produce-verify}
use simple_blockchain_go.Memory.Db.{
  big_int, fake_nodes, get_merkle_node, get_merkle_nodes, nodes_of,
}
use simple_blockchain_go.Memory.Mempool.{get_txs, get_txs_for_block, new_mempool}
use simple_blockchain_go.Memory.Service.{
  MemoryService, get_state_hash, handle_state, put_account_state, put_state, reply_get,
}
use simple_blockchain_go.Merkle.{
  build_levels, leaves_from_raw, new_level, new_merkle_node, tree_from_nodes, tree_from_raw,
}
use simple_blockchain_go.Rpc.{
  verify_airdrop_call, verify_airdrop_param, verify_call, verify_get_account_state_call,
  verify_transfer_call, verify_transfer_param,
}
use simple_blockchain_go.Storage.Service.{fetch_accounts, read_state}
use simple_blockchain_go.Tests.Data.{
  airdrop_tx, alice, bob, chain, empty_block, empty_db, env, full_pool, key_of, node_sort,
  test_bolt, value_or, wallet,
}
use simple_blockchain_go.Txs.{
  check_contents, hash_transactions, marshal_all, verify_bundle, verify_each, verify_tx,
}
use simple_blockchain_go.Txs.Laws.{verify_tx_lem}
use simple_blockchain_go.Types.{Block, Transaction}
use simple_blockchain_go.Wallets.{sign_raw}

abbrev pub tx_sort : Sort Transaction
tx_sort less txs = insertion_sort (λ t. t.inner_data.nonce) txs

abbrev produced : MemoryService × Outcome (Block × List Slice)
produced =
    produce test_bolt env node_sort tx_sort (some (key_of 7)) empty_db chain wallet 1 full_pool

abbrev pub new_memory : MemoryService
new_memory = produced.0

abbrev pub made_pair : Block × List Slice
made_pair = value_or (empty_block, []) produced.1

pub produced_ok : produced ≡ (new_memory, ok (made_pair.0, made_pair.1))
unfolding produce execute_now get_txs_for_block get_txs execute_tx runnable verify_call execute_call
    execute_airdrop faucet_generator with_keys airdrop_impl bytes_eq airdrop_new check_nonce
    in_place subtract add hash_block new_block is_power_of_2 last_loop last_power_of_2 next_loop
    next_power_of_2 add_key after_revert execute_transfer finish_turn note_keys revert airdrop_known
    transfer_impl assemble sign_raw big_int fake_nodes get_merkle_node get_merkle_nodes nodes_of
    get_state_hash handle_state put_account_state put_state reply_get build_levels leaves_from_raw
    new_level new_merkle_node tree_from_nodes tree_from_raw verify_airdrop_call verify_airdrop_param
    verify_get_account_state_call verify_transfer_call verify_transfer_param fetch_accounts
    read_state hash_transactions marshal_all insertion_sort
produced_ok = refl

produce-verify_example :
    verify test_bolt env node_sort
      (some (key_of 7))
      empty_db
      chain
      made_pair.0
      (record full_pool { mempool = new_mempool })
    ≡ (
      record new_memory { mempool = new_mempool },
      record { verdict = ok true; finality = some made_pair.1 },
    )
produce-verify_example =
    produce-verify test_bolt env node_sort tx_sort (some (key_of 7)) empty_db chain wallet 1
      full_pool new_memory made_pair.0 made_pair.1 new_mempool produced_ok

-- The nonce is not the account's, so the airdrop fails and is reverted.
abbrev stale_tx : Transaction
stale_tx = airdrop_tx bob 5 50

abbrev stale_turn : Turn test_bolt env
stale_turn = execute_tx test_bolt env (some (key_of 7)) empty_db stale_tx [] full_pool

stale_ok : stale_turn.result ≡ ok tt
unfolding produce execute_now get_txs_for_block get_txs execute_tx runnable verify_call execute_call
    execute_airdrop faucet_generator with_keys airdrop_impl bytes_eq airdrop_new check_nonce
    in_place subtract add hash_block new_block is_power_of_2 last_loop last_power_of_2 next_loop
    next_power_of_2 add_key after_revert execute_transfer finish_turn note_keys revert airdrop_known
    transfer_impl assemble sign_raw big_int fake_nodes get_merkle_node get_merkle_nodes nodes_of
    get_state_hash handle_state put_account_state put_state reply_get build_levels leaves_from_raw
    new_level new_merkle_node tree_from_nodes tree_from_raw verify_airdrop_call verify_airdrop_param
    verify_get_account_state_call verify_transfer_call verify_transfer_param fetch_accounts
    read_state hash_transactions marshal_all leaves_reply
stale_ok = refl

stale_runs : runnable test_bolt env stale_tx ≢ none
unfolding produce execute_now get_txs_for_block get_txs execute_tx runnable verify_call execute_call
    execute_airdrop faucet_generator with_keys airdrop_impl bytes_eq airdrop_new check_nonce
    in_place subtract add hash_block new_block is_power_of_2 last_loop last_power_of_2 next_loop
    next_power_of_2 add_key after_revert execute_transfer finish_turn note_keys revert airdrop_known
    transfer_impl assemble sign_raw big_int fake_nodes get_merkle_node get_merkle_nodes nodes_of
    get_state_hash handle_state put_account_state put_state reply_get build_levels leaves_from_raw
    new_level new_merkle_node tree_from_nodes tree_from_raw verify_airdrop_call verify_airdrop_param
    verify_get_account_state_call verify_transfer_call verify_transfer_param fetch_accounts
    read_state hash_transactions marshal_all
stale_runs h = cc

execute_tx-status_example : stale_turn.tx ≡ record stale_tx { status = true }
execute_tx-status_example =
    (execute_tx-status test_bolt env (some (key_of 7)) empty_db stale_tx [] full_pool stale_ok).0
      stale_runs

abbrev two_accounts : States
two_accounts =
    (alice, record { nonce = 0; balance = 70 }) ∷ (bob, record { nonce = 3; balance = 5 }) ∷ []

alice_there : lookup alice two_accounts ≡ some (record { nonce = 0; balance = 70 })
unfolding bytes_eq
alice_there = refl

bob_there : lookup bob two_accounts ≡ some (record { nonce = 3; balance = 5 })
unfolding bytes_eq
bob_there = refl

transfer_ok : (transfer_impl alice 0 bob 30 two_accounts).1 ≡ ok tt
unfolding transfer_impl bytes_eq in_place check_nonce subtract add
transfer_ok = refl

transfer_impl_lem_example : total (transfer_impl alice 0 bob 30 two_accounts).0 ≡ total two_accounts
transfer_impl_lem_example =
    (transfer_impl_lem alice 0 bob 30 two_accounts (record { nonce = 0; balance = 70 })
        (record { nonce = 3; balance = 5 }) alice_there bob_there (omega arith) (omega arith)).1
      transfer_ok

airdrop_ok : (airdrop_impl (key_of 8) 0 alice 30 two_accounts).1 ≡ ok tt
unfolding airdrop_impl bytes_eq airdrop_new check_nonce in_place subtract add
airdrop_ok = refl

airdrop_impl_lem_example :
    total (airdrop_impl (key_of 8) 0 alice 30 two_accounts).0 ≡ total two_accounts
unfolding bytes_eq
airdrop_impl_lem_example =
    (airdrop_impl_lem (key_of 8) 0 alice 30 two_accounts (record { nonce = 0; balance = 70 })
        alice_there refl (omega arith)).1
      airdrop_ok

abbrev late_chain : Blockchain
late_chain = record {
  next_height = 4294967296;
  next_epoch = 143165576;
  next_slot = 16;
  previous_block_hash = none;
}

init_disagrees_example :
    (increment none late_chain).next_slot ≢ (init 4294967297 none late_chain).next_slot
init_disagrees_example =
    init_disagrees late_chain late_chain none (refl, refl) (omega arith) (omega arith) (omega arith)

verify_tx_lem_example : verify_tx env (airdrop_tx alice 0 50) ≢ panic
verify_tx_lem_example = (verify_tx_lem env (airdrop_tx alice 0 50)).0

made_ok : verify_block env made_pair.0 ≡ ok true
unfolding produce execute_now get_txs_for_block get_txs execute_tx runnable verify_call execute_call
    execute_airdrop faucet_generator with_keys airdrop_impl bytes_eq airdrop_new check_nonce
    in_place subtract add hash_block new_block is_power_of_2 last_loop last_power_of_2 next_loop
    next_power_of_2 add_key after_revert execute_transfer finish_turn note_keys revert airdrop_known
    transfer_impl assemble sign_raw big_int fake_nodes get_merkle_node get_merkle_nodes nodes_of
    get_state_hash handle_state put_account_state put_state reply_get build_levels leaves_from_raw
    new_level new_merkle_node tree_from_nodes tree_from_raw verify_airdrop_call verify_airdrop_param
    verify_get_account_state_call verify_transfer_call verify_transfer_param fetch_accounts
    read_state hash_transactions marshal_all verify_block verify_bundle verify_each verify_tx
    check_contents verify_signature verify_info insertion_sort
made_ok = refl

verify_block_lem_example : made_pair.0.bundle.transactions ≢ []
verify_block_lem_example = ((verify_block_lem env made_pair.0).1 made_ok).0

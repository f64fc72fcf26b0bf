-- ===== src/Tests/Replay.antt =====
-- The theorem on a replayed transfer at a concrete input.
use simple_blockchain_go.Accounts.{AccountState}
use simple_blockchain_go.Base.{
  Bytes, Slice, [], arith, bytes_eq, false, if◌then◌else◌, lookup, none, ok, panic, refl, some, ℕ,
  ◌++◌, ◌+◌, ◌∷◌, ◌≡◌, ◌≢◌,
}
use simple_blockchain_go.Executers.Executer.{add_key, execute_now, runnable}
use simple_blockchain_go.Executers.Executer.Mint.{IsTransfer}
use simple_blockchain_go.Executers.Executer.Replay.{execute_now_replay, execute_now_wrong_nonce}
use simple_blockchain_go.Executers.Impl.Laws.{total}
use simple_blockchain_go.Memory.Mempool.{new_mempool}
use simple_blockchain_go.Memory.Service.{MemoryService}
use simple_blockchain_go.Rpc.{transfer_kind, verify_call}
use simple_blockchain_go.Storage.Service.{accounts_bucket, read_state}
use simple_blockchain_go.Tests.Data.{alice, bob, env, key_of, test_bolt, test_hash}
use simple_blockchain_go.Types.{Call, Transaction}

-- A transfer of 50 from Alice, with a nonce.
abbrev transfer_tx : ℕ → Bytes → Transaction
transfer_tx nonce to =
    let payload = transfer_kind ∷ 50 ∷ to in
    record {
      hash = some (test_hash payload);
      inner_data = record {
        payload = some payload;
        public_key = some alice;
        nonce = nonce;
        signature = some (alice ++ payload);
        timestamp = 1;
      };
      status = false;
    }

abbrev rich : AccountState
rich = record { nonce = 0; balance = 80 }

abbrev poor : AccountState
poor = record { nonce = 0; balance = 0 }

abbrev rich_db : Bytes → Bytes → Slice
rich_db b k = if bytes_eq k alice then some (0 ∷ 80 ∷ []) else none

abbrev rich_memory : MemoryService
rich_memory = record {
  mempool = new_mempool;
  state_mem = (alice, rich) ∷ (bob, poor) ∷ (key_of 3, poor) ∷ [];
}

abbrev transfer_call : Bytes → Call
transfer_call to = record { call = transfer_kind; params = some (50 ∷ to) }

bob-IsTransfer : IsTransfer test_bolt env none rich_db (transfer_tx 0 bob) alice bob 0 50
unfolding runnable verify_call
bob-IsTransfer = record {
  call = transfer_call bob;
  runs = refl;
  transfers = refl;
  reads = refl;
  of_sender = refl;
  with_nonce = refl;
}

carol-IsTransfer :
    IsTransfer test_bolt env none rich_db (transfer_tx 1 (key_of 3)) alice (key_of 3) 1 50
unfolding runnable verify_call
carol-IsTransfer = record {
  call = transfer_call (key_of 3);
  runs = refl;
  transfers = refl;
  reads = refl;
  of_sender = refl;
  with_nonce = refl;
}

alice_read : read_state test_bolt env (test_bolt.read rich_db accounts_bucket alice) ≡ ok rich
unfolding read_state bytes_eq
alice_read = refl

carol_read : read_state test_bolt env (test_bolt.read rich_db accounts_bucket (key_of 3)) ≡ ok poor
unfolding read_state bytes_eq
carol_read = refl

in_memory :
    (lookup alice rich_memory.state_mem ≡ some rich)
    × (lookup bob rich_memory.state_mem ≡ some poor)
    × (lookup (key_of 3) rich_memory.state_mem ≡ some poor)
unfolding bytes_eq
in_memory = (refl, refl, refl)

execute_now_replay_example :
    let run =
      execute_now test_bolt env none rich_db
        (transfer_tx 0 bob ∷ transfer_tx 1 (key_of 3) ∷ [])
        []
        rich_memory in
    (run.2 ≡ ok (add_key (add_key [] (some alice)) (some bob)))
    × (lookup alice run.0.state_mem ≡ some rich)
    × (total run.0.state_mem ≡ total rich_memory.state_mem + 50)
execute_now_replay_example =
    let bob_alice : bob ≢ alice = cc in
    let carol_alice : key_of 3 ≢ alice = cc in
    let carol_bob : key_of 3 ≢ bob = cc in
    execute_now_replay test_bolt env none rich_db (transfer_tx 0 bob) (transfer_tx 1 (key_of 3))
      alice bob (key_of 3) 0 1 50 50 rich_memory rich poor poor bob-IsTransfer carol-IsTransfer
      in_memory.0 in_memory.1 in_memory.2 alice_read carol_read bob_alice carol_alice carol_bob
      (omega arith) (omega arith) refl (omega arith) (omega arith) refl (omega arith)

execute_now_wrong_nonce_example :
    (execute_now test_bolt env none rich_db (transfer_tx 1 (key_of 3) ∷ []) [] rich_memory).2
    ≡ panic
execute_now_wrong_nonce_example =
    let carol_alice : key_of 3 ≢ alice = cc in
    let wrong : 0 ≢ 1 = omega arith in
    execute_now_wrong_nonce test_bolt env none rich_db (transfer_tx 1 (key_of 3)) [] alice
      (key_of 3) 1 50 [] rich_memory rich rich poor carol-IsTransfer in_memory.0 carol_alice wrong
      alice_read carol_read

-- ===== src/Tests/Queues.antt =====
-- The theorems on the queues of the memory service and of the storage service at concrete inputs.
use simple_blockchain_go.Base.{[], arith, none, ok, refl, replicate, some, ℕ, ◌∷◌, ◌≡◌}
use simple_blockchain_go.Memory.Service.{
  MempoolRequest, StateMemRequest, append_kind, get_kind, handle_state, handle_tx, put_kind,
}
use simple_blockchain_go.Memory.Service.Run.{
  Run-same, run_states, run_txs, idle, takes_state, takes_tx,
}
use simple_blockchain_go.Storage.Db.{DbContent, get_by_key}
use simple_blockchain_go.Storage.Service.{blocks, bucket_of, by_key}
use simple_blockchain_go.Storage.Service.Requests.{
  IsStorable, get_request, put_request, recorded, run_requests, run_requests-recorded,
}
use simple_blockchain_go.Tests.Data.{
  airdrop_tx, alice, bob, empty_db, env, full_pool, key_of, test_bolt, test_bolt-IsBolt,
}

abbrev put_bob : StateMemRequest
put_bob = record {
  request_kind = put_kind;
  public_key = some bob;
  state = some (record { nonce = 1; balance = 9 });
}

abbrev get_bob : StateMemRequest
get_bob = record { request_kind = get_kind; public_key = some bob; state = none }

abbrev append_one : MempoolRequest
append_one = record { request_kind = append_kind; tx = some (airdrop_tx alice 0 50); keys = none }

Run-same_example :
    let put = handle_state env put_bob full_pool in
    let appended = handle_tx env append_one put.0 in
    let got = handle_state env get_bob appended in
    run_states env (put_bob ∷ get_bob ∷ []) (run_txs env (append_one ∷ []) full_pool)
    ≡ (got.0, put.1 ∷ got.1 ∷ [])
Run-same_example = Run-same env (takes_state (takes_tx (takes_state idle)))

abbrev block_content_of : ℕ → DbContent
block_content_of n = record {
  to_bytes = some (n ∷ n ∷ []);
  key = some (key_of n);
  index = some (replicate 8 n);
}

storable : (n : ℕ) → IsStorable (block_content_of n)
storable n = record {
  enc = n ∷ n ∷ [];
  encodes = refl;
  fits = omega arith;
  key_size = refl;
  index_size = refl;
}

run_requests-recorded_example :
    (run_requests test_bolt
      (put_request blocks (block_content_of 3)
        ∷ put_request blocks (block_content_of 4)
        ∷ get_request blocks by_key (some (key_of 3))
        ∷ [])
      empty_db).1
    ≡ some (none, ok tt)
      ∷ some (none, ok tt)
      ∷ some (
        recorded
            (some (key_of 3))
            (block_content_of 3 ∷ block_content_of 4 ∷ [])
            (get_by_key test_bolt (bucket_of blocks) (some (key_of 3)) empty_db),
        ok tt,
      )
      ∷ []
run_requests-recorded_example =
    run_requests-recorded test_bolt test_bolt-IsBolt blocks
      (block_content_of 3 ∷ block_content_of 4 ∷ []) (some (key_of 3)) empty_db
      (storable 3, (storable 4, tt)) refl

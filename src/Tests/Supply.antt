-- ===== src/Tests/Supply.antt =====
-- The theorem on the supply at a concrete input.
use mathlib.Core.Path.{subst}
use simple_blockchain_go.Accounts.{add, check_nonce, subtract}
use simple_blockchain_go.Base.{[], bytes_eq, ok, refl, some, ◌-◌, ◌∷◌, ◌≡◌}
use simple_blockchain_go.Common.{generator_balance}
use simple_blockchain_go.Executers.Executer.{
  execute_airdrop, execute_call, execute_now, faucet_generator, runnable, with_keys,
}
use simple_blockchain_go.Executers.Executer.Supply.{execute_now-IsSupplied}
use simple_blockchain_go.Executers.Impl.{airdrop_impl, airdrop_new, in_place}
use simple_blockchain_go.Executers.Impl.Laws.{total}
use simple_blockchain_go.Executers.Impl.Supply.{IsSupplied}
use simple_blockchain_go.Memory.Service.{MemoryService}
use simple_blockchain_go.Rpc.{airdrop_kind, verify_call}
use simple_blockchain_go.Tests.Data.{
  airdrop_tx, alice, bob, empty_db, env, full_pool, key_of, test_bolt,
}
use simple_blockchain_go.Types.{Call}

-- The supply, between the generator and Bob.
abbrev supplied_pool : MemoryService
supplied_pool = record full_pool {
  state_mem =
      (key_of 7, record { nonce = 0; balance = generator_balance - 5 })
      ∷ (bob, record { nonce = 0; balance = 5 })
      ∷ [];
}

abbrev asked_call : Call
asked_call = record { call = airdrop_kind; params = some (50 ∷ []) }

runs : runnable test_bolt env (airdrop_tx alice 0 50) ≡ some asked_call
unfolding runnable verify_call
runs = refl

succeeds :
    (execute_call test_bolt env
      (some (key_of 7))
      asked_call
      (airdrop_tx alice 0 50).inner_data
      []
      supplied_pool).result
    ≡ ok tt
unfolding execute_call execute_airdrop faucet_generator with_keys airdrop_impl bytes_eq airdrop_new
    check_nonce in_place subtract add
succeeds = refl

airdrop_succeeds :
    (c : Call)
    → runnable test_bolt env (airdrop_tx alice 0 50) ≡ some c
    → (execute_call test_bolt env
        (some (key_of 7))
        c
        (airdrop_tx alice 0 50).inner_data
        []
        supplied_pool).result
      ≡ ok tt
airdrop_succeeds c run =
    let same : asked_call ≡ c = cc (run, runs) in
    subst
      (λ d.
        (execute_call test_bolt env (some (key_of 7)) d (airdrop_tx alice 0 50).inner_data []
          supplied_pool).result
        ≡ ok tt)
      same succeeds

is_supplied : IsSupplied supplied_pool.state_mem
unfolding total
is_supplied = refl

execute_now-IsSupplied_example : IsSupplied (
    (execute_now test_bolt env
      (some (key_of 7))
      empty_db
      (airdrop_tx alice 0 50 ∷ [])
      []
      supplied_pool).0.state_mem)
execute_now-IsSupplied_example =
    (execute_now-IsSupplied test_bolt env (some (key_of 7)) empty_db (airdrop_tx alice 0 50 ∷ []) []
      supplied_pool is_supplied (airdrop_succeeds, tt)).1

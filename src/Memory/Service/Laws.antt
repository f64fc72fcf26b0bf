-- ===== src/Memory/Service/Laws.antt =====
-- memory/memory_service.go: requests on the account states and on the pool.
use simple_blockchain_go.Accounts.{AccountState}
use simple_blockchain_go.Base.{
  Bytes, arith, bytes_eq, bytes_eq_self, false, lookup-insert, none, some, ◌≡◌,
}
use simple_blockchain_go.Env.{Env}
use simple_blockchain_go.Memory.Service.{MemoryService, get_account_state, put_account_state}

module _ (e : Env) where
  -- A state that was put under a key is what the next Get of the key returns, a Get of a key with
  -- another encoding returns what it returned before, both leave the pool alone, and a Put answers nil.
  pub get_put_lem :
      (key other : Bytes) (s : AccountState) (ms : MemoryService)
      → let ms' = (put_account_state e (some key) s ms).0 in
        (get_account_state e (some key) ms' ≡ (ms', some (s, none)))
        × (bytes_eq (e.base58_encode other) (e.base58_encode key) ≡ false
            → (get_account_state e (some other) ms').1 ≡ (get_account_state e (some other) ms).1)
        × (ms'.mempool ≡ ms.mempool)
        × ((put_account_state e (some key) s ms).1 ≡ none)
  unfolding get_account_state put_account_state
  get_put_lem key other s ms = ground (
    arith,
    lookup-insert (e.base58_encode key) (e.base58_encode key) s ms.state_mem,
    lookup-insert (e.base58_encode key) (e.base58_encode other) s ms.state_mem,
    bytes_eq_self (e.base58_encode key),
  )

-- ===== src/Memory/Mempool.antt =====
-- memory/mempool.go. `maps.Values` gives the values in the order of the map.
pub mod Laws
use simple_blockchain_go.Base.{
  Bool, Bytes, List, Map, Sort, [], content, delete, false, if◌then◌else◌, insert, length, less_by,
  lookup, ltb, none, some, take, true, ℕ, ◌==◌, ◌∷◌,
}
use simple_blockchain_go.Common.{last_power_of_2}
use simple_blockchain_go.Env.{Env}
use simple_blockchain_go.Types.{Transaction}

pub record Mempool : Type 0 where
  pub pool : Map Transaction

-- `NewMempool`
abbrev pub new_mempool : Mempool
new_mempool = record { pool = [] }

abbrev pub values : Map Transaction → List Transaction
values [] = []
values ((k, tx) ∷ m) = tx ∷ values m

-- `a.InnerData.Nonce < b.InnerData.Nonce`
abbrev pub nonce_less : Transaction → Transaction → Bool
nonce_less = less_by (λ tx. tx.inner_data.nonce)

-- `Len`
unfoldable pub len_pool : Mempool → ℕ
len_pool mp = length mp.pool

module _ (e : Env) where
  -- `Append`
  unfoldable pub append : Mempool → Transaction → Mempool
  append mp tx = record mp { pool = insert (e.base58_encode (content tx.hash)) tx mp.pool }

-- `Remove`
unfoldable pub remove : Mempool → List Bytes → Mempool
remove mp [] = mp
remove mp (k ∷ keys) = remove (record mp { pool = delete k mp.pool }) keys

-- `Contains`
unfoldable pub contains : Mempool → Bytes → Bool
contains mp key = elim (lookup key mp.pool) [ none ↦ false | some tx ↦ true ]

module _ (sort : Sort Transaction) where
  -- `get`; a nil slice is empty.
  unfoldable pub get_txs : Mempool → ℕ → List Transaction
  get_txs mp n =
      let every = values mp.pool in
      if n == 0
      then []
      else if ltb (length every) n
      then []
      else if n == 1
      then every
      else take n (sort nonce_less every)

  -- `GetTxsForBlock`
  unfoldable pub get_txs_for_block : Mempool → List Transaction
  get_txs_for_block mp =
      let tx_len = length mp.pool in
      if tx_len == 0
      then []
      else if tx_len == 1
      then get_txs mp 1
      else get_txs mp (last_power_of_2 tx_len)

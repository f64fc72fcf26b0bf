-- ===== src/Tests/Stores.antt =====
-- The theorems on the memory and the storage at concrete inputs.
use mathlib.Core.List.{Permᴰ}
use simple_blockchain_go.Accounts.{AccountState, zero_state}
use simple_blockchain_go.Base.{
  All, Bytes, IsSortedBy, List, Map, Option, Sort, [], arith, insertion_sort, insertion_sort-Sorts,
  length, map, ok, refl, replicate, some, suc, take, ℕ, ◌%◌, ◌++◌, ◌<◌, ◌^◌, ◌∷◌, ◌≡◌, ◌≤◌, ◌⊎◌,
}
use simple_blockchain_go.Memory.Db.{get_merkle_nodes, node_key}
use simple_blockchain_go.Memory.Db.StateHash.{IsHash, get_merkle_nodes-perm}
use simple_blockchain_go.Memory.Mempool.{Mempool, get_txs_for_block, nonce_less, values}
use simple_blockchain_go.Memory.Mempool.Laws.{get_txs_for_block_lem}
use simple_blockchain_go.Storage.Db.{DbContent, put_db}
use simple_blockchain_go.Storage.Db.Laws.{put_db_lem}
use simple_blockchain_go.Tests.Data.{
  airdrop_tx, alice, bob, empty_db, env, hash_size_lem, key_of, node_sort, test_bolt,
  test_bolt-IsBolt,
}
use simple_blockchain_go.Types.{Transaction}

mod_bytes : (xs : Bytes) → All (λ b. b < 256) (map (λ x. x % 256) xs)
mod_bytes [] = tt
mod_bytes (x ∷ xs) = (omega arith, mod_bytes xs)

hashes : (b : Bytes) → IsHash (env.sum256 b)
hashes b = (hash_size_lem b, mod_bytes (take 32 (b ++ replicate 32 0)))

abbrev state_bytes : AccountState → Option Bytes
state_bytes s = env.state_json.marshal s

abbrev one_order : Map AccountState
one_order =
    (alice, record { nonce = 0; balance = 70 }) ∷ (bob, record { nonce = 3; balance = 5 }) ∷ []

abbrev other_order : Map AccountState
other_order =
    (bob, record { nonce = 3; balance = 5 }) ∷ (alice, record { nonce = 0; balance = 70 }) ∷ []

get_merkle_nodes-perm_example :
    get_merkle_nodes env state_bytes node_sort zero_state one_order
    ≡ get_merkle_nodes env state_bytes node_sort zero_state other_order
get_merkle_nodes-perm_example =
    get_merkle_nodes-perm env hashes state_bytes node_sort
      (λ nodes. insertion_sort-Sorts node_key nodes) zero_state (Permᴰ.swap refl refl)

abbrev nonce_sort : Sort Transaction
nonce_sort less txs = insertion_sort (λ t. t.inner_data.nonce) txs

abbrev three_pool : Mempool
three_pool = record {
  pool =
      (key_of 1, airdrop_tx alice 3 50)
      ∷ (key_of 2, airdrop_tx alice 1 50)
      ∷ (key_of 3, airdrop_tx alice 2 50)
      ∷ [];
}

get_txs_for_block_lem_example :
    ((three_pool.pool ≡ []) × (get_txs_for_block nonce_sort three_pool ≡ []))
    ⊎ ((k : ℕ) × (rest : List Transaction) × (length (get_txs_for_block nonce_sort three_pool)
          ≡ 2 ^ k)
        × (2 ^ k ≤ length three_pool.pool)
        × (length three_pool.pool < 2 ^ suc k)
        × Permᴰ (get_txs_for_block nonce_sort three_pool ++ rest) (values three_pool.pool)
        × IsSortedBy nonce_less (get_txs_for_block nonce_sort three_pool))
get_txs_for_block_lem_example =
    get_txs_for_block_lem nonce_sort (λ txs. insertion_sort-Sorts (λ t. t.inner_data.nonce) txs)
      three_pool (omega arith)

abbrev test_content : DbContent
test_content = record {
  key = some (key_of 4);
  index = some (replicate 8 1);
  to_bytes = some (1 ∷ 2 ∷ 3 ∷ []);
}

abbrev bucket_name : Bytes
bucket_name = 66 ∷ []

put_db_lem_example : (put_db test_bolt bucket_name test_content empty_db).1 ≡ ok tt
put_db_lem_example =
    (put_db_lem test_bolt test_bolt-IsBolt bucket_name test_content (1 ∷ 2 ∷ 3 ∷ []) empty_db refl
      (omega arith) refl refl).0

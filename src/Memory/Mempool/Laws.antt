-- ===== src/Memory/Mempool/Laws.antt =====
-- memory/mempool.go: what is taken for a block, and what Append, Remove and Contains promise.
use mathlib.Core.List.Permᴰ
use mathlib.Core.List.{Permᴰ}
use native.Mathlib.Nat.{two-pow-succ}
use simple_blockchain_go.Base.{
  All-take, Bool, Bytes, IsMap, IsSortedBy, List, Map, Sort, Sorts, [], ap, arith, bytes_eq,
  bytes_eq_iff, contains_func, content, delete, delete-IsMap, drop, false, inl, inr, insert-IsMap,
  length, length-take, length_of_perm, lookup-delete_ne, lookup-delete_self, lookup-insert, map,
  not, refl, suc, take, take-append-drop, zero, ℕ, ◌&&◌, ◌++◌, ◌<◌, ◌^◌, ◌||◌, ◌∙◌, ◌∷◌, ◌≡◌, ◌≤◌,
  ◌⊎◌,
}
use simple_blockchain_go.Common.{last_power_of_2}
use simple_blockchain_go.Common.Powers.{last_power_of_2_lem}
use simple_blockchain_go.Env.{Env}
use simple_blockchain_go.Memory.Mempool.{
  Mempool, append, contains, get_txs, get_txs_for_block, nonce_less, remove, values,
}
use simple_blockchain_go.Types.{Transaction}

length-values : (m : Map Transaction) → length (values m) ≡ length m
length-values [] = refl
length-values ((k, tx) ∷ m) = ap suc (length-values m)

-- Each element of the first list is one of the second, with the multiplicities left out.
sorted-take :
    (less : Transaction → Transaction → Bool) (n : ℕ) (txs : List Transaction)
    → IsSortedBy less txs
    → IsSortedBy less (take n txs)
sorted-take less zero txs h = tt
sorted-take less (suc n) [] h = tt
sorted-take less (suc n) (x ∷ xs) h =
    (All-take (λ y. less y x ≡ false) n xs h.0, sorted-take less n xs h.1)

module _ (sort : Sort Transaction) (sorts : Sorts sort nonce_less) where
  get_txs-take :
      (mp : Mempool) (n : ℕ)
      → 2 ≤ n
      → n ≤ length mp.pool
      → get_txs sort mp n ≡ take n (sort nonce_less (values mp.pool))
  unfolding get_txs
  get_txs-take mp n low high = ground (arith, length-values mp.pool)

  -- What the theorem below says of the transactions taken.
  abbrev Takes : Mempool → List Transaction → Type 0
  Takes mp txs =
      (k : ℕ) × (rest : List Transaction) × (length txs ≡ 2 ^ k)
      × (2 ^ k ≤ length mp.pool)
      × (length mp.pool < 2 ^ suc k)
      × Permᴰ (txs ++ rest) (values mp.pool)
      × IsSortedBy nonce_less txs

  take_many :
      (mp : Mempool)
      → 2 ≤ length mp.pool
      → length mp.pool < 2 ^ 62
      → Takes mp (get_txs sort mp (last_power_of_2 (length mp.pool)))
  take_many mp low h =
      let (k, power, below, above) = last_power_of_2_lem (length mp.pool) (omega arith) h in
      let (perm, sorted) = sorts (values mp.pool) in
      let size : length (sort nonce_less (values mp.pool)) ≡ length mp.pool =
        length_of_perm perm ∙ length-values mp.pool in
      rw (power, get_txs-take mp (2 ^ k) (omega (arith, two-pow-succ k)) below)
        (
          k,
          drop (2 ^ k) (sort nonce_less (values mp.pool)),
          length-take (2 ^ k) _ (omega arith),
          below,
          above,
          rw (take-append-drop (2 ^ k) (sort nonce_less (values mp.pool))) perm,
          sorted-take nonce_less (2 ^ k) _ sorted,
        )

  for_block_many :
      (mp : Mempool)
      → 2 ≤ length mp.pool
      → get_txs_for_block sort mp ≡ get_txs sort mp (last_power_of_2 (length mp.pool))
  unfolding get_txs_for_block
  for_block_many mp h = ground arith

  taken :
      (m : Map Transaction)
      → length m < 2 ^ 62
      → ((m ≡ []) × (get_txs_for_block sort (record { pool = m }) ≡ []))
        ⊎ Takes (record { pool = m }) (get_txs_for_block sort (record { pool = m }))
  unfolding get_txs_for_block get_txs
  taken [] h = inl (refl, refl)
  taken ((k, tx) ∷ []) h = inr (0, [], refl, omega arith, omega arith, Permᴰ.refl _, (tt, tt))
  taken (a ∷ b ∷ m) h = inr (
      rw (for_block_many (record { pool = a ∷ b ∷ m }) (omega arith))
        (take_many (record { pool = a ∷ b ∷ m }) (omega arith) h))

  -- For a pool of fewer than 2^62 transactions, `GetTxsForBlock` returns nothing only from an empty
  -- pool. Else it returns 2^k of the pool's transactions in ascending order of nonce, where 2^k is the
  -- greatest power of two that the pool's size reaches; the others are left over.
  pub get_txs_for_block_lem :
      (mp : Mempool)
      → length mp.pool < 2 ^ 62
      → ((mp.pool ≡ []) × (get_txs_for_block sort mp ≡ []))
        ⊎ ((k : ℕ) × (rest : List Transaction) × (length (get_txs_for_block sort mp) ≡ 2 ^ k)
            × (2 ^ k ≤ length mp.pool)
            × (length mp.pool < 2 ^ suc k)
            × Permᴰ (get_txs_for_block sort mp ++ rest) (values mp.pool)
            × IsSortedBy nonce_less (get_txs_for_block sort mp))
  get_txs_for_block_lem mp h = taken mp.pool h

-- Removal of a list of keys.
abbrev pub is_listed : Bytes → List Bytes → Bool
is_listed k keys = contains_func keys (λ j. bytes_eq k j)

contains-delete :
    (key k : Bytes) (m : Map Transaction)
    → IsMap m
    → contains (record { pool = delete k m }) key
      ≡ (contains (record { pool = m }) key && not (bytes_eq key k))
unfolding contains
contains-delete key k m h =
    ground (arith, bytes_eq_iff key k, lookup-delete_self k m h, lookup-delete_ne k key m)

contains-remove :
    (key : Bytes) (keys : List Bytes) (mp : Mempool)
    → IsMap mp.pool
    → (contains (remove mp keys) key ≡ (contains mp key && not (is_listed key keys)))
      × IsMap (remove mp keys).pool
unfolding remove
contains-remove key [] mp h = ground arith
contains-remove key (k ∷ keys) mp h =
    let (rest, map) =
      contains-remove key keys (record mp { pool = delete k mp.pool }) (delete-IsMap k mp.pool h) in
    (ground (arith, rest, contains-delete key k mp.pool h), map)

-- Over a pool in which no key occurs twice, `Append` adds exactly the transaction's own key, `Remove`
-- takes away exactly the listed keys, and no key occurs twice afterwards.
pub append_remove_lem :
    (e : Env) (mp : Mempool) (tx : Transaction) (keys : List Bytes) (key : Bytes)
    → IsMap mp.pool
    → (contains (append e mp tx) key
        ≡ (bytes_eq key (e.base58_encode (content tx.hash)) || contains mp key))
      × (contains (remove mp keys) key ≡ (contains mp key && not (is_listed key keys)))
      × IsMap (append e mp tx).pool
      × IsMap (remove mp keys).pool
unfolding append contains
append_remove_lem e mp tx keys key h =
    let (removed, map) = contains-remove key keys mp h in
    let k = e.base58_encode (content tx.hash) in
    (ground (arith, lookup-insert k key tx mp.pool), removed, insert-IsMap k tx mp.pool h, map)

-- ===== src/Merkle/Laws.antt =====
-- The level loop of common/merkle/merkle_tree.go against a top-down description of the root.
use mathlib.Core.Path.{ap₂}
use native.Mathlib.Nat.{add-suc, suc-add, two-pow-succ}
use simple_blockchain_go.Base.{
  Bool-cases, Bytes, Error, List, [], ap, arith, drop, err, inl, inr, length, length-drop,
  length-map, length-take, map, ok, refl, suc, sym, take, zero, ℕ, ◌++◌, ◌+◌, ◌^◌, ◌∙◌, ◌∷◌, ◌≡◌,
  ◌≢◌, ◌≤◌,
}
use simple_blockchain_go.Common.{is_power_of_2}
use simple_blockchain_go.Common.Bits.{is_power_of_2-pow, is_power_of_2_iff}
use simple_blockchain_go.Common.Powers.{lt-pow, pow-pos}
use simple_blockchain_go.Merkle.{
  MerkleNode, build_levels, inner, leaf, leaves_from_raw, new_level, node_data, tree_from_nodes,
  tree_from_raw,
}

module _ (sum256 : Bytes → Bytes) where
  -- The root hash over 2^k leaf hashes: the hash of the roots of the two halves.
  unfoldable pub merkle_root : ℕ → List Bytes → Bytes
  merkle_root zero [] = []
  merkle_root zero (d ∷ ds) = d
  merkle_root (suc k) ds =
      sum256 (merkle_root k (take (2 ^ k) ds) ++ merkle_root k (drop (2 ^ k) ds))

  -- The hashes of one level up.
  pairs : List Bytes → List Bytes
  pairs [] = []
  pairs (a ∷ []) = []
  pairs (a ∷ b ∷ ds) = sum256 (a ++ b) ∷ pairs ds

  pairs-take : (m : ℕ) (ds : List Bytes) → pairs (take (m + m) ds) ≡ take m (pairs ds)
  unfolding pairs
  pairs-take zero ds = refl
  pairs-take (suc m) [] = rw (add-suc (suc m) m)
  pairs-take (suc m) (a ∷ []) = rw (add-suc (suc m) m, suc-add m m)
  pairs-take (suc m) (a ∷ b ∷ ds) = rw (add-suc (suc m) m, suc-add m m, pairs-take m ds)

  pairs-drop : (m : ℕ) (ds : List Bytes) → pairs (drop (m + m) ds) ≡ drop m (pairs ds)
  unfolding pairs
  pairs-drop zero ds = refl
  pairs-drop (suc m) [] = rw (add-suc (suc m) m)
  pairs-drop (suc m) (a ∷ []) = rw (add-suc (suc m) m, suc-add m m)
  pairs-drop (suc m) (a ∷ b ∷ ds) = rw (add-suc (suc m) m, suc-add m m) (pairs-drop m ds)

  length-pairs : (m : ℕ) (ds : List Bytes) → length ds ≡ m + m → length (pairs ds) ≡ m
  unfolding pairs
  length-pairs zero [] h = refl
  length-pairs zero (a ∷ ds) h = absurd (omega arith)
  length-pairs (suc m) [] h = absurd (omega arith)
  length-pairs (suc m) (a ∷ []) h = absurd (omega arith)
  length-pairs (suc m) (a ∷ b ∷ ds) h = ap suc (length-pairs m ds (omega arith))

  merkle_root-pairs :
      (k : ℕ) (ds : List Bytes)
      → length ds ≡ 2 ^ suc k
      → merkle_root (suc k) ds ≡ merkle_root k (pairs ds)
  unfolding merkle_root pairs
  merkle_root-pairs zero [] h = absurd (omega arith)
  merkle_root-pairs zero (a ∷ []) h = absurd (omega arith)
  merkle_root-pairs zero (a ∷ b ∷ []) h = refl
  merkle_root-pairs zero (a ∷ b ∷ c ∷ ds) h = absurd (omega arith)
  merkle_root-pairs (suc k) ds h =
      let double = two-pow-succ k in
      let whole : length ds ≡ 2 ^ suc k + 2 ^ suc k = omega (arith, two-pow-succ (suc k)) in
      let left =
        merkle_root-pairs k (take (2 ^ suc k) ds) (length-take (2 ^ suc k) ds (omega arith)) in
      let right =
        merkle_root-pairs k (drop (2 ^ suc k) ds) (length-drop (2 ^ suc k) (2 ^ suc k) ds whole) in
      ap₂ (λ l r. sum256 (l ++ r))
        (left ∙ ap (merkle_root k) (ap (λ n. pairs (take n ds)) double ∙ pairs-take (2 ^ k) ds))
        (right ∙ ap (merkle_root k) (ap (λ n. pairs (drop n ds)) double ∙ pairs-drop (2 ^ k) ds))

  new_level_lem :
      (m : ℕ) (nodes : List MerkleNode)
      → length nodes ≡ m + m
      → (level : List MerkleNode) × (new_level sum256 nodes ≡ ok level)
        × (map node_data level ≡ pairs (map node_data nodes))
        × (length level ≡ m)
  unfolding new_level pairs
  new_level_lem m [] h = ([], refl, refl, omega arith)
  new_level_lem m (a ∷ []) h = absurd (omega arith)
  new_level_lem zero (a ∷ b ∷ nodes) h = absurd (omega arith)
  new_level_lem (suc m) (a ∷ b ∷ nodes) h =
      let (level, done, hashes, size) = new_level_lem m nodes (omega arith) in
      (inner a b (sum256 (node_data a ++ node_data b)) ∷ level, rw done, rw hashes, rw size)

  build_levels_lem :
      (k f : ℕ) (nodes : List MerkleNode)
      → length nodes ≡ 2 ^ k
      → k ≤ f
      → (t : MerkleNode) × (build_levels sum256 f nodes ≡ ok t)
        × (node_data t ≡ merkle_root k (map node_data nodes))
  unfolding build_levels merkle_root
  build_levels_lem k f [] h le = absurd (omega (arith, pow-pos k))
  build_levels_lem zero f (a ∷ []) h le = (a, refl, refl)
  build_levels_lem (suc k) f (a ∷ []) h le = absurd (omega (arith, two-pow-succ k, pow-pos k))
  build_levels_lem zero f (a ∷ b ∷ nodes) h le = absurd (omega arith)
  build_levels_lem (suc k) zero (a ∷ b ∷ nodes) h le = absurd (omega arith)
  build_levels_lem (suc k) (suc f) (a ∷ b ∷ nodes) h le =
      let (level, done, hashes, size) =
        new_level_lem (2 ^ k) (a ∷ b ∷ nodes) (omega (arith, two-pow-succ k)) in
      let (t, built, root) = build_levels_lem k f level size (omega arith) in
      let up =
        merkle_root-pairs k (map node_data (a ∷ b ∷ nodes))
          (length-map (a ∷ b ∷ nodes) node_data ∙ h) in
      (t, rw done built, root ∙ ap (merkle_root k) hashes ∙ sym up)

  -- Over 2^k nodes `NewMerkleTreeFromNodes` does not panic, and its root is the hash of the roots of
  -- the two halves of the nodes' hashes, down to single nodes.
  pub tree_from_nodes_lem :
      (k : ℕ) (nodes : List MerkleNode)
      → length nodes ≡ 2 ^ k
      → (t : MerkleNode) × (tree_from_nodes sum256 nodes ≡ ok t)
        × (node_data t ≡ merkle_root k (map node_data nodes))
  unfolding tree_from_nodes
  tree_from_nodes_lem k nodes h =
      build_levels_lem k (length nodes) nodes h (omega (arith, lt-pow k))

  leaves_from_raw_lem :
      (raws : List Bytes) → leaves_from_raw sum256 raws ≡ ok (map (λ b. leaf (sum256 b)) raws)
  unfolding leaves_from_raw
  leaves_from_raw_lem [] = refl
  leaves_from_raw_lem (b ∷ raws) = rw (leaves_from_raw_lem raws)

  map-leaves :
      (raws : List Bytes) → map node_data (map (λ b. leaf (sum256 b)) raws) ≡ map sum256 raws
  map-leaves [] = refl
  map-leaves (b ∷ raws) = rw (map-leaves raws)

  -- `NewMerkleTreeFromRaw` never panics. Over 2^k items it gives the root over their hashes, and for
  -- a number of items that is no power of two, none included, it returns its error.
  pub tree_from_raw_lem :
      (raws : List Bytes)
      → ((k : ℕ)
          → length raws ≡ 2 ^ k
          → (t : MerkleNode) × (tree_from_raw sum256 raws ≡ ok t)
            × (node_data t ≡ merkle_root k (map sum256 raws)))
        × (((k : ℕ) → length raws ≢ 2 ^ k) → tree_from_raw sum256 raws ≡ err Error.not_power_of_2)
  unfolding tree_from_raw
  tree_from_raw_lem raws = (built, refused)
    where
      built :
          (k : ℕ)
          → length raws ≡ 2 ^ k
          → (t : MerkleNode) × (tree_from_raw sum256 raws ≡ ok t)
            × (node_data t ≡ merkle_root k (map sum256 raws))
      built k h =
          let nodes = map (λ b. leaf (sum256 b)) raws in
          let (t, e, root) = tree_from_nodes_lem k nodes (length-map raws _ ∙ h) in
          (
            t,
            rw (h, is_power_of_2-pow k, leaves_from_raw_lem raws) e,
            root ∙ ap (merkle_root k) (map-leaves raws),
          )

      refused :
          ((k : ℕ) → length raws ≢ 2 ^ k) → tree_from_raw sum256 raws ≡ err Error.not_power_of_2
      refused h = elim (Bool-cases (is_power_of_2 (length raws))) [
        | inl power ↦ let (k, e) = (is_power_of_2_iff _).0 power in absurd (h k e)
        | inr other ↦ rw other
      ]

-- ===== src/Merkle.antt =====
-- common/merkle/merkle_tree.go. The hash sha3.Sum256 is a parameter.
pub mod Laws
use simple_blockchain_go.Base.{
  Bytes, Error, List, Option, Outcome, [], err, if◌then◌else◌, length, none, ok, panic, some, suc,
  zero, ℕ, ◌++◌, ◌>>=◌, ◌∷◌,
}
use simple_blockchain_go.Common.{is_power_of_2}

-- A `MerkleNode` has both children or none.
pub data MerkleNode : Type 0 where
  leaf : Bytes → MerkleNode
  inner : MerkleNode → MerkleNode → Bytes → MerkleNode

-- The field `Data`.
abbrev pub node_data : MerkleNode → Bytes
node_data (leaf d) = d
node_data (inner l r d) = d

module _ (sum256 : Bytes → Bytes) where
  -- `NewMerkleNode`: with one child nil it reads a field through the nil pointer.
  unfoldable pub new_merkle_node :
      Option MerkleNode → Option MerkleNode → Bytes → Outcome MerkleNode
  new_merkle_node none none d = ok (leaf (sum256 d))
  new_merkle_node (some l) (some r) d = ok (inner l r (sum256 (node_data l ++ node_data r)))
  new_merkle_node none (some r) d = panic
  new_merkle_node (some l) none d = panic

  -- The body of the level loop: `level[j+1]` is out of range at the end of an odd level.
  unfoldable pub new_level : List MerkleNode → Outcome (List MerkleNode)
  unfolding new_merkle_node
  new_level [] = ok []
  new_level (a ∷ []) = panic
  new_level (a ∷ b ∷ level) = do
    n ← new_merkle_node (some a) (some b) []
    rest ← new_level level
    ok (n ∷ rest)

  -- `for len(level) > 1`, then `level[0]`. The fuel is the length of the first level.
  unfoldable pub build_levels : ℕ → List MerkleNode → Outcome MerkleNode
  build_levels fuel [] = panic
  build_levels fuel (n ∷ []) = ok n
  build_levels zero (a ∷ b ∷ level) = panic
  build_levels (suc fuel) (a ∷ b ∷ level) = new_level (a ∷ b ∷ level) >>= build_levels fuel

  -- `NewMerkleTreeFromNodes`
  unfoldable pub tree_from_nodes : List MerkleNode → Outcome MerkleNode
  unfolding build_levels new_level
  tree_from_nodes nodes = build_levels (length nodes) nodes

  -- The leaf loop of `NewMerkleTreeFromRaw`.
  unfoldable pub leaves_from_raw : List Bytes → Outcome (List MerkleNode)
  unfolding new_merkle_node
  leaves_from_raw [] = ok []
  leaves_from_raw (bs ∷ raws) = do
    n ← new_merkle_node none none bs
    rest ← leaves_from_raw raws
    ok (n ∷ rest)

  -- `NewMerkleTreeFromRaw`
  unfoldable pub tree_from_raw : List Bytes → Outcome MerkleNode
  unfolding tree_from_nodes leaves_from_raw is_power_of_2
  tree_from_raw raws =
      if is_power_of_2 (length raws)
      then (leaves_from_raw raws >>= tree_from_nodes)
      else err Error.not_power_of_2

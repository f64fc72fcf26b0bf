-- ===== src/Memory/Db.antt =====
-- memory/memory_db.go, over the contents `C` with their `ToBytes` and the default content. A box
-- holds only its content, so the map goes from keys to contents.
pub mod StateHash
use simple_blockchain_go.Base.{
  Bool, Bytes, List, Map, Option, Outcome, Sort, [], content, false, insert, json, length, less_by,
  lookup, none, ok, or_err, replicate, some, suc, true, zero, ℕ, ◌*◌, ◌++◌, ◌+◌, ◌-◌, ◌>>=◌, ◌∷◌,
}
use simple_blockchain_go.Common.{next_power_of_2}
use simple_blockchain_go.Env.{Env}
use simple_blockchain_go.Merkle.{MerkleNode, leaf, node_data}

-- `fakeKey`: the letters of "fakekey".
abbrev pub fake_key : Bytes
fake_key = b'f' ∷ b'a' ∷ b'k' ∷ b'e' ∷ b'k' ∷ b'e' ∷ b'y' ∷ []

-- `big.Int.SetBytes`: the bytes as an unsigned number in big-endian order.
unfoldable pub big_int : ℕ → Bytes → ℕ
big_int acc [] = acc
big_int acc (b ∷ bs) = big_int (acc * 256 + b) bs

-- The order of the nodes: `aInt.Cmp(bInt) == -1`.
abbrev pub node_key : MerkleNode → ℕ
node_key n = big_int 0 (node_data n)

abbrev pub node_less : MerkleNode → MerkleNode → Bool
node_less = less_by node_key

module _ {C : Type 0} where
  -- `Put`, whether the key is there or not.
  unfoldable pub put : Bytes → C → Map C → Map C
  put key content m = insert key content m

  -- `Get`, with the default and false for a key that is not there.
  unfoldable pub get : C → Bytes → Map C → C × Bool
  get default key m = elim (lookup key m) [ none ↦ (default, false) | some c ↦ (c, true) ]

module _ (e : Env) {C : Type 0} (to_bytes : C → Option Bytes) where
  -- `getMerkleNode`
  unfoldable pub get_merkle_node : Bytes → C → Outcome MerkleNode
  get_merkle_node pub_key c = do
    b ← or_err (to_bytes c) json
    ok (leaf (e.sum256 (e.base58_decode pub_key ++ b)))

  -- The loop over the map.
  unfoldable pub nodes_of : Map C → Outcome (List MerkleNode)
  nodes_of [] = ok []
  nodes_of ((k, c) ∷ m) = do n ← get_merkle_node k c; rest ← nodes_of m; ok (n ∷ rest)

  -- The nodes past the map's own, up to `total`.
  unfoldable pub fake_nodes : C → ℕ → Outcome (List MerkleNode)
  fake_nodes default zero = ok []
  fake_nodes default (suc n) = do
    fake ← get_merkle_node fake_key default
    ok (replicate (suc n) fake)

  -- `GetMerkleNodes`
  unfoldable pub get_merkle_nodes : Sort MerkleNode → C → Map C → Outcome (List MerkleNode)
  get_merkle_nodes sort default m = do
    nodes ← nodes_of m
    fakes ← fake_nodes default (next_power_of_2 (length m) - length m)
    ok (sort node_less nodes ++ fakes)

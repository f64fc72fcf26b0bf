-- ===== src/Tests/Helpers.antt =====
-- The theorems on Merkle trees and signatures at concrete inputs.
use simple_blockchain_go.Base.{
  Bytes, List, [], arith, bytes_eq_self, length, length-append, map, ok, refl, some, true, ◌++◌,
  ◌<◌, ◌∷◌, ◌≡◌,
}
use simple_blockchain_go.Merkle.{MerkleNode, leaf, node_data, tree_from_nodes}
use simple_blockchain_go.Merkle.Laws.{merkle_root, tree_from_nodes_lem}
use simple_blockchain_go.Tests.Data.{alice, bob, env, hash_size_lem, test_hash, wallet}
use simple_blockchain_go.Txs.{new_transaction, verify_tx}
use simple_blockchain_go.Wallets.{sign_tx}
use simple_blockchain_go.Wallets.Laws.{sign_tx-verify}

abbrev leaves : List MerkleNode
leaves = leaf alice ∷ leaf bob ∷ []

tree_from_nodes_lem_example :
    (t : MerkleNode) × (tree_from_nodes test_hash leaves ≡ ok t)
    × (node_data t ≡ merkle_root test_hash 1 (map node_data leaves))
tree_from_nodes_lem_example = tree_from_nodes_lem test_hash 1 leaves refl

signs_own : (m : Bytes) → env.ed25519_verify alice m (env.ed25519_sign alice m) ≡ true
signs_own m = bytes_eq_self (alice ++ m)

not_empty : (m : Bytes) → 0 < length (env.ed25519_sign alice m)
not_empty m = omega (arith, length-append alice m)

signed_ok : (sign_tx env wallet (new_transaction (some (1 ∷ 50 ∷ [])) 1)).1 ≡ ok tt
unfolding sign_tx
signed_ok = refl

sign_tx-verify_example :
    verify_tx env (sign_tx env wallet (new_transaction (some (1 ∷ 50 ∷ [])) 1)).0 ≡ ok true
sign_tx-verify_example =
    sign_tx-verify env hash_size_lem wallet (1 ∷ 50 ∷ []) 1 refl signs_own not_empty refl
      (omega arith) (omega arith) signed_ok

-- ===== src/Memory/Db/StateHash.antt =====
-- GetMerkleNodes of memory/memory_db.go: the order in which Go ranges over the map does not matter.
use mathlib.Core.List.Permᴰ
use mathlib.Core.List.{Permᴰ}
use mathlib.Core.Path.{ap₂, subst, subst₂}
use simple_blockchain_go.Base.{
  All, Bytes, Error, List, Map, Option, Outcome, Sort, Sorts, [], ap, arith, err, json, length,
  length_of_perm, none, ok, or_err, panic, refl, some, sort-perm, sym, ℕ, ◌*◌, ◌++◌, ◌+◌, ◌-◌, ◌<◌,
  ◌>>=◌, ◌∙◌, ◌∷◌, ◌≡◌,
}
use simple_blockchain_go.Common.{hash_size, next_power_of_2}
use simple_blockchain_go.Env.{Env}
use simple_blockchain_go.Memory.Db.{
  big_int, fake_nodes, get_merkle_node, get_merkle_nodes, node_key, node_less, nodes_of,
}
use simple_blockchain_go.Merkle.{MerkleNode, leaf, node_data}

-- Bytes are below 256, and there are as many of them as a hash has.
abbrev pub IsHash : Bytes → Type 0
IsHash d = (length d ≡ hash_size) × All (λ b. b < 256) d

big_int_injective :
    (xs ys : Bytes) (a c : ℕ)
    → length xs ≡ length ys
    → All (λ b. b < 256) xs
    → All (λ b. b < 256) ys
    → big_int a xs ≡ big_int c ys
    → (a ≡ c) × (xs ≡ ys)
unfolding big_int
big_int_injective [] [] a c l hx hy h = (h, refl)
big_int_injective [] (y ∷ ys) a c l hx hy h = absurd (omega arith)
big_int_injective (x ∷ xs) [] a c l hx hy h = absurd (omega arith)
big_int_injective (x ∷ xs) (y ∷ ys) a c l hx hy h =
    let (e, tails) =
      big_int_injective xs ys (a * 256 + x) (c * 256 + y) (omega arith) hx.1 hy.1 h in
    (omega arith, ap₂ ◌∷◌ (omega arith) tails)

abbrev IsHashNode : MerkleNode → Type 0
IsHashNode n = (n ≡ leaf (node_data n)) × IsHash (node_data n)

apart : (a b : MerkleNode) → IsHashNode a → IsHashNode b → node_key a ≡ node_key b → a ≡ b
apart a b (ea, (la, ba)) (eb, (lb, bb)) h =
    ea
    ∙ ap leaf (big_int_injective (node_data a) (node_data b) 0 0 (la ∙ sym lb) ba bb h).1
    ∙ sym eb

-- The same nodes in some order, or the same failure.
data Related : Outcome (List MerkleNode) → Outcome (List MerkleNode) → Type 0 where
  both_ok : {xs ys : List MerkleNode} → Permᴰ xs ys → Related (ok xs) (ok ys)
  both_err : {x y : Error} → x ≡ y → Related (err x) (err y)
  both_panic : Related panic panic

Related-refl : (m : Outcome (List MerkleNode)) → Related m m
Related-refl (ok xs) = both_ok (Permᴰ.refl xs)
Related-refl (err x) = both_err refl
Related-refl panic = both_panic

Related-trans : {a b c : Outcome (List MerkleNode)} → Related a b → Related b c → Related a c
Related-trans (both_ok p) (both_ok q) = both_ok (Permᴰ.trans p q)
Related-trans (both_err p) (both_err q) = both_err (p ∙ q)
Related-trans both_panic both_panic = both_panic

module _ (e : Env) {C : Type 0} (to_bytes : C → Option Bytes) where
  -- The loop's step on one box, whose content marshals to `o`.
  abbrev step : Bytes → Option Bytes → Outcome (List MerkleNode) → Outcome (List MerkleNode)
  step k o rest = do
    n ← or_err o json >>= (λ b. ok (leaf (e.sum256 (e.base58_decode k ++ b))))
    ns ← rest
    ok (n ∷ ns)

  step-Related :
      (k : Bytes) (o : Option Bytes) {m m' : Outcome (List MerkleNode)}
      → Related m m'
      → Related (step k o m) (step k o m')
  step-Related k none r = both_err refl
  step-Related k (some b) (both_ok p) = both_ok (Permᴰ.cons refl p)
  step-Related k (some b) (both_err p) = both_err p
  step-Related k (some b) both_panic = both_panic

  step_swap :
      (k j : Bytes) (o p : Option Bytes) (m : Outcome (List MerkleNode))
      → Related (step k o (step j p m)) (step j p (step k o m))
  step_swap k j none none m = both_err refl
  step_swap k j none (some b) m = both_err refl
  step_swap k j (some b) none m = both_err refl
  step_swap k j (some b) (some c) (ok ns) = both_ok (Permᴰ.swap refl refl)
  step_swap k j (some b) (some c) (err x) = both_err refl
  step_swap k j (some b) (some c) panic = both_panic

  nodes_of-perm :
      {m m' : Map C} → Permᴰ m m' → Related (nodes_of e to_bytes m) (nodes_of e to_bytes m')
  unfolding nodes_of get_merkle_node
  nodes_of-perm Permᴰ.nil = both_ok Permᴰ.nil
  nodes_of-perm (Permᴰ.cons {a = a} {l₁ = l} {l₂ = l'} p q) =
      subst (λ b. Related (nodes_of e to_bytes (a ∷ l)) (nodes_of e to_bytes (b ∷ l'))) p
        (step-Related a.0 (to_bytes a.1) (nodes_of-perm q))
  nodes_of-perm (Permᴰ.swap {a = a} {b = b} {l = l} p q) =
      subst₂
        (λ b' a'. Related (nodes_of e to_bytes (a ∷ b ∷ l)) (nodes_of e to_bytes (a' ∷ b' ∷ l))) p q
        (step_swap a.0 b.0 (to_bytes a.1) (to_bytes b.1) (nodes_of e to_bytes l))
  nodes_of-perm (Permᴰ.trans p q) = Related-trans (nodes_of-perm p) (nodes_of-perm q)

module _ (e : Env) (hashes : (b : Bytes) → IsHash (e.sum256 b)) {C : Type 0}
    (to_bytes : C → Option Bytes) where
  abbrev OnOk : Outcome (List MerkleNode) → Type 0
  OnOk (ok nodes) = All IsHashNode nodes
  OnOk (err x) = Unit
  OnOk panic = Unit

  step-OnOk :
      (k : Bytes) (o : Option Bytes) (m : Outcome (List MerkleNode))
      → OnOk m
      → OnOk (step e to_bytes k o m)
  step-OnOk k none m h = tt
  step-OnOk k (some b) (ok ns) h = ((refl, hashes _), h)
  step-OnOk k (some b) (err x) h = tt
  step-OnOk k (some b) panic h = tt

  nodes_of-OnOk : (m : Map C) → OnOk (nodes_of e to_bytes m)
  unfolding nodes_of get_merkle_node
  nodes_of-OnOk [] = tt
  nodes_of-OnOk ((k, c) ∷ m) = step-OnOk k (to_bytes c) (nodes_of e to_bytes m) (nodes_of-OnOk m)

  sorted_same :
      (sort : Sort MerkleNode) (sorts : Sorts sort node_less) (fakes : Outcome (List MerkleNode))
      {m m' : Outcome (List MerkleNode)}
      → Related m m'
      → OnOk m
      → (m >>= (λ nodes. fakes >>= (λ fs. ok (sort node_less nodes ++ fs))))
        ≡ (m' >>= (λ nodes. fakes >>= (λ fs. ok (sort node_less nodes ++ fs))))
  sorted_same sort sorts fakes (both_ok {xs = xs} p) h =
      ap (λ nodes. fakes >>= (λ fs. ok (nodes ++ fs)))
        (sort-perm node_key IsHashNode apart sort sorts p h)
  sorted_same sort sorts fakes (both_err p) h = ap err p
  sorted_same sort sorts fakes both_panic h = refl

  -- For two orders in which Go may range over one map, `GetMerkleNodes` returns the same nodes in the
  -- same order, or the same error; so the state hash does not depend on the map's iteration order.
  pub get_merkle_nodes-perm :
      (sort : Sort MerkleNode)
      → Sorts sort node_less
      → (default : C) {m m' : Map C} → Permᴰ m m'
      → get_merkle_nodes e to_bytes sort default m ≡ get_merkle_nodes e to_bytes sort default m'
  unfolding get_merkle_nodes
  get_merkle_nodes-perm sort sorts default {m} {m'} p =
      sorted_same sort sorts (fake_nodes e to_bytes default (next_power_of_2 (length m) - length m))
        (nodes_of-perm e to_bytes p) (nodes_of-OnOk m)
      ∙ ap
          (λ n. nodes_of e to_bytes m' >>= (λ nodes.
            fake_nodes e to_bytes default (next_power_of_2 n - n)
            >>= (λ fs. ok (sort node_less nodes ++ fs))))
          (length_of_perm p)

-- ===== src/Base/Maps.antt =====
-- A Go map with string keys, as an association list in the order in which `range` goes through it.
use mathlib.Core.Path.{◌≡◌, refl}
use mathlib.Core.Bool.{false}
use mathlib.Core.Option.{Option, none, some}
use mathlib.Core.List.{List, [], ◌∷◌}
use native.Mathlib.Omega.{arith}
use mathlib.Core.Logic.{inl, inr}
use simple_blockchain_go.Base.Tests.{Bool-cases, if◌then◌else◌}
use simple_blockchain_go.Base.Slices.{Bytes, bytes_eq, bytes_eq_iff}

abbrev pub Map : Type 0 → Type 0
Map V = List (Bytes × V)

module _ {V : Type 0} where
  abbrev pub lookup : Bytes → Map V → Option V
  lookup k [] = none
  lookup k ((j, v) ∷ m) = if bytes_eq k j then some v else lookup k m

  -- `m[k] = v`
  abbrev pub insert : Bytes → V → Map V → Map V
  insert k v [] = (k, v) ∷ []
  insert k v ((j, w) ∷ m) = if bytes_eq k j then (k, v) ∷ m else (j, w) ∷ insert k v m

  -- `delete(m, k)`
  abbrev pub delete : Bytes → Map V → Map V
  delete k [] = []
  delete k ((j, w) ∷ m) = if bytes_eq k j then m else (j, w) ∷ delete k m

  -- No key occurs twice.
  abbrev pub IsMap : Map V → Type 0
  IsMap [] = Unit
  IsMap ((k, v) ∷ m) = (lookup k m ≡ none) × IsMap m

  pub lookup-insert :
      (k j : Bytes) (v : V) (m : Map V)
      → lookup j (insert k v m) ≡ (if bytes_eq j k then some v else lookup j m)
  lookup-insert k j v [] = refl
  lookup-insert k j v ((i, w) ∷ m) =
      ground (arith, bytes_eq_iff j k, bytes_eq_iff k i, bytes_eq_iff j i, lookup-insert k j v m)

  pub lookup-delete_ne :
      (k j : Bytes) (m : Map V) → bytes_eq j k ≡ false → lookup j (delete k m) ≡ lookup j m
  lookup-delete_ne k j [] h = refl
  lookup-delete_ne k j ((i, w) ∷ m) h =
      ground (arith, bytes_eq_iff j k, bytes_eq_iff k i, bytes_eq_iff j i, lookup-delete_ne k j m h)

  pub lookup-delete_self : (k : Bytes) (m : Map V) → IsMap m → lookup k (delete k m) ≡ none
  lookup-delete_self k [] h = refl
  lookup-delete_self k ((i, w) ∷ m) h = ground (arith, bytes_eq_iff k i, lookup-delete_self k m h.1)

  pub insert-IsMap : (k : Bytes) (v : V) (m : Map V) → IsMap m → IsMap (insert k v m)
  insert-IsMap k v [] h = (refl, tt)
  insert-IsMap k v ((i, w) ∷ m) h =
      ground
        (arith, insert-IsMap k v m h.1, lookup-insert k i v m, bytes_eq_iff k i, bytes_eq_iff i k)

  delete_absent : (k j : Bytes) (m : Map V) → lookup j m ≡ none → lookup j (delete k m) ≡ none
  delete_absent k j [] h = refl
  delete_absent k j ((i, w) ∷ m) h = ground (arith, delete_absent k j m)

  pub delete-IsMap : (k : Bytes) (m : Map V) → IsMap m → IsMap (delete k m)
  delete-IsMap k [] h = tt
  delete-IsMap k ((i, w) ∷ m) h = ground (arith, delete-IsMap k m h.1, delete_absent k i m h.0)

  pub insert-present : (k : Bytes) (v : V) (m : Map V) → lookup k m ≡ some v → insert k v m ≡ m
  insert-present k v [] h = cc
  insert-present k v ((i, w) ∷ m) h = ground (arith, bytes_eq_iff k i, insert-present k v m)

  -- Each entry has the property.
  abbrev pub Entries : (Bytes → V → Type 0) → Map V → Type 0
  Entries P [] = Unit
  Entries P ((k, v) ∷ m) = P k v × Entries P m

  pub insert-Entries :
      (P : Bytes → V → Type 0) (k : Bytes) (v : V) (m : Map V)
      → P k v
      → Entries P m
      → Entries P (insert k v m)
  insert-Entries P k v [] p h = (p, tt)
  insert-Entries P k v ((j, w) ∷ m) p h = elim (Bool-cases (bytes_eq k j)) [
    | inl here ↦ rw here (p, h.1)
    | inr there ↦ rw there (h.0, insert-Entries P k v m p h.1)
  ]

  pub delete-Entries :
      (P : Bytes → V → Type 0) (k : Bytes) (m : Map V) → Entries P m → Entries P (delete k m)
  delete-Entries P k [] h = tt
  delete-Entries P k ((j, w) ∷ m) h = elim (Bool-cases (bytes_eq k j)) [
    | inl here ↦ rw here (h.1)
    | inr there ↦ rw there (h.0, delete-Entries P k m h.1)
  ]

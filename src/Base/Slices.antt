-- ===== src/Base/Slices.antt =====
-- Go's `[]byte` and `string`. A string is its bytes; a slice may be nil, and `bytes.Equal` does not
-- tell a nil slice from an empty one.
use Prim.Native.Nat.{ℕ, ◌≤◌}
use mathlib.Core.Path.{◌≡◌, refl}
use mathlib.Core.Logic.{◌↔◌}
use mathlib.Core.Bool.{Bool, true, false, ◌&&◌}
use mathlib.Core.Option.{Option, none, some}
use mathlib.Core.List.{List, [], ◌∷◌}
use native.Mathlib.Omega.{arith}
use simple_blockchain_go.Base.Tests.{◌==◌}
use simple_blockchain_go.Base.Lists.{length}

abbrev pub Bytes : Type 0
Bytes = List ℕ

unfoldable pub bytes_eq : Bytes → Bytes → Bool
bytes_eq [] [] = true
bytes_eq [] (y ∷ ys) = false
bytes_eq (x ∷ xs) [] = false
bytes_eq (x ∷ xs) (y ∷ ys) = x == y && bytes_eq xs ys

pub eq_of_bytes_eq : (a b : Bytes) → bytes_eq a b ≡ true → a ≡ b
unfolding bytes_eq
eq_of_bytes_eq [] [] h = refl
eq_of_bytes_eq [] (y ∷ ys) h = cc
eq_of_bytes_eq (x ∷ xs) [] h = cc
eq_of_bytes_eq (x ∷ xs) (y ∷ ys) h = ground (arith, eq_of_bytes_eq xs ys)

pub bytes_eq_self : (a : Bytes) → bytes_eq a a ≡ true
unfolding bytes_eq
bytes_eq_self [] = refl
bytes_eq_self (x ∷ xs) = ground (arith, bytes_eq_self xs)

pub bytes_eq_iff : (a b : Bytes) → (bytes_eq a b ≡ true) ↔ (a ≡ b)
bytes_eq_iff a b = (eq_of_bytes_eq a b, λ e. rw e (bytes_eq_self b))

pub bytes_eq_comm : (a b : Bytes) → bytes_eq a b ≡ bytes_eq b a
bytes_eq_comm a b = ground (arith, bytes_eq_iff a b, bytes_eq_iff b a)

-- `none` is the nil slice.
abbrev pub Slice : Type 0
Slice = Option Bytes

abbrev pub content : Slice → Bytes
content none = []
content (some b) = b

abbrev pub len : Slice → ℕ
len s = length (content s)

abbrev pub not_nil : Slice → Bool
not_nil none = false
not_nil (some b) = true

-- `bytes.Equal`
abbrev pub equal : Slice → Slice → Bool
equal a b = bytes_eq (content a) (content b)

pub not_nil_of_len : (s : Slice) → 1 ≤ len s → not_nil s ≡ true
not_nil_of_len none h = absurd (omega arith)
not_nil_of_len (some b) h = refl

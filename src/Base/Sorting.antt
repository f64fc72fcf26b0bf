-- ===== src/Base/Sorting.antt =====
-- What `slices.SortFunc` promises, and why a sort by a key that tells the elements apart does not
-- depend on the order of its input.
use Prim.Native.Nat.{ℕ, suc}
use mathlib.Core.Path.{◌≡◌, refl, ap, subst, ap₂, sym, ◌∙◌}
use mathlib.Core.Logic.{inl, inr}
use mathlib.Core.Bool.{Bool, true, false}
use mathlib.Core.List.Permᴰ
use mathlib.Core.List.{List, [], ◌∷◌, Permᴰ}
use native.Mathlib.Omega.{arith}
use simple_blockchain_go.Base.Tests.{ltb, leb, if◌then◌else◌}
use simple_blockchain_go.Base.Lists.{length, All}
use simple_blockchain_go.Base.Tests.{Bool-cases}

-- `slices.SortFunc (xs, less)`, as a function to the sorted slice.
abbrev pub Sort : Type 0 → Type 0
Sort A = (A → A → Bool) → List A → List A

-- No element stands before one that is less.
abbrev pub IsSortedBy {ℓ} : {A : Type ℓ} → (A → A → Bool) → List A → Type 0
IsSortedBy less [] = Unit
IsSortedBy less (x ∷ xs) = All (λ y. less y x ≡ false) xs × IsSortedBy less xs

-- The documented result of SortFunc: the same elements, in ascending order.
abbrev pub Sorts : {A : Type 0} → Sort A → (A → A → Bool) → Type 0
Sorts sort less = (xs : List _) → Permᴰ (sort less xs) xs × IsSortedBy less (sort less xs)

module _ {A : Type 0} where
  pub length_of_perm : {xs ys : List A} → Permᴰ xs ys → length xs ≡ length ys
  length_of_perm Permᴰ.nil = refl
  length_of_perm (Permᴰ.cons e p) = ap suc (length_of_perm p)
  length_of_perm (Permᴰ.swap e f) = refl
  length_of_perm (Permᴰ.trans p q) = length_of_perm p ∙ length_of_perm q

  pub All-perm : (P : A → Type 0) {xs ys : List A} → Permᴰ xs ys → All P xs → All P ys
  All-perm P Permᴰ.nil h = tt
  All-perm P (Permᴰ.cons e p) h = (subst P e h.0, All-perm P p h.1)
  All-perm P (Permᴰ.swap e f) h = (subst P f h.1.0, (subst P e h.0, h.1.1))
  All-perm P (Permᴰ.trans p q) h = All-perm P q (All-perm P p h)

module _ {A : Type 0} (key : A → ℕ) where
  abbrev pub less_by : A → A → Bool
  less_by a b = ltb (key a) (key b)

  pub insert_by : A → List A → List A
  insert_by a [] = a ∷ []
  insert_by a (x ∷ xs) = if leb (key a) (key x) then a ∷ x ∷ xs else x ∷ insert_by a xs

  unfoldable pub insertion_sort : List A → List A
  unfolding insert_by
  insertion_sort [] = []
  insertion_sort (x ∷ xs) = insert_by x (insertion_sort xs)

  -- Two elements with one key are one element.
  abbrev Apart : (A → Type 0) → Type 0
  Apart P = (a b : A) → P a → P b → key a ≡ key b → a ≡ b

  insert_by_comm :
      (P : A → Type 0)
      → Apart P
      → (a b : A) (xs : List A) → P a
      → P b
      → insert_by a (insert_by b xs) ≡ insert_by b (insert_by a xs)
  unfolding insert_by
  insert_by_comm P apart a b [] pa pb = ground (arith, apart a b pa pb)
  insert_by_comm P apart a b (x ∷ xs) pa pb =
      ground (arith, apart a b pa pb, insert_by_comm P apart a b xs pa pb)

  -- The order of the input does not matter.
  insertion_sort-perm :
      (P : A → Type 0)
      → Apart P
      → {xs ys : List A} → Permᴰ xs ys
      → All P xs
      → insertion_sort xs ≡ insertion_sort ys
  unfolding insertion_sort
  insertion_sort-perm P apart Permᴰ.nil h = refl
  insertion_sort-perm P apart (Permᴰ.cons e p) h =
      ap₂ insert_by e (insertion_sort-perm P apart p h.1)
  insertion_sort-perm P apart (Permᴰ.swap {a = a} {b = b} {l = l} e f) h =
      insert_by_comm P apart a b (insertion_sort l) h.0 h.1.0
      ∙ ap₂ (λ c d. insert_by c (insert_by d (insertion_sort l))) f e
  insertion_sort-perm P apart (Permᴰ.trans p q) h =
      insertion_sort-perm P apart p h ∙ insertion_sort-perm P apart q (All-perm P p h)

  insert_by_front :
      (x : A) (xs : List A) → All (λ y. less_by y x ≡ false) xs → insert_by x xs ≡ x ∷ xs
  unfolding insert_by
  insert_by_front x [] h = refl
  insert_by_front x (y ∷ ys) h = ground arith

  insertion_sort-sorted : (xs : List A) → IsSortedBy less_by xs → insertion_sort xs ≡ xs
  unfolding insertion_sort
  insertion_sort-sorted [] h = refl
  insertion_sort-sorted (x ∷ xs) h =
      ap (insert_by x) (insertion_sort-sorted xs h.1) ∙ insert_by_front x xs h.0

  -- A sort by a key that tells the elements apart gives one result for all orders of its input.
  pub sort-perm :
      (P : A → Type 0)
      → Apart P
      → (sort : Sort A) → Sorts sort less_by
      → {xs ys : List A} → Permᴰ xs ys
      → All P xs
      → sort less_by xs ≡ sort less_by ys
  sort-perm P apart sort sorts {xs} {ys} p h =
      let (px, sx) = sorts xs in
      let (py, sy) = sorts ys in
      sym (insertion_sort-sorted _ sx)
      ∙ insertion_sort-perm P apart px (All-perm P (Permᴰ.symm px) h)
      ∙ insertion_sort-perm P apart p h
      ∙ sym (insertion_sort-perm P apart py (All-perm P (Permᴰ.symm py) (All-perm P p h)))
      ∙ insertion_sort-sorted _ sy

  insert_by-perm : (a : A) (xs : List A) → Permᴰ (insert_by a xs) (a ∷ xs)
  unfolding insert_by
  insert_by-perm a [] = Permᴰ.refl _
  insert_by-perm a (x ∷ xs) = elim (Bool-cases (leb (key a) (key x))) [
    | inl le ↦ rw le (Permᴰ.refl _)
    | inr gt ↦ rw gt (Permᴰ.trans (Permᴰ.cons refl (insert_by-perm a xs)) (Permᴰ.swap refl refl))
  ]

  insert_by-IsSortedBy :
      (a : A) (xs : List A) → IsSortedBy less_by xs → IsSortedBy less_by (insert_by a xs)
  unfolding insert_by
  insert_by-IsSortedBy a [] h = (tt, tt)
  insert_by-IsSortedBy a (x ∷ xs) h = elim (Bool-cases (leb (key a) (key x))) [
    | inl le ↦ rw le ((ground arith, All-less a x xs le h.0), h)
    | inr gt ↦ rw gt (
      All-perm (λ y. less_by y x ≡ false) (Permᴰ.symm (insert_by-perm a xs)) (ground arith, h.0),
      insert_by-IsSortedBy a xs h.1,
    )
  ]
    where
      All-less :
          (a x : A) (xs : List A)
          → leb (key a) (key x) ≡ true
          → All (λ y. less_by y x ≡ false) xs
          → All (λ y. less_by y a ≡ false) xs
      All-less a x [] le h = tt
      All-less a x (y ∷ ys) le h = (ground arith, All-less a x ys le h.1)

  -- The insertion sort keeps the promise of SortFunc.
  pub insertion_sort-Sorts :
      (xs : List A) → Permᴰ (insertion_sort xs) xs × IsSortedBy less_by (insertion_sort xs)
  unfolding insertion_sort
  insertion_sort-Sorts [] = (Permᴰ.nil, tt)
  insertion_sort-Sorts (x ∷ xs) =
      let (p, s) = insertion_sort-Sorts xs in
      (
        Permᴰ.trans (insert_by-perm x (insertion_sort xs)) (Permᴰ.cons refl p),
        insert_by-IsSortedBy x (insertion_sort xs) s,
      )

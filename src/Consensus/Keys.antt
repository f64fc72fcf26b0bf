-- ===== src/Consensus/Keys.antt =====
-- Lists of keys in which each key stands once.
use mathlib.Core.List.{Permᴰ}
use mathlib.Core.Path.{ap₂, subst}
use simple_blockchain_go.Base.{
  Bool, Bytes, List, [], ap, arith, bytes_eq, bytes_eq_comm, contains_func, contains_func-append,
  delete_first, false, refl, sym, ◌++◌, ◌||◌, ◌∙◌, ◌∷◌, ◌≡◌,
}

unfoldable pub IsApartKeys : List Bytes → Type 0
IsApartKeys [] = Unit
IsApartKeys (x ∷ xs) = (contains_func xs (bytes_eq x) ≡ false) × IsApartKeys xs

pub append-IsApartKeys :
    (xs : List Bytes) (a : Bytes)
    → contains_func xs (bytes_eq a) ≡ false
    → IsApartKeys xs
    → IsApartKeys (xs ++ a ∷ [])
unfolding IsApartKeys
append-IsApartKeys [] a new h = (refl, tt)
append-IsApartKeys (x ∷ xs) a new h = (
  ground (arith, contains_func-append xs (a ∷ []) (bytes_eq x), bytes_eq_comm x a, h.0),
  append-IsApartKeys xs a (ground arith) h.1,
)

contains-delete :
    (xs : List Bytes) (f g : Bytes → Bool)
    → contains_func xs g ≡ false
    → contains_func (delete_first xs f) g ≡ false
contains-delete [] f g h = refl
contains-delete (x ∷ xs) f g h = ground (arith, contains-delete xs f g)

pub delete-IsApartKeys :
    (xs : List Bytes) (f : Bytes → Bool) → IsApartKeys xs → IsApartKeys (delete_first xs f)
unfolding IsApartKeys
delete-IsApartKeys [] f h = tt
delete-IsApartKeys (x ∷ xs) f h =
    ground (arith, delete-IsApartKeys xs f h.1, contains-delete xs f (bytes_eq x) h.0)

or_swap : (a b c : Bool) → (a || (b || c)) ≡ (b || (a || c))
or_swap a b c = ground arith

contains-perm :
    {xs ys : List Bytes} (f : Bytes → Bool) → Permᴰ xs ys → contains_func xs f ≡ contains_func ys f
contains-perm f Permᴰ.nil = refl
contains-perm f (Permᴰ.cons e p) = ap₂ (λ a b. f a || b) e (contains-perm f p)
contains-perm f (Permᴰ.swap {a' = a'} {b' = b'} {l = l} e g) =
    ap₂ (λ c d. f c || (f d || contains_func l f)) e g ∙ or_swap (f b') (f a') (contains_func l f)
contains-perm f (Permᴰ.trans p q) = contains-perm f p ∙ contains-perm f q

pub perm-IsApartKeys : {xs ys : List Bytes} → Permᴰ xs ys → IsApartKeys xs → IsApartKeys ys
unfolding IsApartKeys
perm-IsApartKeys Permᴰ.nil h = tt
perm-IsApartKeys (Permᴰ.cons {b = b} {l₁ = l₁} e p) h = (
  sym (contains-perm (bytes_eq b) p) ∙ ap (λ c. contains_func l₁ (bytes_eq c)) (sym e) ∙ h.0,
  perm-IsApartKeys p h.1,
)
perm-IsApartKeys (Permᴰ.swap {a = a} {b = b} {l = l} e g) h =
    subst IsApartKeys (λ i. g i ∷ e i ∷ l)
      (ground (arith, bytes_eq_comm a b, h.0), (ground arith, h.1.1))
perm-IsApartKeys (Permᴰ.trans p q) h = perm-IsApartKeys q (perm-IsApartKeys p h)

-- ===== src/Common/Bits.antt =====
-- IsPowerOf2 of common/shortcut.go: the test n&(n-1) == 0 says that n is a power of two.
use Prim.Native.Nat.{bit_and, bit_and-bitwise, digits, min}
use native.Mathlib.Decide.{dec_lt}
use native.Mathlib.Nat.{le_refl, pow-suc}
use simple_blockchain_go.Base.{
  ==_iff, arith, false, refl, suc, sym, true, zero, ℕ, ◌%◌, ◌*◌, ◌+◌, ◌-◌, ◌/◌, ◌<◌, ◌==◌, ◌^◌, ◌↔◌,
  ◌≡◌, ◌≤◌,
}
use simple_blockchain_go.Common.{is_power_of_2}

-- `a & b` by its digits, with a count of digits to go.
abbrev and_within : ℕ → ℕ → ℕ → ℕ
and_within f a b = digits (λ b. zero) min f a b

and_within_self : (f a : ℕ) → a ≤ f → and_within f a a ≡ a
and_within_self zero a h = omega arith
and_within_self (suc f) zero h = refl
and_within_self (suc f) (suc a) h = omega (arith, and_within_self f (suc a / 2) (omega arith))

and_within_zero : (f b : ℕ) → and_within f 0 b ≡ 0
and_within_zero zero b = refl
and_within_zero (suc f) b = refl

odd_one :
    (f a : ℕ)
    → a ≤ f
    → and_within f (suc a / 2) (a / 2) * 2 + min (suc a % 2) (a % 2) ≡ 0
    → 0 < suc a % 2
    → suc a ≡ 1
odd_one f a h e odd =
    let same : suc a / 2 ≡ a / 2 = omega arith in
    let e' : and_within f (a / 2) (a / 2) * 2 + min (suc a % 2) (a % 2) ≡ 0 = rw same at e in
    omega (arith, and_within_self f (a / 2) (omega arith))

even_half :
    (f a : ℕ)
    → and_within f (suc a / 2) (a / 2) * 2 + min (suc a % 2) (a % 2) ≡ 0
    → ¬ (0 < suc a % 2)
    → and_within f (suc (a / 2)) (a / 2) ≡ 0
even_half f a e even =
    let same : suc a / 2 ≡ suc (a / 2) = omega arith in
    let e' : and_within f (suc (a / 2)) (a / 2) * 2 + min (suc a % 2) (a % 2) ≡ 0 = rw same at e in
    omega arith

-- No digit of `a` and `a - 1` is shared exactly when `a` is a power of two.
power_of_and : (f a : ℕ) → suc a ≤ f → and_within f (suc a) a ≡ 0 → (k : ℕ) × (suc a ≡ 2 ^ k)
power_of_and zero a h e = absurd (omega arith)
power_of_and (suc f) a h e = elim (dec_lt 0 (suc a % 2)) [
  | yes odd ↦ (0, odd_one f a (omega arith) e odd)
  | no even ↦
      let (k, p) = power_of_and f (a / 2) (omega arith) (even_half f a e even) in
      (suc k, rw (pow-suc 2 k, ← p) (omega arith))
]

and_of_power : (k f a : ℕ) → suc a ≤ f → suc a ≡ 2 ^ k → and_within f (suc a) a ≡ 0
and_of_power k zero a h e = absurd (omega arith)
and_of_power zero (suc f) a h e =
    let none_left : a ≡ 0 = omega arith in rw none_left (omega (arith, and_within_zero f 0))
and_of_power (suc k) (suc f) a h e =
    let same : suc a / 2 ≡ suc (a / 2) = omega (arith, pow-suc 2 k) in
    let ih = and_of_power k f (a / 2) (omega arith) (omega (arith, pow-suc 2 k)) in
    rw same (omega (arith, pow-suc 2 k))

is_power_of_2-suc : (a : ℕ) → is_power_of_2 (suc a) ≡ (bit_and (suc a) a == 0)
unfolding is_power_of_2
is_power_of_2-suc a =
    let less : suc a - 1 ≡ a = omega arith in
    let pos : (suc a == 0) ≡ false = ground arith in rw (less, pos)

power_of_test : (n : ℕ) → is_power_of_2 n ≡ true → (k : ℕ) × (n ≡ 2 ^ k)
unfolding is_power_of_2
power_of_test zero h = cc
power_of_test (suc a) h =
    power_of_and (suc a) a (le_refl _)
      (rw (← bit_and-bitwise (suc a) a) ((==_iff _ 0).0 (rw is_power_of_2-suc at h)))

test_of_power : (k a : ℕ) → suc a ≡ 2 ^ k → is_power_of_2 (suc a) ≡ true
test_of_power k a e =
    rw (is_power_of_2-suc, bit_and-bitwise (suc a) a, and_of_power k (suc a) a (le_refl _) e)

pow-eq-suc : (k : ℕ) → (a : ℕ) × (2 ^ k ≡ suc a)
pow-eq-suc zero = (0, refl)
pow-eq-suc (suc k) = let (a, e) = pow-eq-suc k in (a + a + 1, omega (arith, pow-suc 2 k))

pub is_power_of_2-pow : (k : ℕ) → is_power_of_2 (2 ^ k) ≡ true
is_power_of_2-pow k = let (a, e) = pow-eq-suc k in rw e (test_of_power k a (sym e))

-- `IsPowerOf2 (n)` holds exactly when `n` is a power of two.
pub is_power_of_2_iff : (n : ℕ) → (is_power_of_2 n ≡ true) ↔ ((k : ℕ) × (n ≡ 2 ^ k))
is_power_of_2_iff n = (power_of_test n, λ p. rw (p.1) (is_power_of_2-pow p.0))

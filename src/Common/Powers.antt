-- ===== src/Common/Powers.antt =====
-- NextPowerOf2 and LastPowerOf2 of common/shortcut.go: the powers of two around a length.
use native.Mathlib.Decide.{dec_lt}
use native.Mathlib.Nat.{add-suc, add-zero, add_assoc, suc-add, two-pow-succ}
use native.Mathlib.Numerals.{add-one, one-add}
use simple_blockchain_go.Base.{
  Bool-cases, arith, false, inl, inr, leb, leb→le, ltb, ltb→lt, refl, suc, zero, ℕ, ◌+◌, ◌<◌, ◌^◌,
  ◌≡◌, ◌≤◌,
}
use simple_blockchain_go.Common.{last_loop, last_power_of_2, next_loop, next_power_of_2}

next_loop_lem :
    (f i n : ℕ)
    → n ≤ 2 ^ (i + f)
    → ((j : ℕ) → j < i → 2 ^ j < n)
    → (k : ℕ) × (next_loop f i n ≡ 2 ^ k) × (n ≤ 2 ^ k) × ((j : ℕ) → j < k → 2 ^ j < n)
unfolding next_loop
next_loop_lem zero i n h below = (i, refl, rw add-zero at h, below)
next_loop_lem (suc f) i n h below = elim (Bool-cases (leb n (2 ^ i))) [
  | inl enough ↦ (i, rw enough, leb→le _ _ enough, below)
  | inr short ↦
      rw short (next_loop_lem f (i + 1) n (rw (add_assoc i 1 f, one-add) h) (below_suc short))
]
  where
    below_suc : leb n (2 ^ i) ≡ false → (j : ℕ) → j < i + 1 → 2 ^ j < n
    below_suc short j hj = elim (dec_lt j i) [
      | yes p ↦ below j p
      | no p ↦ let e : j ≡ i = omega arith in rw e (ground arith)
    ]

-- `NextPowerOf2 (n)` is the least power of two that is at least `n`, for a length `n` of at most 2^62.
pub next_power_of_2_lem :
    (n : ℕ)
    → n ≤ 2 ^ 62
    → (k : ℕ) × (next_power_of_2 n ≡ 2 ^ k) × (n ≤ 2 ^ k) × ((j : ℕ) → j < k → 2 ^ j < n)
unfolding next_power_of_2
next_power_of_2_lem n h = next_loop_lem 62 0 n h (λ j hj. absurd (omega arith))

last_loop_lem :
    (f p n : ℕ)
    → n < 2 ^ (suc p + f)
    → 2 ^ p ≤ n
    → (k : ℕ) × (last_loop f (suc p) (2 ^ p) n ≡ 2 ^ k) × (2 ^ k ≤ n) × (n < 2 ^ suc k)
unfolding last_loop
last_loop_lem zero p n h low = (p, refl, low, rw add-zero at h)
last_loop_lem (suc f) p n h low = elim (Bool-cases (ltb n (2 ^ suc p))) [
  | inl over ↦ (p, rw over, low, ltb→lt _ _ over)
  | inr under ↦
      rw (under, add-one)
        (last_loop_lem f (suc p) n (rw (add-suc (suc p) f, ← suc-add) at h) (ground arith))
]

-- `LastPowerOf2 (n)` is the greatest power of two that does not exceed `n`, for a length `n` of at
-- least 1 and below 2^62.
pub last_power_of_2_lem :
    (n : ℕ)
    → 1 ≤ n
    → n < 2 ^ 62
    → (k : ℕ) × (last_power_of_2 n ≡ 2 ^ k) × (2 ^ k ≤ n) × (n < 2 ^ suc k)
unfolding last_power_of_2 last_loop
last_power_of_2_lem n pos h = elim (Bool-cases (ltb n 1)) [
  | inl none_left ↦ absurd (omega (arith, ltb→lt n 1 none_left))
  | inr some_left ↦ rw some_left (last_loop_lem 62 0 n (omega arith) pos)
]

pub pow-pos : (k : ℕ) → 0 < 2 ^ k
pow-pos zero = omega arith
pow-pos (suc k) = omega (arith, two-pow-succ k, pow-pos k)

pub lt-pow : (k : ℕ) → k < 2 ^ k
lt-pow zero = omega arith
lt-pow (suc k) = omega (arith, two-pow-succ k, lt-pow k)

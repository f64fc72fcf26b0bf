-- ===== src/Common.antt =====
-- common/: constants.go and the arithmetic of shortcut.go. An `int` here is a length, never
-- negative.
pub mod Powers
pub mod Bits
pub mod Hex
use Prim.Native.Nat.{bit_and}
use simple_blockchain_go.Base.{
  Bool, List, [], if◌then◌else◌, leb, ltb, not, suc, zero, ℕ, ◌&&◌, ◌+◌, ◌-◌, ◌==◌, ◌^◌, ◌∷◌,
}

abbrev pub max_payload_size : ℕ
max_payload_size = 2048

abbrev pub public_key_size : ℕ
public_key_size = 32

abbrev pub hash_size : ℕ
hash_size = 32

abbrev pub generator_balance : ℕ
generator_balance = 10_000_000_000_000_000_000

-- A uint64 wraps at this number.
abbrev pub u64_mod : ℕ
u64_mod = 18_446_744_073_709_551_616

abbrev pub u32_mod : ℕ
u32_mod = 4_294_967_296

-- `IsPowerOf2`
unfoldable pub is_power_of_2 : ℕ → Bool
is_power_of_2 n = not (n == 0) && bit_and n (n - 1) == 0

-- The loop of `NextPowerOf2`. It starts with a fuel of 62, the last shift of an `int` that stays
-- positive; a length is far below that power.
unfoldable pub next_loop : ℕ → ℕ → ℕ → ℕ
next_loop zero i n = 2 ^ i
next_loop (suc fuel) i n =
    let rest = next_loop fuel (i + 1) n in let m = 2 ^ i in if leb n m then m else rest

unfoldable pub next_power_of_2 : ℕ → ℕ
next_power_of_2 n = next_loop 62 0 n

-- The loop of `LastPowerOf2`, with its variables `i` and `l`.
unfoldable pub last_loop : ℕ → ℕ → ℕ → ℕ → ℕ
last_loop zero i l n = l
last_loop (suc fuel) i l n =
    let rest = last_loop fuel (i + 1) (2 ^ i) n in if ltb n (2 ^ i) then l else rest

unfoldable pub last_power_of_2 : ℕ → ℕ
last_power_of_2 n = last_loop 63 0 0 n

-- `FindAll`
unfoldable pub find_all {ℓ} : {A : Type ℓ} → List A → (A → Bool) → List A
find_all [] f = []
find_all (x ∷ xs) f = if f x then x ∷ find_all xs f else find_all xs f

-- ===== src/Common/Hex.antt =====
-- ToHex and FromHex of common/shortcut.go: fixed-size integers in big-endian order. A signed integer
-- is its bit pattern.
use native.Mathlib.Nat.{
  add-mul-mod_self_right, div-add-mod', mod-eq_of_lt, mod-lt, mod-one, mul-le-mul_right, pow-suc,
}
use simple_blockchain_go.Base.{
  Bytes, Option, [], ap, arith, length, none, refl, some, suc, sym, zero, ℕ, ◌%◌, ◌*◌, ◌+◌, ◌/◌,
  ◌<◌, ◌^◌, ◌∙◌, ◌∷◌, ◌≡◌,
}

-- `binary.Write` of an integer of `size` bytes.
unfoldable pub to_hex : ℕ → ℕ → Bytes
to_hex zero num = []
to_hex (suc size) num = (num / 256 ^ size % 256) ∷ to_hex size num

-- `binary.Read` takes the first `size` bytes, and fails if there are fewer.
read_bytes : ℕ → Bytes → ℕ → Option ℕ
read_bytes zero hex num = some num
read_bytes (suc size) [] num = none
read_bytes (suc size) (b ∷ hex) num = read_bytes size hex (num * 256 + b)

unfoldable pub from_hex : ℕ → Bytes → Option ℕ
unfolding read_bytes
from_hex size hex = read_bytes size hex 0

pub length-to_hex : (size num : ℕ) → length (to_hex size num) ≡ size
unfolding to_hex
length-to_hex zero num = refl
length-to_hex (suc size) num = ap suc (length-to_hex size num)

pow-pos256 : (k : ℕ) → 0 < 256 ^ k
pow-pos256 zero = omega arith
pow-pos256 (suc k) = omega (arith, pow-suc 256 k, pow-pos256 k)

regroup : (num p q a b m : ℕ) → num ≡ q * p + m → q ≡ a * 256 + b → num ≡ b * p + m + a * (p * 256)
regroup num p q a b m e f = omega (arith, e, ap (λ (t : ℕ). t * p) f)

low_digits : (p b m : ℕ) → b < 256 → m < p → b * p + m < p * 256
low_digits p b m hb hm = omega (arith, mul-le-mul_right {m = b} {n = 255} p (omega arith))

mod-pow-suc :
    (size num : ℕ) → num % 256 ^ suc size ≡ (num / 256 ^ size % 256) * 256 ^ size + num % 256 ^ size
mod-pow-suc size num =
    let p = 256 ^ size in
    let q = num / p in
    let whole =
      regroup num p q (q / 256) (q % 256) (num % p) (sym (div-add-mod' num p))
        (sym (div-add-mod' q 256)) in
    let low = low_digits p (q % 256) (num % p) (omega arith) (mod-lt num (pow-pos256 size)) in
    rw (pow-suc 256 size) (
      ap (λ t. t % (p * 256)) whole
      ∙ add-mul-mod_self_right (q % 256 * p + num % p) (q / 256) (p * 256)
      ∙ mod-eq_of_lt low)

read_bytes-to_hex :
    (size acc num : ℕ)
    → read_bytes size (to_hex size num) acc ≡ some (acc * 256 ^ size + num % 256 ^ size)
unfolding read_bytes to_hex
read_bytes-to_hex zero acc num = rw mod-one (ap some (omega arith))
read_bytes-to_hex (suc size) acc num =
    read_bytes-to_hex size (acc * 256 + num / 256 ^ size % 256) num
    ∙ ap some (rw (mod-pow-suc size num, pow-suc 256 size) (grind arith))

-- An unsigned integer that fits into `size` bytes is read back from the bytes that it is written to.
pub from_hex-to_hex : (size num : ℕ) → num < 256 ^ size → from_hex size (to_hex size num) ≡ some num
unfolding from_hex
from_hex-to_hex size num h =
    read_bytes-to_hex size 0 num ∙ ap some (rw (mod-eq_of_lt h) (omega arith))

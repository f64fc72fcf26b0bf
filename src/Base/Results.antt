-- ===== src/Base/Results.antt =====
-- How a Go call ends: it returns a value, it returns an error, or it does not return: it panics, or
-- waits for ever.
use mathlib.Core.Path.{◌≡◌, refl}
use mathlib.Core.Logic.{◌⊎◌, inl, inr}
use mathlib.Core.Option.{Option, none, some}
use mathlib.Core.Bool.{Bool, true, false}

-- The errors that the source makes or passes on, by their cause.
pub data Error : Type 0 where
  json : Error
  empty_bundle : Error
  not_power_of_2 : Error
  key_not_found : Error
  nonce_invalid : Error
  not_enough_balance : Error
  overflow : Error
  bad_param : Error
  no_generator : Error
  database : Error
  out_of_peers : Error
  connection : Error
  file_io : Error
  file_exists : Error
  key_generation : Error

pub data Outcome {ℓ} (A : Type ℓ) : Type ℓ where
  ok : A → Outcome A
  err : Error → Outcome A
  panic : Outcome A

infixl 5 ◌>>=◌
abbrev pub ◌>>=◌ {ℓ κ} : {A : Type ℓ} {B : Type κ} → Outcome A → (A → Outcome B) → Outcome B
ok a >>= f = f a
err e >>= f = err e
panic >>= f = panic

abbrev pub or_err {ℓ} : {A : Type ℓ} → Option A → Error → Outcome A
or_err none e = err e
or_err (some a) e = ok a

-- `return false` where a test before it fails: Go's `&&` over tests that may panic.
abbrev pub and_then : Bool → Outcome Bool → Outcome Bool
and_then true m = m
and_then false m = ok false

pub Outcome-cases {ℓ} :
    {A : Type ℓ} (m : Outcome A)
    → ((a : A) × (m ≡ ok a)) ⊎ (((e : Error) × (m ≡ err e)) ⊎ (m ≡ panic))
Outcome-cases (ok a) = inl (a, refl)
Outcome-cases (err e) = inr (inl (e, refl))
Outcome-cases panic = inr (inr refl)

-- The call returns a value: no error, no panic.
abbrev pub Returns {ℓ} : {A : Type ℓ} → Outcome A → Type 0
Returns (ok a) = Unit
Returns (err e) = ⊥
Returns panic = ⊥

-- ===== src/Base/Errors.antt =====
-- Go's pair of a value and an error, and the errors that the program tells apart.
use Prim.Native.Nat.{ℕ}
use mathlib.Core.Path.{◌≡◌, refl}
use mathlib.Core.Logic.{◌⊎◌, inl, inr}
use mathlib.Core.Bool.{Bool, true, false}

-- `other n` is an error of the system or of a library that the code only passes on; wrapping by
-- `fmt.Errorf` with %w keeps what `errors.Is` answers, so it keeps the value.
pub data Error : Type 0 where
  not_exist exists empty_path constraint blob_too_large cancelled : Error
  other : ℕ → Error

pub data Result {ℓ} (A : Type ℓ) : Type ℓ where
  ok : A → Result A
  err : Error → Result A

abbrev pub is_not_exist : Error → Bool
is_not_exist not_exist = true
is_not_exist _ = false

abbrev pub is_cancelled : Error → Bool
is_cancelled cancelled = true
is_cancelled _ = false

pub Result-cases {ℓ} :
    {A : Type ℓ} (r : Result A) → ((x : A) × (r ≡ ok x)) ⊎ ((f : Error) × (r ≡ err f))
Result-cases (err f) = inr (f, refl)
Result-cases (ok x) = inl (x, refl)

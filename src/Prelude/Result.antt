-- ===== src/Prelude/Result.antt =====
-- A Go result with an error, which is kept as its text.
use call_recorder.Prelude.Text.{Text}
use mathlib.Core.Logic.{◌⊎◌, inl, inr}
use mathlib.Core.Path.{◌≡◌, refl}

pub data Result {ℓ} (A : Type ℓ) : Type ℓ where
  ok : A → Result A
  err : Text → Result A

-- A split that keeps the equation.
pub Result-cases {ℓ} :
    {A : Type ℓ} (r : Result A) → ((a : A) × (r ≡ ok a)) ⊎ ((e : Text) × (r ≡ err e))
Result-cases (ok a) = inl (a, refl)
Result-cases (err e) = inr (e, refl)

-- fmt.Errorf with a text in front of the cause.
abbrev pub in_front {ℓ} : {A : Type ℓ} → (Text → Text) → Result A → Result A
in_front f (ok a) = ok a
in_front f (err e) = err (f e)

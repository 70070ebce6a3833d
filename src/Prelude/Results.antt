-- ===== src/Prelude/Results.antt =====
-- Go's `(T, error)` results, and `error` itself.
use mathlib.Core.Path.{◌≡◌, refl}
use mathlib.Core.Logic.{◌⊎◌, inl, inr}
use mathlib.Core.Bool.{Bool, true, false}
use web_demo_go.Prelude.Texts.{Text}

-- An error value: the sentinel that `errors.Is` looks for, or any other with its message. A panic,
-- which unwinds instead, is carried along as `panic`.
pub data Error : Type 0 where
  not_found : Error
  panic : Error
  failure : Text → Error

pub data Result {ℓ} (A : Type ℓ) : Type ℓ where
  ok : A → Result A
  err : Error → Result A

-- `errors.Is(err, ErrNotFound)`
abbrev pub is_not_found : Error → Bool
is_not_found not_found = true
is_not_found panic = false
is_not_found (failure m) = false

pub Result-cases {ℓ} :
    {A : Type ℓ} (r : Result A) → ((a : A) × (r ≡ ok a)) ⊎ ((x : Error) × (r ≡ err x))
Result-cases (ok a) = inl (a, refl)
Result-cases (err x) = inr (x, refl)

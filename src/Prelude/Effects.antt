-- ===== src/Prelude/Effects.antt =====
-- Go results as values. A function that returns a pointer or an error is a `Result`; one that
-- returns a value and an error, both of which the caller may read, is a pair.
use mathlib.Core.Path.{◌≡◌, refl}
use mathlib.Core.Logic.{◌⊎◌, inl, inr}

pub data Result {ℓ κ} (E : Type ℓ) (A : Type κ) : Type (ℓ ⊔ κ) where
  ok : A → Result E A
  err : E → Result E A

-- A call with effects takes the outside world (the API server, the caches, the recorder) and
-- returns its result and the new world.
abbrev pub Effect : Type 0 → Type 0 → Type 0
Effect W A = W → A × W

pub Result-cases {ℓ κ} :
    {E : Type ℓ} {A : Type κ} (r : Result E A) → ((a : A) × (r ≡ ok a)) ⊎ ((e : E) × (r ≡ err e))
Result-cases (ok a) = inl (a, refl)
Result-cases (err e) = inr (e, refl)

-- ===== src/Base/Fallible.antt =====
-- A result or an error, as the source returns them in pairs.

use mathlib.Core.Path.{◌≡◌, refl}
use mathlib.Core.Logic.{◌⊎◌, inl, inr}

pub data Result {ℓ κ} (E : Type ℓ) (A : Type κ) : Type (ℓ ⊔ κ) where
  ok : A → Result E A
  failed : E → Result E A

module _ {ℓ κ ι} {E : Type ℓ} {A : Type κ} {B : Type ι} where
  infixl 5 ◌>>=◌
  abbrev pub ◌>>=◌ : Result E A → (A → Result E B) → Result E B
  ok a >>= k = k a
  failed e >>= k = failed e

module _ {ℓ κ} {E : Type ℓ} {A : Type κ} where
  abbrev pub pure : A → Result E A
  pure = ok

  -- An error gets the place that met it.
  abbrev pub at_place : (E → E) → Result E A → Result E A
  at_place place (ok a) = ok a
  at_place place (failed e) = failed (place e)

  pub Result-cases : (r : Result E A) → ((a : A) × (r ≡ ok a)) ⊎ ((e : E) × (r ≡ failed e))
  Result-cases (ok a) = inl (a, refl)
  Result-cases (failed e) = inr (e, refl)

-- ===== src/Cost/Saturation.antt =====
-- The saturating operations of cost.go are exact below the largest int64, and stop there.
use ia_harness.Base.{
  ℕ, zero, suc, ltb→lt, ◌+◌, ◌*◌, ◌/◌, ◌≤◌, ◌<◌, min, ◌≡◌, arith, max_int64, ltb, Bool-cases, inl,
  inr,
}
use ia_harness.Cost.{saturating_mul, saturating_add}

mul_fits : (a b m : ℕ) → 0 < b → a ≤ m / b → a * b ≤ m
mul_fits a b m p h = grind arith

mul_exceeds : (a b m : ℕ) → 0 < b → m / b < a → m < a * b
mul_exceeds a b m p h = grind arith

pub saturating_add-min :
    (a b : ℕ) → a ≤ max_int64 → b ≤ max_int64 → saturating_add a b ≡ min max_int64 (a + b)
unfolding saturating_add
saturating_add-min a b ha hb = ground arith

pub saturating_mul-min : (a b : ℕ) → saturating_mul a b ≡ min max_int64 (a * b)
unfolding saturating_mul
saturating_mul-min a zero = ground arith
saturating_mul-min zero b = ground arith
saturating_mul-min (suc a) (suc b) = elim (Bool-cases (ltb (max_int64 / suc b) (suc a))) [
  | inl over ↦ ground (arith, mul_exceeds (suc a) (suc b) max_int64 (omega arith) (ltb→lt _ _ over))
  | inr fits ↦ ground (arith, mul_fits (suc a) (suc b) max_int64 (omega arith) (ground arith))
]

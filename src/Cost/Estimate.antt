-- ===== src/Cost/Estimate.antt =====
-- How near the estimate of tokens is to the quotient (cost.go).
use ia_harness.Base.{ℕ, ◌+◌, ◌*◌, ◌<◌, ◌^◌, Fraction, to_float}
use ia_harness.Cost.{ceil_div}

-- Within one token of the quotient, on either side.
abbrev pub IsNear : ℕ → ℕ → ℕ → ℕ → Type 0
IsNear num den n t = (n * den < (t + 1) * num) × (t * num < n * den + num)

-- A number of tokens on one side of the quotient stays there after both roundings.
module _ (num den n : ℕ) (fast : 0 < num) (few : n < 2 ^ 53) (small : n * den < 2 ^ 53 * num) where
  scale : ℕ
  scale = (to_float n 1).den

  quotient : Fraction
  unfolding scale
  quotient = to_float ((to_float n 1).num * den) ((to_float n 1).den * num)

  tokens : ℕ
  tokens = ceil_div quotient.num quotient.den

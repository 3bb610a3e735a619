-- ===== src/Cost/Totals.antt =====
-- The cost of a call is the exact price of its tokens, up to the largest int64 (cost.go).
use ia_harness.Base.{
  ℕ, ◌∙◌, ap, sym, ◌+◌, ◌-◌, ◌*◌, ◌/◌, ◌≤◌, min, ℤ, pos, ◌≤ℤ◌, ◌≡◌, arith, max_int64,
}
use ia_harness.Cost.{
  Pricing, non_negative, or_input_price, saturating_add, cost_micros_with_cache, cost_micros,
}
use ia_harness.Cost.Saturation.{saturating_add-min, saturating_mul-min}

-- The price in millionths of a micro, in unbounded numbers.
abbrev pub exact_price : Pricing → ℕ → ℕ → ℕ → ℕ → ℕ
exact_price p input output cached written =
    (input - cached) * non_negative p.input_price
    + cached * or_input_price p p.cached_input_price
    + written * or_input_price p p.cache_write_price
    + output * non_negative p.output_price

-- One more addend under the saturation.
add_under : (x y : ℕ) → saturating_add (min max_int64 x) (min max_int64 y) ≡ min max_int64 (x + y)
add_under x y =
    saturating_add-min (min max_int64 x) (min max_int64 y) (omega arith) (omega arith) ∙ omega arith

module _ (p : Pricing) (input output cached written : ℤ) where
  -- The cost is the exact price of the uncached, cached, written and produced tokens together, cut
  -- at the largest int64 and rounded down to micros; no step of it wraps.
  pub cost-exact :
      cost_micros_with_cache p input output cached written
      ≡ min max_int64 (
          exact_price p
            (non_negative input)
            (non_negative output)
            (non_negative cached)
            (non_negative written))
        / 1_000_000
  unfolding cost_micros_with_cache
  cost-exact =
      simp (saturating_mul-min, add_under)
        (ap (λ (t : ℕ). min max_int64 t / 1_000_000) (omega arith))

-- Without a price of its own a cached token costs what an input token costs: whatever part of the
-- input was read from the cache, the cost is that of the same call with no cache at all.
pub cost-no_discount :
    (p : Pricing) (input output cached : ℤ)
    → p.cached_input_price ≤ℤ pos 0
    → cached ≤ℤ input
    → cost_micros_with_cache p input output cached (pos 0) ≡ cost_micros p input output
unfolding cost_micros
cost-no_discount p input output cached unset within =
    cost-exact p input output cached (pos 0)
    ∙ ap (λ (t : ℕ). min max_int64 t / 1_000_000) same
    ∙ sym (cost-exact p input output (pos 0) (pos 0))
  where
    x : ℕ
    x = non_negative p.input_price

    falls_back : or_input_price p p.cached_input_price ≡ x
    falls_back = ground arith

    parts : (i c : ℕ) → c ≤ i → (i - c) * x + c * x ≡ i * x
    parts i c h = grind arith

    same :
        exact_price p (non_negative input) (non_negative output) (non_negative cached) 0
        ≡ exact_price p (non_negative input) (non_negative output) 0 0
    same = rw falls_back (
        omega (
          arith,
          parts (non_negative input) (non_negative cached) (ground arith),
          parts (non_negative input) 0 (omega arith),
        ))

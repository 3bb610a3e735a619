-- ===== src/Cost/Tests.antt =====
-- A price list, and what calls cost by it.
use ia_harness.Base.{◌/◌, ◌*◌, ◌<◌, arith, min, pos, ◌≡◌, refl, max_int64}
use ia_harness.Cost.{
  Pricing, estimate_by, estimate_tokens, saturating_mul, saturating_add, cost_micros_with_cache,
  cost_micros,
}
use ia_harness.Cost.Totals.{exact_price, cost-exact}

abbrev prices : Pricing
prices = record {
  currency = "BRL";
  input_price = pos 500_000;
  output_price = pos 1_500_000;
  bytes_per_token = record { num = pos 4; den = 1 };
  cached_input_price = pos 0;
  cache_write_price = pos 0;
}

runs :
    (estimate_tokens prices 10 ≡ 3)
    × (cost_micros prices (pos 1000) (pos 200) ≡ 800)
    × (cost_micros prices (pos 9_000_000_000_000_000_000) (pos 0) ≡ 9_223_372_036_854)
unfolding estimate_tokens estimate_by cost_micros cost_micros_with_cache saturating_mul
    saturating_add
runs = (refl, refl, refl)

cost-exact_example :
    cost_micros_with_cache prices (pos 1000) (pos 200) (pos 400) (pos 0)
    ≡ min max_int64 (exact_price prices 1000 200 400 0) / 1_000_000
cost-exact_example = cost-exact prices (pos 1000) (pos 200) (pos 400) (pos 0)

-- The float64 nearest to 0.7.
abbrev seven_tenths : Pricing
seven_tenths = record prices {
  bytes_per_token = record { num = pos 6305039478318694; den = 9007199254740992 };
}

-- Ten tokens of that size do not hold the seven bytes.
too_few : (estimate_tokens seven_tenths 7 ≡ 10) × (10 * 6305039478318694 < 7 * 9007199254740992)
unfolding estimate_tokens estimate_by
too_few = (refl, omega arith)

-- ===== src/Cost.antt =====
-- internal/engine/telemetry/cost.go: estimated tokens and the cost of a call. Amounts that the
-- source has made non-negative are numbers, and each int64 product and sum keeps its wrap
-- (`% 2 ^ 64`). The premise of bytes per token, a float of the source, is the fraction that the float
-- stands for, and the division by it rounds as float64 does.
pub mod Saturation
pub mod Totals
pub mod Estimate
mod Tests
use ia_harness.Base.{
  ℕ, ◌+◌, ◌-◌, ◌*◌, ◌/◌, ◌%◌, ◌^◌, ℤ, pos, pos_part, Bool, true, false, ◌||◌, String, ltb, leb,
  ◌==◌, if◌then◌else◌, leb_ℤ, max_int64, to_float,
}
use ia_harness.Core.Message.{Usage}

-- `num / den`, with `den` above 0 in every premise that a float can state.
pub record Ratio : Type 0 where
  pub num : ℤ
  pub den : ℕ

pub record Pricing : Type 0 where
  pub currency : String
  pub input_price : ℤ
  pub output_price : ℤ
  pub bytes_per_token : Ratio
  pub cached_input_price : ℤ
  pub cache_write_price : ℤ

abbrev pub default_bytes_per_token : Ratio
default_bytes_per_token = record { num = pos 4; den = 1 }

abbrev pub premise : Pricing → Ratio
premise p =
    if leb_ℤ p.bytes_per_token.num (pos 0) then default_bytes_per_token else p.bytes_per_token

abbrev pub ceil_div : ℕ → ℕ → ℕ
ceil_div a b = (a + (b - 1)) / b

abbrev pub saturate : ℕ → ℕ
saturate n = if leb max_int64 n then max_int64 else n

-- `float64(nBytes) / bytesPerToken` rounds the bytes and then the quotient; `num / den` is a float.
unfoldable pub estimate_by : ℕ → ℕ → ℕ → ℕ
unfolding to_float
estimate_by num den n_bytes =
    if n_bytes == 0
    then 0
    else (let n = to_float n_bytes 1 in
        let q = to_float (n.num * den) (n.den * num) in saturate (ceil_div q.num q.den))

unfoldable pub estimate_tokens : Pricing → ℕ → ℕ
estimate_tokens p n_bytes = estimate_by (pos_part (premise p).num) (premise p).den n_bytes

-- `naoNegativo`
abbrev pub non_negative : ℤ → ℕ
non_negative = pos_part

unfoldable pub saturating_mul : ℕ → ℕ → ℕ
saturating_mul a b =
    if a == 0 || b == 0 then 0 else if ltb (max_int64 / b) a then max_int64 else (a * b) % 2 ^ 64

unfoldable pub saturating_add : ℕ → ℕ → ℕ
saturating_add a b = if ltb (max_int64 - b) a then max_int64 else (a + b) % 2 ^ 64

-- A price of cache that is not positive falls back on the price of input.
abbrev pub or_input_price : Pricing → ℤ → ℕ
or_input_price p price = non_negative (if leb_ℤ price (pos 0) then p.input_price else price)

unfoldable pub cost_micros_with_cache : Pricing → ℤ → ℤ → ℤ → ℤ → ℕ
cost_micros_with_cache p input_tokens output_tokens cached_read cache_write =
    let cached = non_negative cached_read in
    let uncached = non_negative input_tokens - cached in
    saturating_add (saturating_mul uncached (non_negative p.input_price)) (
      saturating_add (saturating_mul cached (or_input_price p p.cached_input_price)) (
        saturating_add
          (saturating_mul (non_negative cache_write) (or_input_price p p.cache_write_price))
          (saturating_mul (non_negative output_tokens) (non_negative p.output_price))))
    / 1_000_000

unfoldable pub cost_micros : Pricing → ℤ → ℤ → ℕ
cost_micros p input_tokens output_tokens =
    cost_micros_with_cache p input_tokens output_tokens (pos 0) (pos 0)

unfoldable pub usage_reported_cached : Pricing → ℤ → ℤ → ℤ → ℤ → Usage
usage_reported_cached p input output cached_read cache_write = record {
  input_tokens = input;
  output_tokens = output;
  estimated = false;
  cost_micros = pos (cost_micros_with_cache p input output cached_read cache_write);
  currency = p.currency;
  cached_input_tokens = cached_read;
  cache_write_tokens = cache_write;
}

unfoldable pub usage_estimated : Pricing → ℕ → ℕ → Usage
usage_estimated p input_bytes output_bytes =
    let input = pos (estimate_tokens p input_bytes) in
    let output = pos (estimate_tokens p output_bytes) in
    record {
      input_tokens = input;
      output_tokens = output;
      estimated = true;
      cost_micros = pos (cost_micros p input output);
      currency = p.currency;
      cached_input_tokens = pos 0;
      cache_write_tokens = pos 0;
    }

-- ===== src/Limit/Tests.antt =====
-- A bucket of two requests a minute, with a burst of one, on numbers of sixtieths.
use ia_harness.Base.{
  ℕ, suc, ℤ, pos, negsuc, pos_part, ◌+ℤ◌, ◌-ℤ◌, ◌*◌, ◌/◌, leb_ℤ, ◌≡◌, refl, none, if◌then◌else◌,
}
use ia_harness.Core.Config.{RateLimit}
use ia_harness.Limit.{Floats, Bucket, new, reserve, too_long, acquire_rate_limit}

-- Multiplied by `n` and divided by `d`.
abbrev scaled : ℤ → ℕ → ℕ → ℤ
scaled (pos m) n d = pos (m * n / d)
scaled (negsuc m) n d = negsuc (suc m * n / d)

abbrev sixtieths : Floats
sixtieths = record {
  Float = ℤ;
  of_int = λ n. pos (60 * n);
  plus = λ a b. a +ℤ b;
  minus = λ a b. a -ℤ b;
  times = λ a b. scaled a (pos_part b) 60;
  over = λ a b. scaled a 60 (pos_part b);
  minimum = λ a b. if leb_ℤ a b then a else b;
  at_most = leb_ℤ;
  seconds = λ d. pos (pos_part d * 60 / 1_000_000_000);
  to_duration = λ a. scaled a 1 60;
}

abbrev limit : RateLimit
limit = record { requests_per_minute = pos 2; burst = pos 1; max_wait = pos 1_000_000_000 }

abbrev slow : Bucket sixtieths
slow = new sixtieths (pos 2) (pos 1)

-- The second request at the same instant has to wait for half a minute, which is too long.
second_waits :
    (acquire_rate_limit sixtieths (λ time. none) limit (reserve sixtieths slow (pos 5)).1 (pos 5)).0
    ≡ too_long (pos 30_000_000_000)
unfolding acquire_rate_limit reserve new ◌-ℤ◌ ◌+ℤ◌
second_waits = refl

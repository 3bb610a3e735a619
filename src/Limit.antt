-- ===== src/Limit.antt =====
-- internal/engine/ratelimit/bucket.go, and acquireRateLimit of internal/engine/provider_route.go. The
-- operations of float64 are a parameter, an interface whose laws the theorems take.
pub mod Fair
mod Tests
use ia_harness.Base.{
  ℕ, ℤ, pos, pos_part, ◌-ℤ◌, String, Bool, true, false, not, ◌&&◌, Option, none, some, List, [],
  ◌∷◌, Assoc, lookup, leb_ℤ, ltb_ℤ, if◌then◌else◌,
}
use ia_harness.Core.Message.{Time, Duration}
use ia_harness.Core.Config.{RateLimit}

-- The float64 that are numbers, and what the bucket does with them.
pub record Floats : Type 1 where
  pub Float : Type 0
  pub of_int : ℕ → Float
  pub plus : Float → Float → Float
  pub minus : Float → Float → Float
  pub times : Float → Float → Float
  pub over : Float → Float → Float
  -- `math.Min`
  pub minimum : Float → Float → Float
  pub at_most : Float → Float → Bool
  -- `Seconds` of a duration, and the conversion to a duration, which cuts the fraction.
  pub seconds : Duration → Float
  pub to_duration : Float → Duration

abbrev pub burst_or_one : ℤ → ℕ
burst_or_one burst = if leb_ℤ burst (pos 0) then 1 else pos_part burst

module _ (floats : Floats) where
  pub record Bucket : Type 0 where
    pub rate : floats.Float
    pub capacity : floats.Float
    pub tokens : floats.Float
    pub last : Time
    pub started : Bool
    pub limited : Bool
    pub per_minute : ℤ

  abbrev pub unlimited : Bucket
  unlimited = record {
    rate = floats.of_int 0;
    capacity = floats.of_int 0;
    tokens = floats.of_int 0;
    last = pos 0;
    started = false;
    limited = false;
    per_minute = pos 0;
  }

  unfoldable pub new : ℤ → ℤ → Bucket
  new per_minute burst = if leb_ℤ per_minute (pos 0) then unlimited else record {
    rate = floats.over (floats.of_int (pos_part per_minute)) (floats.of_int 60);
    capacity = floats.of_int (burst_or_one burst);
    tokens = floats.of_int (burst_or_one burst);
    last = pos 0;
    started = false;
    limited = true;
    per_minute = per_minute;
  }

  unfoldable pub start : Bucket → Time → Bucket
  start b now = if b.started then b else record b { started = true; last = now }

  -- A clock that goes back gives no tokens.
  unfoldable pub refill : Bucket → Time → Bucket
  refill b now =
      if ltb_ℤ (pos 0) (now -ℤ b.last)
      then record b {
        tokens =
            floats.minimum b.capacity
              (floats.plus b.tokens (floats.times (floats.seconds (now -ℤ b.last)) b.rate));
        last = now;
      }
      else b

  abbrev pub without_token : Bucket → Bucket
  without_token b = record b { tokens = floats.minus b.tokens (floats.of_int 1) }

  -- The wait in nanoseconds, before its conversion.
  abbrev pub delay : Bucket → floats.Float
  delay b =
      floats.times (floats.over (floats.minus (floats.of_int 1) b.tokens) b.rate)
        (floats.of_int 1_000_000_000)

  abbrev pub wait_for : Bucket → Duration
  wait_for b = floats.to_duration (delay b)

  -- The wait, and the bucket without the token; the tokens may fall below 0.
  unfoldable pub take_token : Bucket → Duration × Bucket
  take_token b =
      (if floats.at_most (floats.of_int 1) b.tokens then pos 0 else wait_for b, without_token b)

  unfoldable pub reserve : Bucket → Time → Duration × Bucket
  unfolding start refill take_token
  reserve b now = if not b.limited then (pos 0, b) else take_token (refill (start b now) now)

-- What a request that wants to start meets: it may go, at once or after a wait that ended well or
-- was broken off, or its wait is too long.
pub data Admission : Type 0 where
  at_once : Admission
  waited : Duration → Option String → Admission
  too_long : Duration → Admission

-- `wait` is the waiter's answer: an error where the turn was cancelled in between.
abbrev pub admit : (Duration → Option String) → Duration → Duration → Admission
admit wait max_wait time =
    if leb_ℤ time (pos 0)
    then at_once
    else if ltb_ℤ (pos 0) max_wait && ltb_ℤ max_wait time
    then too_long time
    else waited time (wait time)

module _ (floats : Floats) where
  unfoldable pub acquire_rate_limit :
      (Duration → Option String) → RateLimit → Bucket floats → Time → Admission × Bucket floats
  unfolding reserve
  acquire_rate_limit wait limit b now =
      if not b.limited
      then (at_once, b)
      else (let (time, b') = reserve floats b now in (admit wait limit.max_wait time, b'))

-- The limit of a provider: its own entry, or the default.
unfoldable pub limit_for : Assoc RateLimit → RateLimit → String → RateLimit
limit_for limits default key = elim (lookup key limits) [ none ↦ default | some own ↦ own ]

-- ===== src/Retry.antt =====
-- internal/platform/retry/retry.go: repetition with exponential backoff, and its use by the HTTP
-- providers (internal/platform/providerhttp/retry.go). The operation and the sleeper are code of
-- the callers: what they return at each attempt is a parameter. A wait is a number of nanoseconds,
-- not negative once the policy is normalised; the random factor of the jitter is a parameter.
pub mod Backoff
pub mod Attempts
mod Tests
use ia_harness.Base.{
  ℕ, zero, suc, ◌+◌, ◌-◌, ◌*◌, ◌/◌, ◌^◌, ℤ, pos, pos_part, String, Bool, true, false, not, ◌||◌,
  Option, none, some, List, [], ◌∷◌, any, ltb, leb, ◌==◌, if◌then◌else◌, leb_ℤ, ltb_ℤ, str_eq,
}
use ia_harness.Core.Message.{Duration}

pub record Policy : Type 0 where
  pub max_attempts : ℤ
  pub base_delay : Duration
  pub max_delay : Duration
  pub jitter : Bool

-- A policy with the defaults applied: every field is positive.
pub record Normalized : Type 0 where
  pub attempts : ℕ
  pub base : ℕ
  pub cap : ℕ
  pub scattered : Bool

abbrev pub default_base_delay : ℤ
default_base_delay = pos 100_000_000

unfoldable pub normalized : Policy → Normalized
normalized p =
    let base = if leb_ℤ p.base_delay (pos 0) then default_base_delay else p.base_delay in
    record {
      attempts = if leb_ℤ p.max_attempts (pos 0) then 1 else pos_part p.max_attempts;
      base = pos_part base;
      cap = pos_part (if ltb_ℤ p.max_delay base then base else p.max_delay);
      scattered = p.jitter;
    }

-- The loop of `delayFor`, with the rounds that are left. Doubling stays below the cap, so the int64
-- never wraps.
unfoldable pub double_from : ℕ → ℕ → ℕ → ℕ
double_from cap zero delay = delay
double_from cap (suc rounds) delay =
    let rest = double_from cap rounds (delay * 2) in
    if not (ltb delay cap) then delay else if ltb (cap / 2) delay then cap else rest

-- The wait before attempt `n`, from 2 on; `scatter n d` is `d` with the random factor of that
-- attempt.
unfoldable pub delay_for : (ℕ → ℕ → ℕ) → Normalized → ℕ → ℕ
delay_for scatter p n =
    let raw = double_from p.cap (n - 2) p.base in
    let delay = if ltb p.cap raw then p.cap else raw in
    if p.scattered then scatter n delay else delay

-- The errors that `DoIf` returns, around the operation's or the sleeper's.
pub data Outcome {ℓ} (E : Type ℓ) : Type ℓ where
  done : Outcome E
  cancelled failed : E → Outcome E

-- What the loop has done: the waits, in order, and the outcome.
pub record Trace {ℓ} (E : Type ℓ) : Type ℓ where
  pub waits : List ℕ
  pub outcome : Outcome E

module _ {ℓ} {E : Type ℓ} (op : ℕ → Option E) (sleep : ℕ → ℕ → Option E) (retryable : E → Bool)
    (scatter : ℕ → ℕ → ℕ) where
  -- The failure of an attempt, of which `left` more are allowed.
  abbrev pub after_failure : (ℕ → Trace E) → Normalized → ℕ → ℕ → E → Trace E
  after_failure next p left attempt e =
      if left == 0 || not (retryable e)
      then record { waits = []; outcome = failed e }
      else elim (sleep attempt (delay_for scatter p (attempt + 1))) [
        | some w ↦ record { waits = delay_for scatter p (attempt + 1) ∷ []; outcome = cancelled w }
        | none ↦
            let rest = next (attempt + 1) in
            record {
              waits = delay_for scatter p (attempt + 1) ∷ rest.waits;
              outcome = rest.outcome;
            }
      ]

  -- The `for` loop of `DoIf` at one attempt, of which `left` more may follow.
  unfoldable pub attempt_from : Normalized → ℕ → ℕ → Trace E
  attempt_from p zero attempt = elim (op attempt) [
    | none ↦ record { waits = []; outcome = done }
    | some e ↦ record { waits = []; outcome = failed e }
  ]
  attempt_from p (suc left) attempt = elim (op attempt) [
    | none ↦ record { waits = []; outcome = done }
    | some e ↦ after_failure (attempt_from p left) p (suc left) attempt e
  ]

  unfoldable pub do_if : Policy → Trace E
  do_if policy = let p = normalized policy in attempt_from p (p.attempts - 1) 1

-- The codes of `codesRetryable`, and `Retryable` on an error of a provider.
abbrev pub codes_retryable : List String
codes_retryable =
    "provider_rate_limited" ∷ "provider_timeout" ∷ "provider_unavailable" ∷ "provider_transport"
    ∷ []

pub data HttpError : Type 0 where
  context_done : HttpError
  provider_error : String → HttpError
  other_error : HttpError

unfoldable pub retryable : HttpError → Bool
retryable context_done = false
retryable (provider_error code) = any (λ c. str_eq c code) codes_retryable
retryable other_error = false

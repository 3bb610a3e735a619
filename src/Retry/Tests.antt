-- ===== src/Retry/Tests.antt =====
-- Three attempts, of which the third succeeds.
use ia_harness.Base.{
  ℕ, ◌-◌, pos, ◌≡◌, refl, ◌↔◌, false, Option, none, some, [], ◌∷◌, ltb, if◌then◌else◌,
}
use ia_harness.Retry.{
  Policy, normalized, delay_for, double_from, done, attempt_from, do_if, HttpError, provider_error,
  retryable,
}
use ia_harness.Retry.Attempts.{Succeeds, do_if-done_iff}

abbrev three : Policy
three = record { max_attempts = pos 3; base_delay = pos 50; max_delay = pos 80; jitter = false }

abbrev flaky : ℕ → Option HttpError
flaky attempt = if ltb attempt 3 then some (provider_error "provider_timeout") else none

abbrev sleeps : ℕ → ℕ → Option HttpError
sleeps attempt wait = none

abbrev no_scatter : ℕ → ℕ → ℕ
no_scatter attempt wait = wait

third_time :
    do_if flaky sleeps retryable no_scatter three ≡ record { waits = 50 ∷ 80 ∷ []; outcome = done }
unfolding do_if attempt_from retryable normalized delay_for double_from
third_time = refl

do_if-done_iff_example :
    ((do_if flaky sleeps retryable no_scatter three).outcome ≡ done)
    ↔ Succeeds flaky sleeps retryable no_scatter
        (normalized three)
        ((normalized three).attempts - 1)
        1
do_if-done_iff_example = do_if-done_iff flaky sleeps retryable no_scatter three

-- ===== src/Retry/Attempts.antt =====
-- The loop of `DoIf` in retry.go: how many attempts, which waits, and which outcome.
use ia_harness.Base.{
  ℕ, zero, suc, ◌+◌, ◌-◌, ◌≤◌, ◌≡◌, ◌↔◌, inl, inr, Bool, true, false, Option, none, some, arith,
  length, Option-cases, All,
}
use ia_harness.Retry.{Policy, Normalized, normalized, delay_for, done, Trace, attempt_from, do_if}
use ia_harness.Retry.Backoff.{delay_for-min}

module _ {E : Type 0} (op : ℕ → Option E) (sleep : ℕ → ℕ → Option E) (retryable : E → Bool)
    (scatter : ℕ → ℕ → ℕ) where
  -- An attempt can be followed by another: it failed, the error may be repeated, and the wait ended.
  pub record IsRepeated (p : Normalized) (attempt : ℕ) : Type 0 where
    pub error : E
    pub fails : op attempt ≡ some error
    pub transient : retryable error ≡ true
    pub waited : sleep attempt (delay_for scatter p (attempt + 1)) ≡ none

  -- From this attempt on, with so many more allowed, one succeeds and all before it are repeated.
  pub data Succeeds (p : Normalized) : ℕ → ℕ → Type 0 where
    now : {left attempt : ℕ} → op attempt ≡ none → Succeeds p left attempt
    later :
        {left attempt : ℕ}
        → IsRepeated p attempt
        → Succeeds p left (attempt + 1)
        → Succeeds p (suc left) attempt

  attempt-Succeeds :
      (p : Normalized) (left attempt : ℕ)
      → (attempt_from op sleep retryable scatter p left attempt).outcome ≡ done
      → Succeeds p left attempt
  unfolding attempt_from
  attempt-Succeeds p zero attempt h = elim (Option-cases (op attempt)) [
    | inl success ↦ now success
    | inr (e, fails) ↦ absurd (ground arith)
  ]
  attempt-Succeeds p (suc left) attempt h = elim (Option-cases (op attempt)) [
    | inl success ↦ now success
    | inr (e, fails) ↦ elim (Option-cases (sleep attempt (delay_for scatter p (attempt + 1)))) [
      | inr (w, stopped) ↦ absurd (ground arith)
      | inl waited ↦
          later (record { error = e; fails = fails; transient = ground arith; waited = waited })
            (attempt-Succeeds p left (attempt + 1) (ground arith))
    ]
  ]

  Succeeds-attempt :
      {p : Normalized} {left attempt : ℕ}
      → Succeeds p left attempt
      → (attempt_from op sleep retryable scatter p left attempt).outcome ≡ done
  unfolding attempt_from
  Succeeds-attempt {left = zero} (now h) = ground arith
  Succeeds-attempt {left = suc left} (now h) = ground arith
  Succeeds-attempt (later r s) = ground (arith, Succeeds-attempt s)

  -- The loop ends well exactly where some allowed attempt succeeds, and every attempt before it
  -- failed with an error that may be repeated and a wait that was not cancelled.
  pub do_if-done_iff :
      (policy : Policy)
      → ((do_if op sleep retryable scatter policy).outcome ≡ done)
        ↔ Succeeds (normalized policy) ((normalized policy).attempts - 1) 1
  unfolding do_if
  do_if-done_iff policy =
      (attempt-Succeeds (normalized policy) ((normalized policy).attempts - 1) 1, Succeeds-attempt)

  -- What the loop leaves behind, with `left` attempts to go after this one.
  pub record IsBounded (p : Normalized) (left : ℕ) (t : Trace E) : Type 0 where
    pub few : length t.waits ≤ left
    pub short : All (λ w. w ≤ p.cap) t.waits

  attempt-IsBounded :
      (p : Normalized) (left attempt : ℕ)
      → ((n : ℕ) → delay_for scatter p n ≤ p.cap)
      → IsBounded p left (attempt_from op sleep retryable scatter p left attempt)
  unfolding attempt_from
  attempt-IsBounded p zero attempt h = ground arith
  attempt-IsBounded p (suc left) attempt h =
      ground (arith, h (attempt + 1), attempt-IsBounded p left (attempt + 1) h)

  -- Without jitter a run waits fewer times than it has attempts, and never longer than the cap.
  pub do_if-IsBounded :
      (policy : Policy)
      → policy.jitter ≡ false
      → let p = normalized policy in
        IsBounded p (p.attempts - 1) (do_if op sleep retryable scatter policy)
  unfolding do_if
  do_if-IsBounded policy plain =
      let p = normalized policy in
      attempt-IsBounded p (p.attempts - 1) 1
        (λ n. omega (arith, delay_for-min scatter policy n plain))

-- ===== src/Retry/Backoff.antt =====
-- The waits of retry.go have a closed form: doubling from the base, up to the cap.
use native.Mathlib.Nat.{pow-suc}
use ia_harness.Base.{
  ℕ, zero, suc, ◌-◌, ◌*◌, ◌/◌, ◌^◌, ◌≤◌, ◌<◌, min, ◌≡◌, false, arith, ltb, Bool-cases, inl, inr,
}
use ia_harness.Retry.{Policy, Normalized, normalized, double_from, delay_for}

pow_pos : (r : ℕ) → 0 < 2 ^ r
pow_pos zero = omega arith
pow_pos (suc r) = rw pow-suc (omega (arith, pow_pos r))

double : (d r : ℕ) → d * 2 ^ suc r ≡ d * 2 * 2 ^ r
double d r = rw pow-suc (grind arith)

grows : (d r : ℕ) → d ≤ d * 2 ^ r
grows d r = grind (arith, pow_pos r)

double_from-min :
    (cap rounds delay : ℕ)
    → delay ≤ cap
    → double_from cap rounds delay ≡ min cap (delay * 2 ^ rounds)
unfolding double_from
double_from-min cap zero delay h = omega arith
double_from-min cap (suc rounds) delay h = elim (Bool-cases (ltb delay cap)) [
  | inr full ↦ ground (arith, grows delay (suc rounds))
  | inl room ↦ elim (Bool-cases (ltb (cap / 2) delay)) [
    | inl last ↦ ground (arith, double delay rounds, grows (delay * 2) rounds)
    | inr more ↦
        ground (arith, double delay rounds, double_from-min cap rounds (delay * 2) (ground arith))
  ]
]

-- The defaults leave positive attempts and waits, the base no longer than the cap.
pub record IsSound (p : Normalized) : Type 0 where
  pub one_attempt : 1 ≤ p.attempts
  pub base_pos : 0 < p.base
  pub base_le_cap : p.base ≤ p.cap

pub normalized-IsSound : (p : Policy) → IsSound (normalized p)
unfolding normalized
normalized-IsSound p = ground arith

plain_delay :
    (scatter : ℕ → ℕ → ℕ) (q : Normalized) (n : ℕ)
    → q.scattered ≡ false
    → q.base ≤ q.cap
    → delay_for scatter q n ≡ min q.cap (q.base * 2 ^ (n - 2))
unfolding delay_for
plain_delay scatter q n plain h = rw (plain, double_from-min q.cap (n - 2) q.base h) (ground arith)

normalized-scattered : (p : Policy) → p.jitter ≡ false → (normalized p).scattered ≡ false
unfolding normalized
normalized-scattered p plain = plain

-- Without jitter the wait before attempt `n` is the base doubled `n - 2` times, or the cap where
-- that is more.
pub delay_for-min :
    (scatter : ℕ → ℕ → ℕ) (p : Policy) (n : ℕ)
    → p.jitter ≡ false
    → delay_for scatter (normalized p) n
      ≡ min (normalized p).cap ((normalized p).base * 2 ^ (n - 2))
delay_for-min scatter p n plain =
    plain_delay scatter (normalized p) n (normalized-scattered p plain)
      (normalized-IsSound p).base_le_cap

-- ===== src/Budget/Limits.antt =====
-- What a turn's budget promises: bounded rounds, and a stop exactly at its limits (budget.go).
use native.Mathlib.Decide.{dec_lt, dec_le}
use ia_harness.Base.{
  ltb, min, leb_ℤ, neg_part, ◌∙◌, ℕ, zero, suc, ◌+◌, ◌-◌, ◌≤◌, ◌<◌, ℤ, pos, pos_part, ◌≤ℤ◌, ◌<ℤ◌,
  ◌≡◌, refl, ◌↔◌, ◌⊎◌, inl, inr, true, some, arith, max_int64, IsInt64, add64, if◌then◌else◌,
  Bool-cases,
}
use ia_harness.Core.Message.{Usage, Time}
use ia_harness.Core.Config.{Budget, StopReason}
use ia_harness.Budget.{TurnBudget, new, can_iterate, start_iteration, add_usage, exceeded}

-- The rounds that the loop's guard lets through: `n` attempts to start one more.
pub rounds : ℕ → TurnBudget → ℕ
rounds zero b = 0
rounds (suc n) b = let rest = rounds n (start_iteration b) in if can_iterate b then suc rest else 0

pub count_up : (k : ℕ) → k < max_int64 → add64 (pos k) (pos 1) ≡ pos (suc k)
unfolding add64
count_up k h = ground arith

pub can_iterate-ltb :
    (k m : ℕ) (b : TurnBudget)
    → b.iterations ≡ pos k
    → b.max_iterations ≡ pos m
    → can_iterate b ≡ ltb k m
unfolding can_iterate
can_iterate-ltb k m b ek em = rw (ek, em) (ground arith)

rounds-min :
    (n k m : ℕ) (b : TurnBudget)
    → b.iterations ≡ pos k
    → b.max_iterations ≡ pos m
    → m ≤ max_int64
    → rounds n b ≡ min n (m - k)
unfolding rounds
rounds-min zero k m b ek em fits = omega arith
rounds-min (suc n) k m b ek em fits = elim (dec_lt k m) [
  | yes lt ↦ ground (
    arith,
    can_iterate-ltb k m b ek em,
    rounds-min n (suc k) m (start_iteration b)
        (unfold start_iteration in rw ek (count_up k (omega arith))) (unfold start_iteration in em)
        fits,
  )
  | no ge ↦ ground (arith, can_iterate-ltb k m b ek em)
]

-- The budget is exceeded exactly where it has a deadline that has come, or a positive limit on
-- tokens that the tokens of the turn have reached.
pub exceeded_iff :
    (b : TurnBudget) (now : Time)
    → (exceeded b now ≡ some StopReason.budget) ↔ (
        ((b.has_deadline ≡ true) × (b.deadline ≤ℤ now))
        ⊎ ((pos 0 <ℤ b.max_tokens) × (b.max_tokens ≤ℤ b.tokens)))
unfolding exceeded
exceeded_iff b now = (
  λ h. elim (Bool-cases b.has_deadline) [
    | inl timed ↦
        elim (dec_le (pos_part b.deadline + neg_part now) (pos_part now + neg_part b.deadline)) [
          | yes late ↦ inl (timed, late)
          | no early ↦ inr (ground arith)
        ]
    | inr untimed ↦ inr (ground arith)
  ],
  λ h. ground arith,
)

-- Of `n` rounds that the loop asks for, the budget of a new turn lets through the least of `n` and
-- the limit: the caller's where it is positive, and 8 where it is not.
pub rounds-new :
    (n : ℕ) (b : Budget) (limit : ℤ) (now : Time)
    → IsInt64 limit
    → rounds n (new b limit now) ≡ min n (if leb_ℤ limit (pos 0) then 8 else pos_part limit)
rounds-new n b limit now fits =
    rounds-min n 0 (if leb_ℤ limit (pos 0) then 8 else pos_part limit) (new b limit now)
      (unfold new in refl) (unfold new in ground arith) (ground arith)
    ∙ omega arith

-- Until the sums leave the int64 range, the tokens of a turn are those of its calls, added up.
pub tokens-add_usage :
    (b : TurnBudget) (u : Usage) (t i o : ℕ)
    → b.tokens ≡ pos t
    → u.input_tokens ≡ pos i
    → u.output_tokens ≡ pos o
    → t + (i + o) ≤ max_int64
    → (add_usage b u).tokens ≡ pos (t + (i + o))
unfolding add_usage add64
tokens-add_usage b u t i o et ei eo fits = rw (et, ei, eo) (ground arith)

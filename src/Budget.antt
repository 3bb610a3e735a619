-- ===== src/Budget.antt =====
-- internal/engine/budget/budget.go: the limits of a turn, on iterations, tokens and wall time.
-- The counters are int64 and wrap; `iterations` counts rounds of the loop up to its maximum.
pub mod Limits
mod Tests
use ia_harness.Base.{
  ℤ, pos, Bool, true, false, not, ◌&&◌, Option, none, some, ltb_ℤ, leb_ℤ, if◌then◌else◌, add64,
  ◌+ℤ◌,
}
use ia_harness.Core.Message.{Time, Usage}
use ia_harness.Core.Config.{Budget, StopReason}

pub record TurnBudget : Type 0 where
  pub max_iterations : ℤ
  pub iterations : ℤ
  pub max_tokens : ℤ
  pub tokens : ℤ
  pub deadline : Time
  pub has_deadline : Bool

abbrev pub default_max_iterations : ℤ
default_max_iterations = pos 8

unfoldable pub new : Budget → ℤ → Time → TurnBudget
new b default_iterations now = record {
  max_iterations =
      if leb_ℤ default_iterations (pos 0) then default_max_iterations else default_iterations;
  iterations = pos 0;
  max_tokens = b.max_tokens;
  tokens = pos 0;
  deadline = now +ℤ b.max_wall;
  has_deadline = ltb_ℤ (pos 0) b.max_wall;
}

unfoldable pub can_iterate : TurnBudget → Bool
can_iterate b = ltb_ℤ b.iterations b.max_iterations

unfoldable pub start_iteration : TurnBudget → TurnBudget
start_iteration b = record b { iterations = add64 b.iterations (pos 1) }

unfoldable pub add_usage : TurnBudget → Usage → TurnBudget
add_usage b u = record b { tokens = add64 b.tokens (add64 u.input_tokens u.output_tokens) }

-- `none` is the source's ("", false).
unfoldable pub exceeded : TurnBudget → Time → Option StopReason
exceeded b now =
    if b.has_deadline && not (ltb_ℤ now b.deadline)
    then some StopReason.budget
    else if ltb_ℤ (pos 0) b.max_tokens && leb_ℤ b.max_tokens b.tokens
    then some StopReason.budget
    else none

-- ===== src/Budget/Tests.antt =====
-- A turn with a limit on tokens and on time.
use ia_harness.Base.{◌+ℤ◌, add64, pos, ◌≡◌, refl, some}
use ia_harness.Core.Message.{Usage, no_usage}
use ia_harness.Core.Config.{Budget, StopReason}
use ia_harness.Budget.{TurnBudget, new, add_usage, exceeded}

abbrev small : Budget
small = record { max_tokens = pos 100; max_wall = pos 50 }

abbrev turn : TurnBudget
turn = new small (pos 0) (pos 1000)

abbrev call : Usage
call = record no_usage { input_tokens = pos 80; output_tokens = pos 30 }

stops_on_tokens : exceeded (add_usage turn call) (pos 1010) ≡ some StopReason.budget
unfolding exceeded add_usage new ◌+ℤ◌ add64
stops_on_tokens = refl

stops_on_time : exceeded turn (pos 1050) ≡ some StopReason.budget
unfolding exceeded new ◌+ℤ◌
stops_on_time = refl

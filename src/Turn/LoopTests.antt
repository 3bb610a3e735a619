-- ===== src/Turn/LoopTests.antt =====
-- A turn that calls its tool once, and what is known of it.
use ia_harness.Base.{
  ℕ, zero, suc, ◌<◌, arith, ◌==◌, eq_of_==, Bool-cases, refl, inl, inr, none, some, List, [], ◌∷◌,
}
use ia_harness.Turn.Machine.{Action, World}
use ia_harness.Turn.Parallel.{execute_parallel}
use ia_harness.Turn.Rounds.{turn_loop}
use ia_harness.Turn.Begin.{run_turn}
use ia_harness.Turn.Licence.{IsSafe}
use ia_harness.Turn.Secure.{turn_loop-IsSafe}
use ia_harness.Turn.Bounded.{Ends, run_turn-Ends}
use ia_harness.Turn.WriteAhead.{IsAhead}
use ia_harness.Turn.Durable.{run_turn-IsAhead}
use ia_harness.Turn.Outcomes.{IsIn}
use ia_harness.Turn.Gather.{Gathered, execute_parallel-Gathered}
use ia_harness.Turn.Sample.{
  call, approval, host, engine, host, task, locals, world, request, plan, downward,
}

turn_loop-IsSafe_example : IsSafe host "chat" (turn_loop engine task 3 locals world).1.trace
turn_loop-IsSafe_example = turn_loop-IsSafe engine "chat" task 3 locals world refl tt

run_turn-Ends_example : Ends (run_turn engine request none world)
run_turn-Ends_example = run_turn-Ends engine request none world (ground arith)

-- The same turn in a session without a checkpoint.
abbrev begun : World
begun = record world { session = record world.session { checkpoint = none } }

run_turn-IsAhead_example : IsAhead (run_turn engine request (some (call, approval)) begun).1.trace
run_turn-IsAhead_example =
    run_turn-IsAhead engine "chat" refl refl request (some (call, approval)) begun refl refl tt

downward-covers : (before : List Action) (n j : ℕ) → j < n → IsIn j (downward n)
downward-covers before zero j h = absurd (omega arith)
downward-covers before (suc n) j h = elim (Bool-cases (n == j)) [
  | inl here ↦ inl (eq_of_== n j here)
  | inr later ↦ inr (downward-covers before n j (ground (arith, h, later)))
]

execute_parallel-Gathered_example :
    Gathered host world.session.messages
      (plan ∷ plan ∷ [])
      (execute_parallel host (λ before. downward) (plan ∷ plan ∷ []) world)
execute_parallel-Gathered_example =
    execute_parallel-Gathered host (λ before. downward) (plan ∷ plan ∷ []) world downward-covers

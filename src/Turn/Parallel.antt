-- ===== src/Turn/Parallel.antt =====
-- internal/engine/parallel.go: the calls of a response that may run at the same time. The goroutines
-- reach their tools in any order, and each invocation is one step.
use ia_harness.Base.{
  ℕ, zero, suc, pos, ◌-ℤ◌, ◌==◌, String, Bool, true, false, not, ◌||◌, Option, none, some, List, [],
  ◌∷◌, if◌then◌else◌, length, Result, ok,
}
use ia_harness.Core.Message.{Duration, Message, ToolCall, ToolResult}
use ia_harness.Core.Config.{ToolExecution}
use ia_harness.Policy.{PolicyDecision, authorize, effective_tool_timeout}
use ia_harness.Turn.Machine.{
  Host, InstalledTool, Action, told_call, M, pure, ◌>>=◌, ◌>>◌, get_session, act, history, now,
  milliseconds,
}
use ia_harness.Turn.Calls.{
  Settled, call_lookup_name, find_tool, invalid_args, call_tool, outcome, answer, settle_rest,
  with_id,
}

pub record PlannedCall : Type 0 where
  pub call : ToolCall
  pub it : InstalledTool

-- The zero value stands where a goroutine has not written.
pub record ParallelOutcome : Type 0 where
  pub result : Result String ToolResult
  pub latency : Duration

abbrev pub no_outcome : ParallelOutcome
no_outcome = record {
  result =
      ok (record {
        call_id = "";
        content = [];
        is_error = false;
        denied = false;
        truncated = false;
      });
  latency = pos 0;
}

module _ {A : Type 0} where
  abbrev pub nth : List A → ℕ → Option A
  nth [] i = none
  nth (x ∷ xs) zero = some x
  nth (x ∷ xs) (suc i) = nth xs i

abbrev pub write_at : ℕ → ParallelOutcome → (ℕ → ParallelOutcome) → ℕ → ParallelOutcome
write_at i out outcomes j = if i == j then out else outcomes j

abbrev pub plan_next :
    Option PlannedCall → M (Option (List PlannedCall)) → M (Option (List PlannedCall))
plan_next none rest = pure none
plan_next (some plan) rest = do
  plans ← rest
  pure (elim plans [ none ↦ none | some ps ↦ some (plan ∷ ps) ])

module _ (host : Host) where
  abbrev pub approved_plan : PolicyDecision → InstalledTool → ToolCall → Option PlannedCall
  approved_plan decision it call =
      if not decision.allowed || decision.requires_confirmation
      then none
      else some (record { call = call; it = it })

  abbrev pub valid_plan : Option String → String → InstalledTool → ToolCall → Option PlannedCall
  valid_plan (some wrong) agent_id it call = none
  valid_plan none agent_id it call =
      approved_plan (authorize host.agents host.policy agent_id it.tool) it call

  unfoldable pub plan_call : Option InstalledTool → String → ToolCall → Option PlannedCall
  plan_call none agent_id call = none
  plan_call (some it) agent_id call = valid_plan (invalid_args it call.args) agent_id it call

  unfoldable pub plan_parallel :
      List InstalledTool → String → List ToolCall → M (Option (List PlannedCall))
  unfolding plan_call
  plan_parallel catalog agent_id [] = pure (some [])
  plan_parallel catalog agent_id (call ∷ calls) = do
    named ← with_id host call
    plan_next (plan_call (find_tool catalog (call_lookup_name named)) agent_id named)
        (plan_parallel catalog agent_id calls)

  unfoldable pub tell_calls : List PlannedCall → M (Unit {0})
  tell_calls [] = pure tt
  tell_calls (p ∷ ps) = do act (told_call p.call.id); tell_calls ps

  -- One goroutine.
  unfoldable pub run_planned : PlannedCall → M ParallelOutcome
  unfolding call_tool
  run_planned p = do
    start ← now host
    s ← get_session
    res ← call_tool host p.it p.call (effective_tool_timeout host.policy s.agent_id p.it.tool)
    end ← now host
    pure (record { result = res; latency = end -ℤ start })

  unfoldable pub run_place :
      ℕ → Option PlannedCall → (ℕ → ParallelOutcome) → M (ℕ → ParallelOutcome)
  unfolding run_planned
  run_place i none outcomes = pure outcomes
  run_place i (some p) outcomes = do out ← run_planned p; pure (write_at i out outcomes)

  -- The goroutines, in the order in which they reach their tools.
  unfoldable pub run_all :
      List PlannedCall → List ℕ → (ℕ → ParallelOutcome) → M (ℕ → ParallelOutcome)
  unfolding run_place
  run_all plans [] outcomes = pure outcomes
  run_all plans (i ∷ is) outcomes = do
    outcomes' ← run_place i (nth plans i) outcomes
    run_all plans is outcomes'

  -- The loop over the outcomes, in the order of the calls.
  unfoldable pub collect_one : PlannedCall → ParallelOutcome → M Settled
  unfolding outcome answer
  collect_one p out = do
    (res, status) ← outcome host p.it p.call out.result
    answer host p.call p.it.key res status (milliseconds out.latency)

  unfoldable pub collect :
      List PlannedCall → ℕ → (ℕ → ParallelOutcome) → M (List Message × List ToolExecution × Bool)
  unfolding collect_one
  collect [] i outcomes = pure ([], [], true)
  collect (p ∷ ps) i outcomes = do
    settled ← collect_one p (outcomes i)
    settle_rest (collect ps (suc i) outcomes) settled

  unfoldable pub execute_parallel :
      (List Action → ℕ → List ℕ) → List PlannedCall → M (List Message × List ToolExecution × Bool)
  unfolding tell_calls run_all collect
  execute_parallel order plans = do
    tell_calls plans
    before ← history
    outcomes ← run_all plans (order before (length plans)) (λ i. no_outcome)
    collect plans 0 outcomes

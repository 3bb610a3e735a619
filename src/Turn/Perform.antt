-- ===== src/Turn/Perform.antt =====
-- internal/engine/loop.go: what a turn does with the answer of a model, its calls or its output.
use ia_harness.Base.{
  ltb, String, Bool, true, false, ◌&&◌, Option, none, some, List, ◌++◌, length, is_empty,
  if◌then◌else◌,
}
use ia_harness.Core.Message.{Part, Message, ToolCall}
use ia_harness.Core.Config.{ChatResponse, Error, StopReason, ToolExecution}
use ia_harness.Agents.{output_text}
use ia_harness.Turn.Machine.{M, pure, fail, ◌>>=◌, ◌>>◌, get_session}
use ia_harness.Turn.Checkpoint.{checkpoint_step}
use ia_harness.Turn.Calls.{settle_calls}
use ia_harness.Turn.Parallel.{PlannedCall, plan_parallel, execute_parallel}
use ia_harness.Turn.Engine.{Engine, Task, Locals, Flow, again, ended, waiting}
use ia_harness.Turn.Spending.{end_turn}

module _ (e : Engine) (t : Task) where
  abbrev pub with_answers : Locals → List Message × List ToolExecution × Bool → Locals
  with_answers l (ms, es, done) = record l {
    messages = l.messages ++ ms;
    executions = l.executions ++ es;
  }

  abbrev pub after_calls : Locals → List Message × List ToolExecution × Bool → M Flow
  after_calls l (ms, es, true) = pure (again (with_answers l (ms, es, true)))
  after_calls l (ms, es, false) = do
    s ← get_session
    pure (ended (waiting s (with_answers l (ms, es, false))))

  unfoldable pub sequential : List ToolCall → Locals → M Flow
  sequential calls l = do answers ← settle_calls e.host t.catalog calls; after_calls l answers

  unfoldable pub in_parallel : Option (List PlannedCall) → List ToolCall → Locals → M Flow
  unfolding sequential
  in_parallel none calls l = sequential calls l
  in_parallel (some plans) calls l = do
    answers ← execute_parallel e.host e.invocation_order plans
    checkpoint_step e.host
    pure (again (with_answers l answers))

  unfoldable pub perform : List ToolCall → Locals → M Flow
  unfolding in_parallel sequential
  perform calls l =
      if e.parallel_tools && ltb 1 (length calls)
      then (do
        s ← get_session
        plans ← plan_parallel e.host t.catalog s.agent_id calls
        in_parallel plans calls l)
      else sequential calls l

  abbrev wrong_output : List Part → Option String
  wrong_output output = elim t.check_output [
    | none ↦ none
    | some check ↦ check (output_text output)
  ]

  unfoldable pub conclude : Option String → Message → Locals → M Flow
  unfolding end_turn
  conclude (some wrong) assistant l = fail (Error.output "output/schema-invalido")
  conclude none assistant l = end_turn e.host l assistant.parts StopReason.completed

  -- After the answer stands in the history and is paid for.
  unfoldable pub act_on : ChatResponse → Message → Locals → M Flow
  unfolding conclude perform output_text
  act_on resp assistant l =
      if is_empty resp.tool_calls
      then conclude (wrong_output assistant.parts) assistant l
      else perform resp.tool_calls l

-- ===== src/Turn/Runs.antt =====
-- What the commands keep that append a message: a run of a call and its answer.
use ia_harness.Base.{◌-ℤ◌, ℤ, String, refl, List, [], ◌∷◌, ◌++◌, Result}
use ia_harness.Core.Message.{Message, Duration, Time, ToolCall, ToolResult, Session}
use ia_harness.Core.Config.{ToolStatus}
use ia_harness.Policy.{effective_tool_timeout}
use ia_harness.Turn.Machine.{Host, InstalledTool, Action, pure, ◌>>◌, milliseconds}
use ia_harness.Turn.Checkpoint.{checkpoint_step, checkpoint_tool_start}
use ia_harness.Turn.Calls.{
  record_tool_call, append_message, answer, outcome, call_tool, run_call, call_run, end_run,
  answer_run,
}
use ia_harness.Turn.Frame.{
  Fact, Keeps, IsSteady, Survives, Keeps-go_on, Keeps-checkpoint_step, Keeps-checkpoint_tool_start,
  Keeps-record_tool_call, Keeps-outcome, Keeps-call_tool, ticked,
}

-- A new message leaves the fact too.
pub record IsStable (P : Fact) : Type 0 where
  pub steady : IsSteady P
  pub message :
      {s : Session} {l : List Action} (m : Message)
      → P s l
      → P (record s { messages = s.messages ++ m ∷ [] }) l

module _ (host : Host) (P : Fact) (stable : IsStable P) where
  pub Keeps-answer :
      (call : ToolCall) (tool : String) (res : ToolResult) (status : ToolStatus) (latency : ℤ)
      → Keeps P (answer host call tool res status latency)
  unfolding answer append_message
  Keeps-answer call tool res status latency w h =
      Keeps-go_on P (record_tool_call host call status _) _
        (Keeps-record_tool_call host P stable.steady call status _ (stable.steady.act _ refl h))
        (λ u w' i'. stable.message _ i')

  Keeps-answer_run :
      (it : InstalledTool) (call : ToolCall) (latency : ℤ) (out : ToolResult × ToolStatus)
      → Keeps P (answer_run host it call latency out)
  unfolding answer_run
  Keeps-answer_run it call latency (res, status) w i =
      Keeps-go_on P (answer host call it.key res status latency w)
        (λ settled. checkpoint_step host >> pure settled)
        (Keeps-answer call it.key res status latency w i)
        λ settled w' i'.
          Keeps-go_on P (checkpoint_step host w') (λ u. pure settled)
            (Keeps-checkpoint_step host P stable.steady w' i') λ u v j. j

  pub Keeps-end_run :
      (it : InstalledTool) (call : ToolCall) (start : Time) (r : Result String ToolResult)
      → Keeps P (end_run host it call start r)
  unfolding end_run
  Keeps-end_run it call start r w i =
      Keeps-go_on P (outcome host it call r (ticked w))
        (answer_run host it call (milliseconds (host.clock w.ticks -ℤ start)))
        (Keeps-outcome host P stable.steady it call r (ticked w) i)
        (Keeps-answer_run it call (milliseconds (host.clock w.ticks -ℤ start)))

  Keeps-call_run :
      (it : InstalledTool) (call : ToolCall) (start : Time) (timeout : Duration)
      → Survives P it call
      → Keeps P (call_run host it call start timeout)
  unfolding call_run
  Keeps-call_run it call start timeout survives w i =
      Keeps-go_on P (call_tool host it call timeout w) (end_run host it call start)
        (Keeps-call_tool host P stable.steady it call timeout survives w i)
        (Keeps-end_run it call start)

  pub Keeps-run_call :
      (it : InstalledTool) (call : ToolCall) → Survives P it call → Keeps P (run_call host it call)
  unfolding run_call
  Keeps-run_call it call survives w i =
      let timeout = effective_tool_timeout host.policy w.session.agent_id it.tool in
      Keeps-go_on P (checkpoint_tool_start host it call (ticked w))
        (λ u. call_run host it call (host.clock w.ticks) timeout)
        (Keeps-checkpoint_tool_start host P stable.steady it call (ticked w) i)
        λ u. Keeps-call_run it call (host.clock w.ticks) timeout survives

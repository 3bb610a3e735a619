-- ===== src/Turn/Resumed.antt =====
-- The call that a human decided on, in a turn that writes its calls down (loop.go, resumedResult and
-- resume).
use ia_harness.Base.{
  ℕ, ◌≡◌, ◌∷◌, true, false, not, ◌-ℤ◌, inl, inr, Bool-cases, Option, none, some, String, List,
  Result, ok, failed,
}
use ia_harness.Core.Message.{Bytes, Duration, Session, ToolCall}
use ia_harness.Core.Config.{Decision, Error}
use ia_harness.Policy.{effective_tool_timeout}
use ia_harness.Turn.Machine.{InstalledTool, World, Action, called, go_on, ◌>>=◌, milliseconds}
use ia_harness.Turn.Checkpoint.{checkpoint_step, checkpoint_tool_start}
use ia_harness.Turn.Calls.{call_lookup_name, find_tool, call_tool, outcome, answer, with_call_id}
use ia_harness.Turn.Recovery.{resumed_result, resume_call}
use ia_harness.Turn.Engine.{Engine, Locals}
use ia_harness.Turn.Begin.{resume_turn, with_output}
use ia_harness.Turn.Frame.{Holds, Keeps, Keeps-go_on, Keeps-checkpoint_step, Keeps-outcome, ticked}
use ia_harness.Turn.Runs.{Keeps-answer}
use ia_harness.Turn.Lasting.{Keeps-turn_loop}
use ia_harness.Turn.WriteAhead.{
  Ahead, ahead_stable, ahead_robust, IsStarted, start-IsStarted, the_checkpoint,
}

module _ (e : Engine) (agent : String) (durable : e.host.durable ≡ true)
    (sequential : e.parallel_tools ≡ false) where
  abbrev P : Session → List Action → Type 0
  P = Ahead e.host agent durable

  Keeps-started_again :
      (it : InstalledTool) (call : ToolCall) (timeout : Duration)
      (r : Result Error (Unit {0}) × World)
      → IsStarted e.host agent durable it call r
      → Holds P
          (go_on r (λ u. call_tool e.host it call timeout >>= λ res. outcome e.host it call res)).1
  unfolding call_tool
  Keeps-started_again it call timeout (failed x, w) h = h
  Keeps-started_again it call timeout (ok u, w) ((of_agent, has, h), was) =
      Keeps-outcome e.host P (ahead_stable e.host agent durable).steady it call
        (with_call_id call.id (e.host.invoke w.trace it call timeout))
        (record w { trace = called it call ∷ w.trace }) (of_agent, has, (was, h))

  Keeps-resumed_result :
      (it : Option InstalledTool) (call : ToolCall) (d : Decision)
      → Keeps P (resumed_result e.host it call d)
  unfolding resumed_result
  Keeps-resumed_result none call d w h = h
  Keeps-resumed_result (some it) call d w h = elim (Bool-cases (not d.approve)) [
    | inl refused ↦ rw refused h
    | inr approved ↦
        let (c, there) = the_checkpoint e.host agent durable w.session.checkpoint h.1 in
        rw approved (
          Keeps-started_again it call
            (effective_tool_timeout e.host.policy w.session.agent_id it.tool)
            (checkpoint_tool_start e.host it call w)
            (start-IsStarted e.host agent durable it call w c h there))
  ]

  Keeps-resume_call :
      (catalog : List InstalledTool) (call : ToolCall) (d : Decision)
      → Keeps P (resume_call e.host catalog call d)
  unfolding resume_call
  Keeps-resume_call catalog call d w h =
      let stable = ahead_stable e.host agent durable in
      let it = find_tool catalog (call_lookup_name call) in
      Keeps-go_on P (resumed_result e.host it call d (ticked w)) _
        (Keeps-resumed_result it call d (ticked w) h)
        λ out v j.
          let latency = milliseconds (e.host.clock v.ticks -ℤ e.host.clock w.ticks) in
          Keeps-go_on P (answer e.host call (call_lookup_name call) out.0 out.1 latency (ticked v))
            _
            (Keeps-answer e.host P stable call (call_lookup_name call) out.0 out.1 latency
              (ticked v) j)
            λ settled x k.
              Keeps-go_on P (checkpoint_step e.host x) _
                (Keeps-checkpoint_step e.host P stable.steady x k) λ u y m. m

  Keeps-resume_turn :
      (catalog : List InstalledTool) (resume : Option (ToolCall × Decision)) (l : Locals)
      → Keeps P (resume_turn e catalog resume l)
  unfolding resume_turn
  Keeps-resume_turn catalog none l w h = h
  Keeps-resume_turn catalog (some (call, d)) l w h =
      Keeps-go_on P (resume_call e.host catalog call d w) _ (Keeps-resume_call catalog call d w h)
        λ settled v j. j

  pub Keeps-with_output :
      (turns : ℕ) (catalog : List InstalledTool) (schema : Bytes)
      (resume : Option (ToolCall × Decision)) (l : Locals)
      (check : Result String (Option (Bytes → Option String)))
      → Keeps P (with_output e turns catalog schema resume l check)
  unfolding with_output
  Keeps-with_output turns catalog schema resume l (failed x) w h = h
  Keeps-with_output turns catalog schema resume l (ok check) w h =
      Keeps-go_on P (resume_turn e catalog resume l w) _ (Keeps-resume_turn catalog resume l w h)
        λ l'. Keeps-turn_loop e _ P (ahead_robust e agent durable sequential) _ l'

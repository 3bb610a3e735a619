-- ===== src/Turn/Whole.antt =====
-- What runTurn keeps from its first step to its last: a fact on the session and the trace that a
-- turn's loop, every call and a new checkpoint keep.
use ia_harness.Base.{
  ℕ, ◌≡◌, Bool, true, false, not, ◌||◌, inl, inr, Option, none, some, String, List, [], ◌∷◌, Result,
  ok, failed, Bool-cases, refl, ◌-ℤ◌,
}
use ia_harness.Core.Message.{
  CheckpointStatus, TurnCheckpoint, Bytes, Part, PendingCall, Session, ToolCall, ToolResult,
}
use ia_harness.Core.Config.{Decision, RunRequest}
use ia_harness.Budget.{TurnBudget}
use ia_harness.Policy.{effective_tool_timeout}
use ia_harness.Turn.Machine.{InstalledTool, Action, told_result, milliseconds}
use ia_harness.Turn.Checkpoint.{
  begin_checkpoint, checkpoint_tool_start, checkpoint_step, is_running, has_tool_result,
}
use ia_harness.Turn.Calls.{
  call_lookup_name, find_tool, call_tool, record_tool_call, result_status, append_message, answer,
}
use ia_harness.Turn.Recovery.{
  repeatable, repeated_result, repeated_status, repeat_call, reconcile_found, reconcile_pending,
  reconcile_checkpoint, resumed_result, resume_call,
}
use ia_harness.Turn.Memory.{memory_messages}
use ia_harness.Turn.Engine.{Engine, Locals}
use ia_harness.Turn.Begin.{
  turn_catalog, add_input, resume_turn, with_output, with_catalog, run_turn,
}
use ia_harness.Turn.Frame.{
  Fact, Keeps, Keeps-go_on, Keeps-with_checkpoint, Keeps-checkpoint_step, Keeps-save_checkpoint,
  Keeps-checkpoint_tool_start, Keeps-record_tool_call, Keeps-outcome, ticked, Keeps-call_tool,
  Survives,
}
use ia_harness.Turn.Runs.{Keeps-answer}
use ia_harness.Turn.Robust.{IsRobust}
use ia_harness.Turn.Lasting.{Keeps-turn_loop}
use ia_harness.Turn.Opening.{Keeps-turn_catalog, Keeps-memory_messages}

module _ (e : Engine) (P : Fact) (robust : IsRobust e P)
    (begins : (s : Session) (l : List Action) (c : TurnCheckpoint)
      → c.status ≡ CheckpointStatus.running
      → P s l
      → P (record s { checkpoint = some c }) l)
    (survives : (it : InstalledTool) (call : ToolCall) → Survives P it call) where
  Keeps-append_message : (res : ToolResult) → Keeps P (append_message e.host res)
  unfolding append_message
  Keeps-append_message res w i = robust.stable.message _ i

  Keeps-repeat_call :
      (pending : PendingCall) (it : Option (InstalledTool × ToolCall))
      → Keeps P (repeat_call e.host pending it)
  unfolding repeat_call
  Keeps-repeat_call pending none w i = i
  Keeps-repeat_call pending (some (it, call)) w i =
      Keeps-go_on P
        (call_tool e.host it call (effective_tool_timeout e.host.policy w.session.agent_id it.tool)
          w)
        _ (Keeps-call_tool e.host P robust.stable.steady it call _ (survives it call) w i)
        λ res v j.
          let v' = record v {
            trace =
                told_result call.id (result_status (repeated_result pending.call_id res)) ∷ v.trace;
          } in
          Keeps-go_on P (record_tool_call e.host call (repeated_status res) v') _
            (Keeps-record_tool_call e.host P robust.stable.steady call (repeated_status res) v'
              (robust.stable.steady.act _ refl j))
            λ u x k. k

  Keeps-found :
      (found : Bool) (catalog : List InstalledTool) (pending : PendingCall) (s : Session)
      → Keeps P (reconcile_found e.host found catalog pending s)
  unfolding reconcile_found
  Keeps-found true catalog pending s w i = Keeps-checkpoint_step e.host P robust.stable.steady w i
  Keeps-found false catalog pending s w i =
      Keeps-go_on P (repeat_call e.host pending (repeatable catalog s pending) w) _
        (Keeps-repeat_call pending (repeatable catalog s pending) w i)
        λ res v j.
          Keeps-go_on P (append_message e.host res v) _ (Keeps-append_message res v j)
            λ m. Keeps-checkpoint_step e.host P robust.stable.steady

  Keeps-pending :
      (catalog : List InstalledTool) (pending : Option PendingCall)
      → Keeps P (reconcile_pending e.host catalog pending)
  unfolding reconcile_pending
  Keeps-pending catalog none w i = i
  Keeps-pending catalog (some p) w i =
      Keeps-found (has_tool_result w.session p.call_id) catalog p w.session w i

  Keeps-reconcile : (catalog : List InstalledTool) → Keeps P (reconcile_checkpoint e.host catalog)
  unfolding reconcile_checkpoint
  Keeps-reconcile catalog =
      Keeps-with_checkpoint e.host P robust.stable.steady _
        λ c w same i. Keeps-pending catalog c.pending_call w i

  Keeps-add_input : (input : List Part) → Keeps P (add_input e input)
  unfolding add_input
  Keeps-add_input [] w i = i
  Keeps-add_input (p ∷ ps) w i = robust.stable.message _ i

  Keeps-begin : Keeps P (begin_checkpoint e.host)
  unfolding begin_checkpoint
  Keeps-begin w i = elim (Bool-cases (not e.host.durable || is_running w.session.checkpoint)) [
    | inl started ↦ rw started i
    | inr fresh ↦
        rw fresh (Keeps-save_checkpoint e.host P robust.stable.steady _ (begins _ _ _ refl i))
  ]

  Keeps-resumed_result :
      (it : Option InstalledTool) (call : ToolCall) (d : Decision)
      → Keeps P (resumed_result e.host it call d)
  unfolding resumed_result
  Keeps-resumed_result none call d w i = i
  Keeps-resumed_result (some it) call d w i = elim (Bool-cases (not d.approve)) [
    | inl refused ↦ rw refused i
    | inr approved ↦
        let timeout = effective_tool_timeout e.host.policy w.session.agent_id it.tool in
        rw approved (
          Keeps-go_on P (checkpoint_tool_start e.host it call w) _
            (Keeps-checkpoint_tool_start e.host P robust.stable.steady it call w i)
            λ u v j.
              Keeps-go_on P (call_tool e.host it call timeout v) _
                (Keeps-call_tool e.host P robust.stable.steady it call timeout (survives it call) v
                  j)
                λ res. Keeps-outcome e.host P robust.stable.steady it call res)
  ]

  Keeps-resume_call :
      (catalog : List InstalledTool) (call : ToolCall) (d : Decision)
      → Keeps P (resume_call e.host catalog call d)
  unfolding resume_call
  Keeps-resume_call catalog call d w i =
      let it = find_tool catalog (call_lookup_name call) in
      Keeps-go_on P (resumed_result e.host it call d (ticked w)) _
        (Keeps-resumed_result it call d (ticked w) i)
        λ out v j.
          let latency = milliseconds (e.host.clock v.ticks -ℤ e.host.clock w.ticks) in
          Keeps-go_on P (answer e.host call (call_lookup_name call) out.0 out.1 latency (ticked v))
            _
            (Keeps-answer e.host P robust.stable call (call_lookup_name call) out.0 out.1 latency
              (ticked v) j)
            λ settled x k.
              Keeps-go_on P (checkpoint_step e.host x) _
                (Keeps-checkpoint_step e.host P robust.stable.steady x k) λ u y m. m

  Keeps-resume_turn :
      (catalog : List InstalledTool) (resume : Option (ToolCall × Decision)) (l : Locals)
      → Keeps P (resume_turn e catalog resume l)
  unfolding resume_turn
  Keeps-resume_turn catalog none l w i = i
  Keeps-resume_turn catalog (some (call, d)) l w i =
      Keeps-go_on P (resume_call e.host catalog call d w) _ (Keeps-resume_call catalog call d w i)
        λ settled v j. j

  Keeps-with_output :
      (turns : ℕ) (catalog : List InstalledTool) (schema : Bytes)
      (resume : Option (ToolCall × Decision)) (l : Locals)
      (check : Result String (Option (Bytes → Option String)))
      → Keeps P (with_output e turns catalog schema resume l check)
  unfolding with_output
  Keeps-with_output turns catalog schema resume l (failed x) w i = i
  Keeps-with_output turns catalog schema resume l (ok check) w i =
      Keeps-go_on P (resume_turn e catalog resume l w) _ (Keeps-resume_turn catalog resume l w i)
        λ l'. Keeps-turn_loop e _ P robust _ l'

  Keeps-with_catalog :
      (turns : ℕ) (budget : TurnBudget) (req : RunRequest) (resume : Option (ToolCall × Decision))
      (catalog : List InstalledTool)
      → Keeps P (with_catalog e turns budget req resume catalog)
  unfolding with_catalog
  Keeps-with_catalog turns budget req resume catalog w i =
      Keeps-go_on P (reconcile_checkpoint e.host catalog w) _ (Keeps-reconcile catalog w i) λ u v j.
        Keeps-go_on P (add_input e req.input v) _ (Keeps-add_input req.input v j) λ u' v' j'.
          Keeps-go_on P (begin_checkpoint e.host v') _ (Keeps-begin v' j') λ u'' x k.
            Keeps-go_on P (memory_messages e req.input x) _
              (Keeps-memory_messages e P req.input x k)
              λ memory y m. Keeps-with_output turns catalog req.output_schema resume _ _ y m

  pub Keeps-run_turn :
      (req : RunRequest) (resume : Option (ToolCall × Decision)) → Keeps P (run_turn e req resume)
  unfolding run_turn
  Keeps-run_turn req resume w i =
      Keeps-go_on P (turn_catalog e (ticked w)) _
        (Keeps-turn_catalog e P (λ s l a. robust.stable.steady.act a) (ticked w) i)
        λ catalog v j. Keeps-with_catalog _ _ req resume catalog v j

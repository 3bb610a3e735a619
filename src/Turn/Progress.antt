-- ===== src/Turn/Progress.antt =====
-- Only a store that fails ends the loop over the calls in an error.
use ia_harness.Base.{
  suc, ℤ, pos, String, str_eq, ◌≡◌, Bool, true, false, inl, inr, Option, none, some, List, [], ◌∷◌,
  if◌then◌else◌, Result, ok, failed, Bool-cases,
}
use ia_harness.Core.Message.{Time, Message, ToolCall, ToolResult, TurnCheckpoint, Session}
use ia_harness.Core.Config.{ToolStatus, ToolExecution, Decision, Error}
use ia_harness.Policy.{PolicyDecision, authorize, effective_tool_timeout}
use ia_harness.Turn.Machine.{
  Host, InstalledTool, World, Action, called, asked, told_call, M, pure, go_on, ◌>>◌,
}
use ia_harness.Turn.Checkpoint.{
  store_session, save_session, with_checkpoint, save_checkpoint, checkpoint_step, stepped,
  checkpoint_tool_start,
}
use ia_harness.Turn.Calls.{
  Settled, answered, paused, Reply, decided, pending, invalid_args, call_lookup_name, find_tool,
  with_call_id, record_tool_call, append_message, answer, outcome, call_tool, answer_run, end_run,
  call_run, run_call, mark_pending, take_answer, request_confirmation, pause_call, after_reply,
  confirm_call, decide_call, validated_call, check_call, settle_found, settle_call, settle_rest,
  settle_calls,
}
use ia_harness.Turn.Frame.{ticked, with_new}

abbrev pub IsOk : {A : Type 0} → Result Error A × World → Type 0
IsOk (ok a, w) = Unit
IsOk (failed e, w) = ⊥

abbrev pub Succeeds : {A : Type 0} → M A → Type 0
Succeeds m = (w : World) → IsOk (m w)

IsOk-go_on :
    {A B : Type 0} (r : Result Error A × World) (k : A → M B)
    → IsOk r
    → ((a : A) → Succeeds (k a))
    → IsOk (go_on r k)
IsOk-go_on (ok a, w) k h each = each a w
IsOk-go_on (failed e, w) k h each = absurd h

module _ (host : Host)
    (reliable : (before : List Action) (s : Session) → host.save before s ≡ none) where
  save_session-Succeeds : Succeeds (save_session host)
  unfolding save_session
  save_session-Succeeds w = go (host.save w.trace w.session) (reliable w.trace w.session)
    where
      go : (answer : Option String) → answer ≡ none → IsOk (store_session host answer w.session w)
      go none e = tt
      go (some x) e = cc

  with_checkpoint-Succeeds :
      (k : TurnCheckpoint → M (Unit {0}))
      → ((c : TurnCheckpoint) → Succeeds (k c))
      → Succeeds (with_checkpoint host k)
  with_checkpoint-Succeeds k h w = go host.durable w.session.checkpoint
    where
      go :
          (durable : Bool) (c : Option TurnCheckpoint)
          → IsOk ((if durable then elim c [ none ↦ pure tt | some x ↦ k x ] else pure tt) w)
      go true none = tt
      go true (some x) = h x w
      go false c = tt

  save_checkpoint-Succeeds : Succeeds (save_checkpoint host)
  unfolding save_checkpoint
  save_checkpoint-Succeeds =
      with_checkpoint-Succeeds _
        λ c w. IsOk-go_on (save_session host _) _ (save_session-Succeeds _) (λ u v. tt)

  checkpoint_step-Succeeds : Succeeds (checkpoint_step host)
  unfolding checkpoint_step
  checkpoint_step-Succeeds =
      with_checkpoint-Succeeds _ λ c w. save_checkpoint-Succeeds (with_new w (stepped host c))

  checkpoint_tool_start-Succeeds :
      (it : InstalledTool) (call : ToolCall) → Succeeds (checkpoint_tool_start host it call)
  unfolding checkpoint_tool_start
  checkpoint_tool_start-Succeeds it call = with_checkpoint-Succeeds _ λ c w.
      save_checkpoint-Succeeds (
        with_new w (record c {
          pending_call = some (record {
            call_id = call.id;
            tool = it.key;
            args_redacted = host.redact call.args;
            idempotent = it.tool.idempotent;
          });
        }))

  record_tool_call-Succeeds :
      (call : ToolCall) (status : ToolStatus) → Succeeds (record_tool_call host call status)
  unfolding record_tool_call
  record_tool_call-Succeeds call status w = elim (Bool-cases (host.audit_fails w.trace)) [
    | inl failing ↦ rw failing tt
    | inr fine ↦ rw fine tt
  ]

  answer-Succeeds :
      (call : ToolCall) (tool : String) (res : ToolResult) (status : ToolStatus) (latency : ℤ)
      → Succeeds (answer host call tool res status latency)
  unfolding answer append_message
  answer-Succeeds call tool res status latency w =
      IsOk-go_on (record_tool_call host call status _) _ (record_tool_call-Succeeds call status _)
        (λ u v. tt)

  answer_run-Succeeds :
      (it : InstalledTool) (call : ToolCall) (latency : ℤ) (out : ToolResult × ToolStatus)
      → Succeeds (answer_run host it call latency out)
  unfolding answer_run
  answer_run-Succeeds it call latency (res, status) w =
      IsOk-go_on (answer host call it.key res status latency w)
        (λ settled. checkpoint_step host >> pure settled)
        (answer-Succeeds call it.key res status latency w)
        λ settled v.
          IsOk-go_on (checkpoint_step host v) (λ u. pure settled) (checkpoint_step-Succeeds v)
            (λ u x. tt)

  end_run-Succeeds :
      (it : InstalledTool) (call : ToolCall) (start : Time) (r : Result String ToolResult)
      → Succeeds (end_run host it call start r)
  unfolding end_run outcome
  end_run-Succeeds it call start (ok res) w = answer_run-Succeeds it call _ _ _
  end_run-Succeeds it call start (failed e) w = answer_run-Succeeds it call _ _ _

  run_call-Succeeds : (it : InstalledTool) (call : ToolCall) → Succeeds (run_call host it call)
  unfolding run_call call_run call_tool
  run_call-Succeeds it call w =
      let timeout = effective_tool_timeout host.policy w.session.agent_id it.tool in
      IsOk-go_on (checkpoint_tool_start host it call (ticked w))
        (λ u. call_run host it call (host.clock w.ticks) timeout)
        (checkpoint_tool_start-Succeeds it call (ticked w))
        λ u v.
          end_run-Succeeds it call (host.clock w.ticks)
            (with_call_id call.id (host.invoke v.trace it call timeout))
            (record v { trace = called it call ∷ v.trace })

  take_answer-Succeeds :
      (it : InstalledTool) (call : ToolCall) (d : Result String Decision)
      → Succeeds (take_answer host it call d)
  unfolding take_answer mark_pending
  take_answer-Succeeds it call (ok d) w = tt
  take_answer-Succeeds it call (failed e) w =
      IsOk-go_on (save_session host _) (λ u. pure pending) (save_session-Succeeds _) (λ u v. tt)

  after_reply-Succeeds :
      (it : InstalledTool) (call : ToolCall) (reply : Reply)
      → Succeeds (after_reply host it call reply)
  unfolding after_reply pause_call
  after_reply-Succeeds it call pending w =
      IsOk-go_on (record_tool_call host call ToolStatus.awaiting_confirmation w) _
        (record_tool_call-Succeeds call ToolStatus.awaiting_confirmation w) (λ u v. tt)
  after_reply-Succeeds it call (decided d) w = elim (Bool-cases d.approve) [
    | inl approved ↦ rw approved (run_call-Succeeds it call w)
    | inr refused ↦ rw refused (answer-Succeeds call it.key _ ToolStatus.denied (pos 0) w)
  ]

  confirm_call-Succeeds :
      (it : InstalledTool) (call : ToolCall) → Succeeds (confirm_call host it call)
  unfolding confirm_call request_confirmation
  confirm_call-Succeeds it call w =
      let d = host.confirm w.trace call in
      let w' = record w { trace = asked call d ∷ w.trace } in
      IsOk-go_on (take_answer host it call d w') (after_reply host it call)
        (take_answer-Succeeds it call d w') (after_reply-Succeeds it call)

  decide_call-Succeeds :
      (d : PolicyDecision) (it : InstalledTool) (call : ToolCall)
      → Succeeds (decide_call host d it call)
  unfolding decide_call
  decide_call-Succeeds d it call w = elim (Bool-cases d.allowed) [
    | inr refused ↦ rw refused (answer-Succeeds call it.key _ ToolStatus.denied (pos 0) w)
    | inl allowed ↦ elim (Bool-cases d.requires_confirmation) [
      | inl human ↦ rw (allowed, human) (confirm_call-Succeeds it call w)
      | inr alone ↦ rw (allowed, alone) (run_call-Succeeds it call w)
    ]
  ]

  validated_call-Succeeds :
      (wrong : Option String) (it : InstalledTool) (call : ToolCall)
      → Succeeds (validated_call host wrong it call)
  unfolding validated_call
  validated_call-Succeeds (some wrong) it call w =
      answer-Succeeds call it.key _ ToolStatus.error (pos 0) w
  validated_call-Succeeds none it call w =
      decide_call-Succeeds (authorize host.agents host.policy w.session.agent_id it.tool) it call w

  settle_found-Succeeds :
      (found : Option InstalledTool) (call : ToolCall) → Succeeds (settle_found host found call)
  unfolding settle_found check_call
  settle_found-Succeeds none call w =
      answer-Succeeds call (call_lookup_name call) _ ToolStatus.error (pos 0) w
  settle_found-Succeeds (some it) call w =
      validated_call-Succeeds (invalid_args it call.args) it call
        (record w { trace = told_call call.id ∷ w.trace })

  settle_call-Succeeds :
      (catalog : List InstalledTool) (call : ToolCall) → Succeeds (settle_call host catalog call)
  unfolding settle_call
  settle_call-Succeeds catalog call w = elim (Bool-cases (str_eq call.id "")) [
    | inl unnamed ↦
        let named = record call { id = host.new_id w.ids } in
        rw unnamed (
          settle_found-Succeeds (find_tool catalog (call_lookup_name named)) named
            (record w { ids = suc w.ids }))
    | inr named ↦
        rw named (settle_found-Succeeds (find_tool catalog (call_lookup_name call)) call w)
  ]

  settle_rest-Succeeds :
      (rest : M (List Message × List ToolExecution × Bool)) (settled : Settled)
      → Succeeds rest
      → Succeeds (settle_rest rest settled)
  settle_rest-Succeeds rest paused h w = tt
  settle_rest-Succeeds rest (answered m e) h w =
      IsOk-go_on (rest w) (λ r. pure (m ∷ r.0, e ∷ r.1, r.2)) (h w) (λ r v. tt)

  -- With a store that takes every session, the loop over the calls of a response never ends in an
  -- error, whatever the tools, the human and the audit do.
  pub settle_calls-Succeeds :
      (catalog : List InstalledTool) (calls : List ToolCall)
      → Succeeds (settle_calls host catalog calls)
  unfolding settle_calls
  settle_calls-Succeeds catalog [] w = tt
  settle_calls-Succeeds catalog (call ∷ calls) w =
      IsOk-go_on (settle_call host catalog call w) (settle_rest (settle_calls host catalog calls))
        (settle_call-Succeeds catalog call w)
        λ settled.
          settle_rest-Succeeds (settle_calls host catalog calls) settled
            (settle_calls-Succeeds catalog calls)

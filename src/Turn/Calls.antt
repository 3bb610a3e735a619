-- ===== src/Turn/Calls.antt =====
-- The calls of a response (loop.go: the sequential loop over resp.ToolCalls and the resumption),
-- requestConfirmation of policy_gate.go and reconcileCheckpoint of checkpoint.go.
use ia_harness.Base.{
  ℤ, pos, ◌-ℤ◌, String, str_eq, Bool, true, false, not, ◌||◌, Option, none, some, List, [], ◌∷◌,
  ◌++◌, if◌then◌else◌, Result, ok, failed,
}
use ia_harness.Core.Message.{Bytes, Time, Duration, SessionState, Message, ToolCall, ToolResult}
use ia_harness.Core.Config.{ToolStatus, ToolExecution, Decision}
use ia_harness.Policy.{
  Reason, none_given, PolicyDecision, tool_key, authorize, effective_tool_timeout, ◌^^◌,
}
use ia_harness.Turn.Results.{error_result, denied_result, tool_message}
use ia_harness.Turn.Machine.{
  Host, InstalledTool, called, asked, told_call, told_error, told_result, recorded, M, pure, ◌>>=◌,
  ◌>>◌, get_session, set_session, act, history, now, fresh_id, milliseconds,
}
use ia_harness.Turn.Checkpoint.{save_session, checkpoint_step, checkpoint_tool_start}

unfoldable pub call_lookup_name : ToolCall → String
call_lookup_name call =
    if not (str_eq call.namespace "") then call.namespace ^^ "." ^^ call.name else call.name

unfoldable pub find_tool : List InstalledTool → String → Option InstalledTool
find_tool [] name = none
find_tool (it ∷ catalog) name =
    let rest = find_tool catalog name in
    if str_eq it.key name || str_eq it.tool.name name then some it else rest

abbrev pub invalid_args : InstalledTool → Option Bytes → Option String
invalid_args it args = elim it.validator [ none ↦ none | some validate ↦ validate args ]

-- What the loop did with a call: it answered it, or the turn pauses for a human.
pub data Settled : Type 0 where
  answered : Message → ToolExecution → Settled
  paused : Settled

pub data Reply : Type 0 where
  decided : Decision → Reply
  pending : Reply

abbrev pub result_status : ToolResult → ToolStatus
result_status res =
    if res.denied
    then ToolStatus.denied
    else if res.is_error
    then ToolStatus.error
    else ToolStatus.ok

abbrev pub transport_error : String
transport_error = "falha de comunicação com o serviço da tool"

abbrev pub with_call_id : String → Result String ToolResult → Result String ToolResult
with_call_id id (failed e) = failed e
with_call_id id (ok res) = ok (record res { call_id = id })

abbrev pub settle_rest :
    M (List Message × List ToolExecution × Bool)
    → Settled
    → M (List Message × List ToolExecution × Bool)
settle_rest rest paused = pure ([], [], false)
settle_rest rest (answered m e) = do (ms, es, done) ← rest; pure (m ∷ ms, e ∷ es, done)

module _ (host : Host) where
  -- `callTool` and `invokeTool`, without the span: an error of transport leaves the result to the
  -- caller, and a result gets the id of the call.
  unfoldable pub call_tool : InstalledTool → ToolCall → Duration → M (Result String ToolResult)
  call_tool it call timeout = do
    before ← history
    act (called it call)
    pure (with_call_id call.id (host.invoke before it call timeout))

  unfoldable pub record_tool_call : ToolCall → ToolStatus → M (Unit {0})
  record_tool_call call status = do
    fresh_id host
    now host
    before ← history
    act (recorded call.id status)
    (if host.audit_fails before then act (told_error (call_lookup_name call)) else pure tt)

  unfoldable pub append_message : ToolResult → M Message
  append_message res = do
    id ← fresh_id host
    time ← now host
    s ← get_session
    set_session (record s {
      messages = s.messages ++ tool_message id time host.tool_result_max_bytes res ∷ [];
    })
    pure (tool_message id time host.tool_result_max_bytes res)

  -- The event, the audit, the message and the entry of the executions.
  unfoldable pub answer : ToolCall → String → ToolResult → ToolStatus → ℤ → M Settled
  unfolding record_tool_call append_message
  answer call tool res status latency = do
    act (told_result call.id (result_status res))
    record_tool_call call status
    m ← append_message res
    pure (
        answered m
          (record { call_id = call.id; tool = tool; status = status; latency_ms = latency }))

  abbrev pub reason_words : Reason → String
  reason_words none_given = ""
  reason_words reason = host.words reason

  abbrev pub confirmation_reason : Reason → String
  confirmation_reason reason =
      if str_eq (reason_words reason) "" then "tool exige confirmação" else reason_words reason

  -- A host that cannot answer leaves the pending call in the session.
  unfoldable pub mark_pending : InstalledTool → ToolCall → M (Unit {0})
  mark_pending it call = do
    time ← now host
    s ← get_session
    set_session (record s {
      state = SessionState.awaiting_confirmation;
      pending = some (record {
        call_id = call.id;
        tool_name = tool_key it.tool;
        args_redacted = host.redact call.args;
        reason = confirmation_reason (authorize host.agents host.policy s.agent_id it.tool).reason;
        requested_at = time;
      });
    })

  unfoldable pub take_answer : InstalledTool → ToolCall → Result String Decision → M Reply
  unfolding mark_pending save_session
  take_answer it call (ok d) = pure (decided d)
  take_answer it call (failed e) = do mark_pending it call; save_session host; pure pending

  unfoldable pub request_confirmation : InstalledTool → ToolCall → M Reply
  unfolding take_answer
  request_confirmation it call = do
    before ← history
    act (asked call (host.confirm before call))
    take_answer it call (host.confirm before call)

  -- A transport error becomes an error result, with its event.
  unfoldable pub outcome :
      InstalledTool → ToolCall → Result String ToolResult → M (ToolResult × ToolStatus)
  outcome it call (failed e) = do
    act (told_error it.key)
    pure (error_result call.id transport_error, ToolStatus.error)
  outcome it call (ok res) = pure (res, (if res.is_error then ToolStatus.error else ToolStatus.ok))

  unfoldable pub answer_run : InstalledTool → ToolCall → ℤ → ToolResult × ToolStatus → M Settled
  unfolding answer
  answer_run it call latency (res, status) = do
    settled ← answer call it.key res status latency
    checkpoint_step host
    pure settled

  unfoldable pub end_run : InstalledTool → ToolCall → Time → Result String ToolResult → M Settled
  unfolding outcome answer_run
  end_run it call start res = do
    end ← now host
    out ← outcome it call res
    answer_run it call (milliseconds (end -ℤ start)) out

  unfoldable pub call_run : InstalledTool → ToolCall → Time → Duration → M Settled
  unfolding call_tool end_run
  call_run it call start timeout = do res ← call_tool it call timeout; end_run it call start res

  -- The last part of the loop's body: the write-ahead, the call, its answer and the step.
  unfoldable pub run_call : InstalledTool → ToolCall → M Settled
  unfolding call_run
  run_call it call = do
    start ← now host
    s ← get_session
    checkpoint_tool_start host it call
    call_run it call start (effective_tool_timeout host.policy s.agent_id it.tool)

  abbrev pub touch_session : M (Unit {0})
  touch_session = do time ← now host; s ← get_session; set_session (record s { updated_at = time })

  unfoldable pub pause_call : ToolCall → M Settled
  unfolding record_tool_call
  pause_call call = do
    record_tool_call call ToolStatus.awaiting_confirmation
    touch_session
    pure paused

  unfoldable pub after_reply : InstalledTool → ToolCall → Reply → M Settled
  unfolding run_call answer pause_call
  after_reply it call pending = pause_call call
  after_reply it call (decided d) =
      if d.approve
      then run_call it call
      else answer call it.key (denied_result call.id ("operação negada: " ^^ d.reason))
          ToolStatus.denied (pos 0)

  unfoldable pub confirm_call : InstalledTool → ToolCall → M Settled
  unfolding request_confirmation after_reply
  confirm_call it call = do reply ← request_confirmation it call; after_reply it call reply

  -- After the policy has spoken.
  unfoldable pub decide_call : PolicyDecision → InstalledTool → ToolCall → M Settled
  unfolding confirm_call run_call answer
  decide_call decision it call =
      if not decision.allowed
      then answer call it.key (denied_result call.id (reason_words decision.reason))
          ToolStatus.denied (pos 0)
      else if decision.requires_confirmation
      then confirm_call it call
      else run_call it call

  -- After the validator of the tool, if it has one.
  unfoldable pub validated_call : Option String → InstalledTool → ToolCall → M Settled
  unfolding decide_call answer
  validated_call (some wrong) it call =
      answer call it.key (error_result call.id ("argumentos inválidos: " ^^ wrong)) ToolStatus.error
        (pos 0)
  validated_call none it call = do
    s ← get_session
    decide_call (authorize host.agents host.policy s.agent_id it.tool) it call

  unfoldable pub check_call : InstalledTool → ToolCall → M Settled
  unfolding validated_call
  check_call it call = do
    act (told_call call.id)
    validated_call (invalid_args it call.args) it call

  unfoldable pub settle_found : Option InstalledTool → ToolCall → M Settled
  unfolding check_call answer
  settle_found none call =
      answer call (call_lookup_name call)
        (error_result call.id ("tool desconhecida: " ^^ call.name)) ToolStatus.error (pos 0)
  settle_found (some it) call = check_call it call

  abbrev pub with_id : ToolCall → M ToolCall
  with_id call =
      if str_eq call.id ""
      then (do id ← fresh_id host; pure (record call { id = id }))
      else pure call

  -- The body of the loop over the calls.
  unfoldable pub settle_call : List InstalledTool → ToolCall → M Settled
  unfolding settle_found
  settle_call catalog call = do
    named ← with_id call
    settle_found (find_tool catalog (call_lookup_name named)) named

  -- The loop over the calls of a response; `true` where all calls were answered.
  unfoldable pub settle_calls :
      List InstalledTool → List ToolCall → M (List Message × List ToolExecution × Bool)
  unfolding settle_call
  settle_calls catalog [] = pure ([], [], true)
  settle_calls catalog (call ∷ calls) = do
    settled ← settle_call catalog call
    settle_rest (settle_calls catalog calls) settled

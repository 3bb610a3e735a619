-- ===== src/Turn/Recovery.antt =====
-- reconcileCheckpoint of checkpoint.go, and the resumption after a confirmation (loop.go, `resume`).
use ia_harness.Base.{
  Bool, true, false, ◌-ℤ◌, String, not, Option, none, some, List, if◌then◌else◌, Result, ok, failed,
}
use ia_harness.Core.Message.{ToolCall, ToolResult, PendingCall, Session}
use ia_harness.Core.Config.{ToolStatus, Decision}
use ia_harness.Policy.{effective_tool_timeout, ◌^^◌}
use ia_harness.Turn.Results.{error_result, denied_result}
use ia_harness.Turn.Machine.{
  Host, InstalledTool, M, pure, ◌>>=◌, ◌>>◌, get_session, act, told_result, now, milliseconds,
}
use ia_harness.Turn.Checkpoint.{
  with_checkpoint, checkpoint_step, checkpoint_tool_start, has_tool_result, find_tool_call,
}
use ia_harness.Turn.Calls.{
  Settled, call_lookup_name, find_tool, result_status, transport_error, call_tool, record_tool_call,
  append_message, outcome, answer,
}

abbrev pub ambiguous : String
ambiguous = "resultado ambíguo após interrupção: operação não reexecutada"

-- The tool and the call that may run again: the mark of the checkpoint allows it, and both are
-- still there.
unfoldable pub repeatable :
    List InstalledTool → Session → PendingCall → Option (InstalledTool × ToolCall)
repeatable catalog s pending = elim (find_tool catalog pending.tool) [
  | none ↦ none
  | some it ↦
      if pending.idempotent
      then elim (find_tool_call s pending.call_id) [ none ↦ none | some call ↦ some (it, call) ]
      else none
]

abbrev pub repeated_result : String → Result String ToolResult → ToolResult
repeated_result id (failed e) = error_result id transport_error
repeated_result id (ok res) = res

abbrev pub repeated_status : Result String ToolResult → ToolStatus
repeated_status (failed e) = ToolStatus.error
repeated_status (ok res) = if res.is_error then ToolStatus.error else ToolStatus.ok

module _ (host : Host) where
  unfoldable pub repeat_call : PendingCall → Option (InstalledTool × ToolCall) → M ToolResult
  repeat_call pending none = pure (error_result pending.call_id ambiguous)
  repeat_call pending (some (it, call)) = do
    s ← get_session
    res ← call_tool host it call (effective_tool_timeout host.policy s.agent_id it.tool)
    act (told_result call.id (result_status (repeated_result pending.call_id res)))
    record_tool_call host call (repeated_status res)
    pure (repeated_result pending.call_id res)

  -- `true` where the history holds a result of the call.
  unfoldable pub reconcile_found : Bool → List InstalledTool → PendingCall → Session → M (Unit {0})
  unfolding repeat_call
  reconcile_found true catalog pending s = checkpoint_step host
  reconcile_found false catalog pending s = do
    res ← repeat_call pending (repeatable catalog s pending)
    append_message host res
    checkpoint_step host

  unfoldable pub reconcile_pending : List InstalledTool → Option PendingCall → M (Unit {0})
  unfolding reconcile_found
  reconcile_pending catalog none = pure tt
  reconcile_pending catalog (some pending) = do
    s ← get_session
    reconcile_found (has_tool_result s pending.call_id) catalog pending s

  unfoldable pub reconcile_checkpoint : List InstalledTool → M (Unit {0})
  unfolding reconcile_pending
  reconcile_checkpoint catalog = with_checkpoint host λ c. reconcile_pending catalog c.pending_call

  abbrev pub refusal : Decision → String
  refusal d = "operação negada: " ^^ d.reason

  -- What the resumed call gives: the tool is gone, the human refused, or it runs.
  unfoldable pub resumed_result :
      Option InstalledTool → ToolCall → Decision → M (ToolResult × ToolStatus)
  resumed_result none call d =
      pure (error_result call.id "tool não está mais disponível", ToolStatus.error)
  resumed_result (some it) call d =
      if not d.approve then pure (denied_result call.id (refusal d), ToolStatus.denied) else (do
        s ← get_session
        checkpoint_tool_start host it call
        res ← call_tool host it call (effective_tool_timeout host.policy s.agent_id it.tool)
        outcome host it call res)

  unfoldable pub resume_call : List InstalledTool → ToolCall → Decision → M Settled
  unfolding resumed_result
  resume_call catalog call d = do
    start ← now host
    (res, status) ← resumed_result (find_tool catalog (call_lookup_name call)) call d
    end ← now host
    settled ← answer host call (call_lookup_name call) res status (milliseconds (end -ℤ start))
    checkpoint_step host
    pure settled

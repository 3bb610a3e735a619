-- ===== src/Turn/Checkpoint.antt =====
-- internal/engine/checkpoint.go, but for reconcileCheckpoint.
use ia_harness.Base.{
  pos, String, str_eq, Bool, true, false, not, ◌&&◌, ◌||◌, Option, none, some, List, [], ◌∷◌, add64,
  if◌then◌else◌,
}
use ia_harness.Core.Message.{
  CheckpointStatus, PendingCall, Part, Message, ToolCall, ToolResult, TurnCheckpoint, Session,
  is_tool_call, is_tool_result, PendingConfirmation,
}
use ia_harness.Core.Config.{Error, StopReason}
use ia_harness.Turn.Machine.{
  Host, InstalledTool, saved, save_failed, told_checkpoint, M, pure, fail, ◌>>=◌, ◌>>◌, get_session,
  set_session, act, history, now, fresh_id,
}

abbrev pub is_running : Option TurnCheckpoint → Bool
is_running none = false
is_running (some c) = elim c.status [ CheckpointStatus.running ↦ true | _ ↦ false ]

module _ (host : Host) where
  abbrev pub store_session : Option String → Session → M (Unit {0})
  store_session none s = act (saved s)
  store_session (some e) s = act save_failed >> fail (Error.port e)

  -- `SessionStore.Save`
  unfoldable pub save_session : M (Unit {0})
  save_session = do s ← get_session; before ← history; store_session (host.save before s) s

  -- The rest of the function where the turn has a checkpoint and the host wants it durable.
  abbrev pub with_checkpoint : (TurnCheckpoint → M (Unit {0})) → M (Unit {0})
  with_checkpoint k = do
    s ← get_session
    (if host.durable then elim s.checkpoint [ none ↦ pure tt | some c ↦ k c ] else pure tt)

  abbrev pub set_checkpoint : TurnCheckpoint → M (Unit {0})
  set_checkpoint c = do s ← get_session; set_session (record s { checkpoint = some c })

  abbrev pub save_refreshed : TurnCheckpoint → M (Unit {0})
  save_refreshed c = do
    time ← now host
    set_checkpoint (record c { updated_at = time })
    save_session
    act (told_checkpoint (record c { updated_at = time }))

  unfoldable pub save_checkpoint : M (Unit {0})
  unfolding save_session
  save_checkpoint = with_checkpoint save_refreshed

  unfoldable pub begin_checkpoint : M (Unit {0})
  unfolding save_checkpoint
  begin_checkpoint = do
    s ← get_session
    (if not host.durable || is_running s.checkpoint then pure tt else (do
      id ← fresh_id host
      set_checkpoint (record {
        turn_id = id;
        status = CheckpointStatus.running;
        step = pos 0;
        updated_at = pos 0;
        pending_call = none;
      })
      save_checkpoint))

  abbrev pub stepped : TurnCheckpoint → TurnCheckpoint
  stepped c = record c { step = add64 c.step (pos 1); pending_call = none }

  unfoldable pub checkpoint_step : M (Unit {0})
  unfolding save_checkpoint
  checkpoint_step = with_checkpoint λ c. do set_checkpoint (stepped c); save_checkpoint

  -- What a checkpoint says of a call that begins.
  abbrev pub pending_for : InstalledTool → ToolCall → PendingCall
  pending_for it call = record {
    call_id = call.id;
    tool = it.key;
    args_redacted = host.redact call.args;
    idempotent = it.tool.idempotent;
  }

  abbrev pub write_ahead : InstalledTool → ToolCall → TurnCheckpoint → M (Unit {0})
  write_ahead it call c = do
    set_checkpoint (record c { pending_call = some (pending_for it call) })
    save_checkpoint

  unfoldable pub checkpoint_tool_start : InstalledTool → ToolCall → M (Unit {0})
  unfolding save_checkpoint
  checkpoint_tool_start it call = with_checkpoint (write_ahead it call)

  abbrev pub final_status :
      Option PendingConfirmation → StopReason → CheckpointStatus → CheckpointStatus
  final_status (some pending) stop status = CheckpointStatus.awaiting_confirmation
  final_status none StopReason.cancelled status = status
  final_status none stop status = CheckpointStatus.completed

  unfoldable pub finish_checkpoint : StopReason → M (Unit {0})
  finish_checkpoint stop = with_checkpoint λ c. do
    s ← get_session
    time ← now host
    set_checkpoint (record c {
      pending_call = none;
      status = final_status s.pending stop c.status;
      updated_at = time;
    })

-- The loops from the newest message to the oldest, and from the first part to the last.
abbrev pub or_else : {A : Type 0} → Option A → Option A → Option A
or_else (some a) other = some a
or_else none other = other

abbrev pub result_of : String → Part → Option ToolResult
result_of id part = elim part.result [
  | none ↦ none
  | some r ↦ if is_tool_result part.kind && str_eq r.call_id id then some r else none
]

abbrev pub call_of : String → Part → Option ToolCall
call_of id part = elim part.call [
  | none ↦ none
  | some c ↦ if is_tool_call part.kind && str_eq c.id id then some c else none
]

unfoldable pub first_part : {A : Type 0} → (Part → Option A) → List Part → Option A
first_part f [] = none
first_part f (p ∷ ps) = or_else (f p) (first_part f ps)

unfoldable pub newest : {A : Type 0} → (Part → Option A) → List Message → Option A
unfolding first_part
newest f [] = none
newest f (m ∷ ms) = or_else (newest f ms) (first_part f m.parts)

unfoldable pub find_tool_result : Session → String → Option ToolResult
unfolding newest
find_tool_result s id = newest (result_of id) s.messages

unfoldable pub has_tool_result : Session → String → Bool
unfolding find_tool_result
has_tool_result s id = elim (find_tool_result s id) [ none ↦ false | some r ↦ true ]

-- Also `findPendingCall` of engine.go, which has the same body.
unfoldable pub find_tool_call : Session → String → Option ToolCall
unfolding newest
find_tool_call s id = newest (call_of id) s.messages

-- ===== src/Snapshot/Save.antt =====
-- SnapshotSession and the conversions that it calls.
use ia_harness.Base.{
  ℤ, pos, str_eq, not, Option, none, some, List, map, leb_ℤ, if◌then◌else◌, is_empty, Result,
  failed, ◌>>=◌, pure, ◌&&◌,
}
use ia_harness.Core.Message.{
  ToolCall, ResultContent, ToolResult, Media, Part, Message, PendingConfirmation, Usage,
  PendingCall, TurnCheckpoint, Session,
}
use ia_harness.Snapshot.Base64.{encode}
use ia_harness.Snapshot.Types.{
  GenToolCall, GenResultContent, GenToolResult, GenMedia, GenPart, GenMessage, GenPendingCall,
  GenCheckpoint, GenUsage, SessionSnapshot, SnapshotError, null_session, invalid_state,
  valid_session_state, optional_string, optional_text, optional_bool, optional_int, int64_to_int,
  raw_to_any,
}

module _ {J : Type 0} where
  unfoldable pub snapshot_tool_call : Option ToolCall → Option (GenToolCall J)
  snapshot_tool_call none = none
  snapshot_tool_call (some call) = some (record {
    id = call.id;
    name = call.name;
    namespace = call.namespace;
    args = raw_to_any call.args;
  })

  unfoldable pub snapshot_content : ResultContent → GenResultContent J
  snapshot_content item = record {
    kind = item.kind;
    text = optional_text item.text;
    json = raw_to_any item.json;
  }

  unfoldable pub snapshot_tool_result : Option ToolResult → Option (GenToolResult J)
  unfolding snapshot_content
  snapshot_tool_result none = none
  snapshot_tool_result (some result) = some (record {
    call_id = result.call_id;
    content = map snapshot_content result.content;
    is_error = optional_bool result.is_error;
    denied = optional_bool result.denied;
    truncated = optional_bool result.truncated;
  })

unfoldable pub snapshot_media : Option Media → Option GenMedia
snapshot_media none = none
snapshot_media (some media) = some (record {
  mime = media.mime;
  name = if not (str_eq media.name "") then optional_string media.name else none;
  size_bytes = media.size_bytes;
  bytes = if not (is_empty media.bytes) then optional_text (encode media.bytes) else none;
  reference = if not (str_eq media.reference "") then optional_string media.reference else none;
})

module _ {J : Type 0} where
  unfoldable pub snapshot_part : Part → GenPart J
  unfolding snapshot_tool_call snapshot_tool_result snapshot_media
  snapshot_part part = record {
    kind = part.kind;
    text = optional_text part.text;
    call = snapshot_tool_call part.call;
    result = snapshot_tool_result part.result;
    media = snapshot_media part.media;
  }

  unfoldable pub snapshot_parts : List Part → List (GenPart J)
  unfolding snapshot_part
  snapshot_parts parts = map snapshot_part parts

  unfoldable pub snapshot_message : Message → GenMessage J
  unfolding snapshot_parts
  snapshot_message message = record {
    id = message.id;
    role = message.role;
    parts = snapshot_parts message.parts;
    created_at = message.created_at;
  }

  unfoldable pub snapshot_messages : List Message → List (GenMessage J)
  unfolding snapshot_message
  snapshot_messages messages = map snapshot_message messages

unfoldable pub snapshot_pending : Option PendingConfirmation → Option PendingConfirmation
snapshot_pending none = none
snapshot_pending (some pending) = some (record {
  call_id = pending.call_id;
  tool_name = pending.tool_name;
  args_redacted = pending.args_redacted;
  reason = pending.reason;
  requested_at = pending.requested_at;
})

unfoldable pub snapshot_pending_call : Option PendingCall → Option GenPendingCall
snapshot_pending_call none = none
snapshot_pending_call (some call) = some (record {
  call_id = call.call_id;
  tool = call.tool;
  args_redacted = optional_string call.args_redacted;
  idempotent = optional_bool call.idempotent;
})

unfoldable pub snapshot_checkpoint : Option TurnCheckpoint → Option GenCheckpoint
unfolding snapshot_pending_call
snapshot_checkpoint none = none
snapshot_checkpoint (some checkpoint) = some (record {
  turn_id = checkpoint.turn_id;
  status = checkpoint.status;
  step = checkpoint.step;
  updated_at = checkpoint.updated_at;
  pending_call = snapshot_pending_call checkpoint.pending_call;
})

-- The cost is converted only where it is not zero.
unfoldable pub snapshot_cost : ℤ → Result SnapshotError (Option ℤ)
snapshot_cost cost =
    if leb_ℤ cost (pos 0) && leb_ℤ (pos 0) cost
    then pure none
    else (do converted ← int64_to_int "cost_micros" cost; pure (some converted))

unfoldable pub snapshot_usage : Usage → Result SnapshotError GenUsage
unfolding snapshot_cost
snapshot_usage usage = do
  input ← int64_to_int "input_tokens" usage.input_tokens
  output ← int64_to_int "output_tokens" usage.output_tokens
  cost ← snapshot_cost usage.cost_micros
  pure (record {
    input_tokens = input;
    output_tokens = output;
    estimated = usage.estimated;
    cost_micros = cost;
    currency = optional_string usage.currency;
    cached_input_tokens = optional_int usage.cached_input_tokens;
    cache_write_tokens = optional_int usage.cache_write_tokens;
  })

module _ {J : Type 0} where
  unfoldable pub snapshot_with : Session → GenUsage → SessionSnapshot J
  unfolding snapshot_messages
  snapshot_with s usage = record {
    id = s.id;
    user_id = s.user_id;
    agent_id = s.agent_id;
    model = s.model;
    state = s.state;
    messages = snapshot_messages s.messages;
    pending = snapshot_pending s.pending;
    usage = usage;
    created_at = s.created_at;
    updated_at = s.updated_at;
    checkpoint = snapshot_checkpoint s.checkpoint;
    parent_session_id = optional_string s.parent_session_id;
  }

  unfoldable pub snapshot_session : Option Session → Result SnapshotError (SessionSnapshot J)
  unfolding snapshot_with
  snapshot_session none = failed null_session
  snapshot_session (some s) =
      if not (valid_session_state s.state)
      then failed (invalid_state s.state)
      else (do usage ← snapshot_usage s.usage; pure (snapshot_with s usage))

-- ===== src/Snapshot/Restore.antt =====
-- RestoreSession and the conversions that it calls. A loop counts the index of its errors.
use ia_harness.Base.{
  ℕ, suc, pos, not, Option, none, some, List, [], ◌∷◌, if◌then◌else◌, is_empty, Result, ok, failed,
  ◌>>=◌, pure, at_place,
}
use ia_harness.Core.Message.{
  Bytes, ToolCall, ResultContent, ToolResult, Media, Part, Message, PendingConfirmation, Usage,
  PendingCall, TurnCheckpoint, Session,
}
use ia_harness.Snapshot.Base64.{decode}
use ia_harness.Snapshot.Types.{
  GenToolCall, GenResultContent, GenToolResult, GenMedia, GenPart, GenMessage, GenPendingCall,
  GenCheckpoint, GenUsage, SessionSnapshot, SnapshotError, invalid_state, invalid_base64,
  in_message, in_part, in_content, valid_session_state, string_value, text_value, bool_value,
  int64_value, any_to_raw,
}

unfoldable pub decoded : Option Bytes → Result SnapshotError Bytes
decoded none = ok []
decoded (some text) =
    if is_empty text
    then ok []
    else elim (decode text) [ none ↦ failed invalid_base64 | some bytes ↦ ok bytes ]

unfoldable pub restore_media : Option GenMedia → Result SnapshotError (Option Media)
unfolding decoded
restore_media none = pure none
restore_media (some media) = do
  bytes ← decoded media.bytes
  pure (
      some (record {
        mime = media.mime;
        name = string_value media.name;
        size_bytes = media.size_bytes;
        bytes = bytes;
        reference = string_value media.reference;
      }))

module _ {J : Type 0} (marshal : J → Option Bytes) where
  unfoldable pub restore_tool_call : Option (GenToolCall J) → Result SnapshotError (Option ToolCall)
  restore_tool_call none = pure none
  restore_tool_call (some call) = do
    args ← any_to_raw marshal call.args
    pure (some (record { id = call.id; name = call.name; namespace = call.namespace; args = args }))

  unfoldable pub restore_content :
      ℕ → List (GenResultContent J) → Result SnapshotError (List ResultContent)
  restore_content i [] = pure []
  restore_content i (item ∷ items) = do
    structured ← at_place (in_content (pos i)) (any_to_raw marshal item.json)
    rest ← restore_content (suc i) items
    pure (record { kind = item.kind; text = text_value item.text; json = structured } ∷ rest)

  unfoldable pub restore_tool_result :
      Option (GenToolResult J) → Result SnapshotError (Option ToolResult)
  unfolding restore_content
  restore_tool_result none = pure none
  restore_tool_result (some result) = do
    content ← restore_content 0 result.content
    pure (
        some (record {
          call_id = result.call_id;
          content = content;
          is_error = bool_value result.is_error;
          denied = bool_value result.denied;
          truncated = bool_value result.truncated;
        }))

  unfoldable pub restore_part : GenPart J → Result SnapshotError Part
  unfolding restore_tool_call restore_tool_result restore_media
  restore_part part = do
    call ← restore_tool_call part.call
    result ← restore_tool_result part.result
    media ← restore_media part.media
    pure (record {
      kind = part.kind;
      text = text_value part.text;
      call = call;
      result = result;
      media = media;
    })

  unfoldable pub restore_parts : ℕ → List (GenPart J) → Result SnapshotError (List Part)
  unfolding restore_part
  restore_parts i [] = pure []
  restore_parts i (part ∷ parts) = do
    restored ← at_place (in_part (pos i)) (restore_part part)
    rest ← restore_parts (suc i) parts
    pure (restored ∷ rest)

  unfoldable pub restore_messages : ℕ → List (GenMessage J) → Result SnapshotError (List Message)
  unfolding restore_parts
  restore_messages i [] = pure []
  restore_messages i (message ∷ messages) = do
    parts ← at_place (in_message (pos i)) (restore_parts 0 message.parts)
    rest ← restore_messages (suc i) messages
    pure (
        record {
          id = message.id;
          role = message.role;
          parts = parts;
          created_at = message.created_at;
        }
        ∷ rest)

unfoldable pub restore_pending : Option PendingConfirmation → Option PendingConfirmation
restore_pending none = none
restore_pending (some pending) = some (record {
  call_id = pending.call_id;
  tool_name = pending.tool_name;
  args_redacted = pending.args_redacted;
  reason = pending.reason;
  requested_at = pending.requested_at;
})

unfoldable pub restore_pending_call : Option GenPendingCall → Option PendingCall
restore_pending_call none = none
restore_pending_call (some call) = some (record {
  call_id = call.call_id;
  tool = call.tool;
  args_redacted = string_value call.args_redacted;
  idempotent = bool_value call.idempotent;
})

unfoldable pub restore_checkpoint : Option GenCheckpoint → Option TurnCheckpoint
unfolding restore_pending_call
restore_checkpoint none = none
restore_checkpoint (some checkpoint) = some (record {
  turn_id = checkpoint.turn_id;
  status = checkpoint.status;
  step = checkpoint.step;
  updated_at = checkpoint.updated_at;
  pending_call = restore_pending_call checkpoint.pending_call;
})

unfoldable pub restore_usage : GenUsage → Usage
restore_usage usage = record {
  input_tokens = usage.input_tokens;
  output_tokens = usage.output_tokens;
  estimated = usage.estimated;
  cost_micros = int64_value usage.cost_micros;
  currency = string_value usage.currency;
  cached_input_tokens = int64_value usage.cached_input_tokens;
  cache_write_tokens = int64_value usage.cache_write_tokens;
}

module _ {J : Type 0} (marshal : J → Option Bytes) where
  unfoldable pub restore_session : SessionSnapshot J → Result SnapshotError Session
  restore_session snap =
      if not (valid_session_state snap.state) then failed (invalid_state snap.state) else (do
        messages ← restore_messages marshal 0 snap.messages
        pure (record {
          id = snap.id;
          user_id = snap.user_id;
          agent_id = snap.agent_id;
          model = snap.model;
          state = snap.state;
          messages = messages;
          pending = restore_pending snap.pending;
          usage = restore_usage snap.usage;
          created_at = snap.created_at;
          updated_at = snap.updated_at;
          checkpoint = restore_checkpoint snap.checkpoint;
          parent_session_id = string_value snap.parent_session_id;
        }))

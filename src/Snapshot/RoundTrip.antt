-- ===== src/Snapshot/RoundTrip.antt =====
-- A session comes back from its snapshot.
use ia_harness.Base.{
  ℕ, suc, ℤ, pos, String, ◌≡◌, refl, true, false, Option, none, some, List, [], ◌∷◌, arith, ◌≤ℤ◌,
  IsInt64, ok, All, map, Bool-cases, inl, inr, is_empty, not, if◌then◌else◌, str_eq, eq_iff, leb_ℤ,
  ◌&&◌,
}
use ia_harness.Core.Message.{
  Bytes, ToolCall, ResultContent, ToolResult, Media, Part, Message, PendingConfirmation, Usage,
  TurnCheckpoint, Session, PendingCall,
}
use ia_harness.Snapshot.Base64.{encode, IsBytes}
use ia_harness.Snapshot.Base64.RoundTrip.{decode-encode}
use ia_harness.Snapshot.Types.{
  valid_session_state, SessionSnapshot, optional_text, optional_string, string_value, GenUsage,
  int64_value, int64_to_int, optional_int,
}
use ia_harness.Snapshot.Save.{
  snapshot_tool_call, snapshot_content, snapshot_tool_result, snapshot_media, snapshot_part,
  snapshot_parts, snapshot_message, snapshot_messages, snapshot_pending, snapshot_pending_call,
  snapshot_checkpoint, snapshot_cost, snapshot_usage, snapshot_with, snapshot_session,
}
use ia_harness.Snapshot.Restore.{
  decoded, restore_media, restore_tool_call, restore_content, restore_tool_result, restore_part,
  restore_parts, restore_messages, restore_pending, restore_pending_call, restore_checkpoint,
  restore_usage, restore_session,
}
use ia_harness.Snapshot.Fields.{
  IsKept, string_value-optional_string, text_value-optional_text, bool_value-optional_bool,
  int64_value-optional_int, int64_to_int-ok, any_to_raw-raw_to_any,
}

abbrev pub IsKeptCall : Option ToolCall → Type 0
IsKeptCall none = Unit
IsKeptCall (some call) = IsKept call.args

abbrev pub IsKeptResult : Option ToolResult → Type 0
IsKeptResult none = Unit
IsKeptResult (some result) = All (λ item. IsKept item.json) result.content

abbrev pub IsKeptMedia : Option Media → Type 0
IsKeptMedia none = Unit
IsKeptMedia (some media) = IsBytes media.bytes

abbrev pub IsKeptPart : Part → Type 0
IsKeptPart part = IsKeptCall part.call × IsKeptResult part.result × IsKeptMedia part.media

abbrev pub IsKeptUsage : Usage → Type 0
IsKeptUsage usage =
    IsInt64 usage.input_tokens
    × IsInt64 usage.output_tokens
    × IsInt64 usage.cost_micros
    × IsInt64 usage.cached_input_tokens
    × (pos 0 ≤ℤ usage.cached_input_tokens)
    × IsInt64 usage.cache_write_tokens
    × (pos 0 ≤ℤ usage.cache_write_tokens)

-- Sessions that lose nothing: a state of the contract, no JSON payload that is present but empty,
-- counters in range, and no negative count of cached tokens.
abbrev pub IsKeptSession : Session → Type 0
IsKeptSession s =
    (valid_session_state s.state ≡ true)
    × All (λ m. All IsKeptPart m.parts) s.messages
    × IsKeptUsage s.usage

encode-is_empty : (b : ℕ) (bs : Bytes) → is_empty (encode (b ∷ bs)) ≡ false
unfolding encode
encode-is_empty a [] = refl
encode-is_empty a (b ∷ []) = refl
encode-is_empty a (b ∷ c ∷ rest) = refl

decoded-encode :
    (b : Bytes)
    → IsBytes b
    → decoded (if not (is_empty b) then optional_text (encode b) else none) ≡ ok b
unfolding decoded optional_text
decoded-encode [] h = refl
decoded-encode (b ∷ bs) h =
    rw (encode-is_empty b bs, encode-is_empty b bs, decode-encode (b ∷ bs) h)

unless_empty :
    (v : String) → string_value (if not (str_eq v "") then optional_string v else none) ≡ v
unfolding string_value optional_string
unless_empty v = ground (arith, eq_iff v "")

restore_media-snapshot_media :
    (media : Option Media) → IsKeptMedia media → restore_media (snapshot_media media) ≡ ok media
unfolding restore_media snapshot_media
restore_media-snapshot_media none h = refl
restore_media-snapshot_media (some media) h =
    rw (decoded-encode media.bytes h, unless_empty media.name, unless_empty media.reference)

restore_pending-snapshot_pending :
    (pending : Option PendingConfirmation) → restore_pending (snapshot_pending pending) ≡ pending
unfolding restore_pending snapshot_pending
restore_pending-snapshot_pending none = refl
restore_pending-snapshot_pending (some pending) = refl

pending_call_back :
    (call : Option PendingCall) → restore_pending_call (snapshot_pending_call call) ≡ call
unfolding restore_pending_call snapshot_pending_call
pending_call_back none = refl
pending_call_back (some call) =
    rw (string_value-optional_string call.args_redacted, bool_value-optional_bool call.idempotent)

restore_checkpoint-snapshot_checkpoint :
    (checkpoint : Option TurnCheckpoint)
    → restore_checkpoint (snapshot_checkpoint checkpoint) ≡ checkpoint
unfolding restore_checkpoint snapshot_checkpoint
restore_checkpoint-snapshot_checkpoint none = refl
restore_checkpoint-snapshot_checkpoint (some checkpoint) =
    rw (pending_call_back checkpoint.pending_call)

pub cost_back :
    (cost : ℤ)
    → IsInt64 cost
    → (saved : Option ℤ) × (snapshot_cost cost ≡ ok saved) × (int64_value saved ≡ cost)
unfolding snapshot_cost int64_value int64_to_int
cost_back cost range = elim (Bool-cases (leb_ℤ cost (pos 0) && leb_ℤ (pos 0) cost)) [
  | inl zero ↦ (none, ground arith, ground arith)
  | inr other ↦ (some cost, ground arith, refl)
]

usage_back :
    (usage : Usage)
    → IsKeptUsage usage
    → (saved : GenUsage) × (snapshot_usage usage ≡ ok saved) × (restore_usage saved ≡ usage)
unfolding snapshot_usage restore_usage
usage_back usage (input, output, cost, cached, cached_pos, written, written_pos) =
    let (saved, e, back) = cost_back usage.cost_micros cost in
    (
      record {
        input_tokens = usage.input_tokens;
        output_tokens = usage.output_tokens;
        estimated = usage.estimated;
        cost_micros = saved;
        currency = optional_string usage.currency;
        cached_input_tokens = optional_int usage.cached_input_tokens;
        cache_write_tokens = optional_int usage.cache_write_tokens;
      },
      rw (
        int64_to_int-ok _ usage.input_tokens input,
        int64_to_int-ok _ usage.output_tokens output,
        e,
      ),
      rw (
        back,
        string_value-optional_string usage.currency,
        int64_value-optional_int usage.cached_input_tokens cached_pos cached,
        int64_value-optional_int usage.cache_write_tokens written_pos written,
      ),
    )

module _ {J : Type 0} (marshal : J → Option Bytes) where
  restore_tool_call-snapshot_tool_call :
      (call : Option ToolCall)
      → IsKeptCall call
      → restore_tool_call marshal (snapshot_tool_call call) ≡ ok call
  unfolding restore_tool_call snapshot_tool_call
  restore_tool_call-snapshot_tool_call none h = refl
  restore_tool_call-snapshot_tool_call (some call) h =
      rw (any_to_raw-raw_to_any marshal call.args h)

  restore_content-snapshot_content :
      (i : ℕ) (items : List ResultContent)
      → All (λ item. IsKept item.json) items
      → restore_content marshal i (map snapshot_content items) ≡ ok items
  unfolding restore_content snapshot_content
  restore_content-snapshot_content i [] h = refl
  restore_content-snapshot_content i (item ∷ items) h = rw (
    any_to_raw-raw_to_any marshal item.json h.0,
    restore_content-snapshot_content (suc i) items h.1,
    text_value-optional_text item.text,
  )

  restore_tool_result-snapshot_tool_result :
      (result : Option ToolResult)
      → IsKeptResult result
      → restore_tool_result marshal (snapshot_tool_result result) ≡ ok result
  unfolding restore_tool_result snapshot_tool_result
  restore_tool_result-snapshot_tool_result none h = refl
  restore_tool_result-snapshot_tool_result (some result) h = rw (
    restore_content-snapshot_content 0 result.content h,
    bool_value-optional_bool result.is_error,
    bool_value-optional_bool result.denied,
    bool_value-optional_bool result.truncated,
  )

  restore_part-snapshot_part :
      (part : Part) → IsKeptPart part → restore_part marshal (snapshot_part part) ≡ ok part
  unfolding restore_part snapshot_part
  restore_part-snapshot_part part h = rw (
    restore_tool_call-snapshot_tool_call part.call h.0,
    restore_tool_result-snapshot_tool_result part.result h.1,
    restore_media-snapshot_media part.media h.2,
    text_value-optional_text part.text,
  )

  restore_parts-snapshot_parts :
      (i : ℕ) (parts : List Part)
      → All IsKeptPart parts
      → restore_parts marshal i (snapshot_parts parts) ≡ ok parts
  unfolding restore_parts snapshot_parts
  restore_parts-snapshot_parts i [] h = refl
  restore_parts-snapshot_parts i (part ∷ parts) h =
      rw (restore_part-snapshot_part part h.0, restore_parts-snapshot_parts (suc i) parts h.1)

  restore_messages-snapshot_messages :
      (i : ℕ) (messages : List Message)
      → All (λ m. All IsKeptPart m.parts) messages
      → restore_messages marshal i (snapshot_messages messages) ≡ ok messages
  unfolding restore_messages snapshot_messages snapshot_message
  restore_messages-snapshot_messages i [] h = refl
  restore_messages-snapshot_messages i (message ∷ messages) h = rw (
    restore_parts-snapshot_parts 0 message.parts h.0,
    restore_messages-snapshot_messages (suc i) messages h.1,
  )

  -- A session that keeps to the contract has a snapshot, and the snapshot restores that very
  -- session: messages, tool calls and results, media, usage, checkpoint and pending confirmation.
  pub restore_session-snapshot_session :
      (s : Session)
      → IsKeptSession s
      → (snap : SessionSnapshot J) × (snapshot_session (some s) ≡ ok snap)
        × (restore_session marshal snap ≡ ok s)
  unfolding snapshot_session snapshot_with restore_session
  restore_session-snapshot_session s (state, messages, usage) =
      let (saved, e, back) = usage_back s.usage usage in
      (
        snapshot_with s saved,
        rw (state, e),
        rw (
          state,
          restore_messages-snapshot_messages 0 s.messages messages,
          restore_pending-snapshot_pending s.pending,
          back,
          restore_checkpoint-snapshot_checkpoint s.checkpoint,
          string_value-optional_string s.parent_session_id,
        ),
      )

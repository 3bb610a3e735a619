-- ===== src/Core/Message.antt =====
-- The canonical history (internal/core/session.go): messages, parts, sessions, checkpoints.
-- Identifiers, names and MIME types are `String`; payloads, whose bytes the program counts and
-- cuts, are lists of bytes. An instant or a duration is its count of nanoseconds.
use ia_harness.Base.{ℕ, ℤ, pos, String, Bool, true, false, Option, none, List}

abbrev pub Bytes : Type 0
Bytes = List ℕ

abbrev pub Time : Type 0
Time = ℤ

abbrev pub Duration : Type 0
Duration = ℤ

-- A Go string type: the named constants, and any other text (also the empty one).
pub data Role : Type 0 where
  system user assistant tool : Role
  other : String → Role

pub data PartKind : Type 0 where
  text tool_call tool_result image document : PartKind
  other : String → PartKind

pub record Media : Type 0 where
  pub mime : String
  pub name : String
  pub size_bytes : ℤ
  pub bytes : Bytes
  pub reference : String

-- A nil `json.RawMessage` and an empty one are both told apart and kept.
pub record ToolCall : Type 0 where
  pub id : String
  pub name : String
  pub namespace : String
  pub args : Option Bytes

pub data ResultContentKind : Type 0 where
  text json : ResultContentKind
  other : String → ResultContentKind

pub record ResultContent : Type 0 where
  pub kind : ResultContentKind
  pub text : Bytes
  pub json : Option Bytes

pub record ToolResult : Type 0 where
  pub call_id : String
  pub content : List ResultContent
  pub is_error : Bool
  pub denied : Bool
  pub truncated : Bool

pub record Part : Type 0 where
  pub kind : PartKind
  pub text : Bytes
  pub call : Option ToolCall
  pub result : Option ToolResult
  pub media : Option Media

pub record Message : Type 0 where
  pub id : String
  pub role : Role
  pub parts : List Part
  pub created_at : Time

pub data SessionState : Type 0 where
  active awaiting_confirmation closed : SessionState
  other : String → SessionState

pub record PendingConfirmation : Type 0 where
  pub call_id : String
  pub tool_name : String
  pub args_redacted : String
  pub reason : String
  pub requested_at : Time

pub record Usage : Type 0 where
  pub input_tokens : ℤ
  pub output_tokens : ℤ
  pub estimated : Bool
  pub cost_micros : ℤ
  pub currency : String
  pub cached_input_tokens : ℤ
  pub cache_write_tokens : ℤ

abbrev pub no_usage : Usage
no_usage = record {
  input_tokens = pos 0;
  output_tokens = pos 0;
  estimated = false;
  cost_micros = pos 0;
  currency = "";
  cached_input_tokens = pos 0;
  cache_write_tokens = pos 0;
}

pub data CheckpointStatus : Type 0 where
  running awaiting_confirmation completed : CheckpointStatus
  other : String → CheckpointStatus

pub record PendingCall : Type 0 where
  pub call_id : String
  pub tool : String
  pub args_redacted : String
  pub idempotent : Bool

pub record TurnCheckpoint : Type 0 where
  pub turn_id : String
  pub status : CheckpointStatus
  pub step : ℤ
  pub updated_at : Time
  pub pending_call : Option PendingCall

pub record Session : Type 0 where
  pub id : String
  pub user_id : String
  pub agent_id : String
  pub model : String
  pub state : SessionState
  pub messages : List Message
  pub pending : Option PendingConfirmation
  pub usage : Usage
  pub created_at : Time
  pub updated_at : Time
  pub checkpoint : Option TurnCheckpoint
  pub parent_session_id : String

-- `role == RoleSystem`, and the tests on the kind of a part.
abbrev pub is_system : Role → Bool
is_system Role.system = true
is_system _ = false

abbrev pub is_text : PartKind → Bool
is_text PartKind.text = true
is_text _ = false

abbrev pub is_tool_call : PartKind → Bool
is_tool_call PartKind.tool_call = true
is_tool_call _ = false

abbrev pub is_tool_result : PartKind → Bool
is_tool_result PartKind.tool_result = true
is_tool_result _ = false

abbrev pub text_part : Bytes → Part
text_part t = record { kind = PartKind.text; text = t; call = none; result = none; media = none }

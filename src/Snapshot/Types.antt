-- ===== src/Snapshot/Types.antt =====
-- The session snapshot of contracts/gen/session.go, which the host's store persists, and the
-- fields that it may omit. `J` is the type of the host's other JSON values.
use ia_harness.Base.{
  ℤ, pos, String, str_eq, Bool, true, false, not, Option, none, some, List, [], ◌∷◌, leb_ℤ, ltb_ℤ,
  max_int64, if◌then◌else◌, is_empty, negsuc, ◌-◌, ◌^◌, ◌||◌, Result, ok, failed,
}
use ia_harness.Core.Message.{
  Bytes, Time, Role, PartKind, ResultContentKind, SessionState, CheckpointStatus,
  PendingConfirmation,
}

-- A value of the interface type: nil, the two kinds of raw bytes, or any other value.
pub data Dynamic (J : Type 0) : Type 0 where
  nil : Dynamic J
  raw_message bytes : Option Bytes → Dynamic J
  other : J → Dynamic J

pub record GenToolCall (J : Type 0) : Type 0 where
  pub id : String
  pub name : String
  pub namespace : String
  pub args : Dynamic J

pub record GenResultContent (J : Type 0) : Type 0 where
  pub kind : ResultContentKind
  pub text : Option Bytes
  pub json : Dynamic J

pub record GenToolResult (J : Type 0) : Type 0 where
  pub call_id : String
  pub content : List (GenResultContent J)
  pub is_error : Option Bool
  pub denied : Option Bool
  pub truncated : Option Bool

pub record GenMedia : Type 0 where
  pub mime : String
  pub name : Option String
  pub size_bytes : ℤ
  pub bytes : Option Bytes
  pub reference : Option String

pub record GenPart (J : Type 0) : Type 0 where
  pub kind : PartKind
  pub text : Option Bytes
  pub call : Option (GenToolCall J)
  pub result : Option (GenToolResult J)
  pub media : Option GenMedia

pub record GenMessage (J : Type 0) : Type 0 where
  pub id : String
  pub role : Role
  pub parts : List (GenPart J)
  pub created_at : Time

pub record GenPendingCall : Type 0 where
  pub call_id : String
  pub tool : String
  pub args_redacted : Option String
  pub idempotent : Option Bool

pub record GenCheckpoint : Type 0 where
  pub turn_id : String
  pub status : CheckpointStatus
  pub step : ℤ
  pub updated_at : Time
  pub pending_call : Option GenPendingCall

pub record GenUsage : Type 0 where
  pub input_tokens : ℤ
  pub output_tokens : ℤ
  pub estimated : Bool
  pub cost_micros : Option ℤ
  pub currency : Option String
  pub cached_input_tokens : Option ℤ
  pub cache_write_tokens : Option ℤ

-- `gen.PendingConfirmation` has the fields of the canonical type.
pub record SessionSnapshot (J : Type 0) : Type 0 where
  pub id : String
  pub user_id : String
  pub agent_id : String
  pub model : String
  pub state : SessionState
  pub messages : List (GenMessage J)
  pub pending : Option PendingConfirmation
  pub usage : GenUsage
  pub created_at : Time
  pub updated_at : Time
  pub checkpoint : Option GenCheckpoint
  pub parent_session_id : Option String

-- The errors of both directions, with the places that wrap them.
pub data SnapshotError : Type 0 where
  null_session invalid_payload invalid_base64 : SnapshotError
  invalid_state : SessionState → SnapshotError
  out_of_range : String → ℤ → SnapshotError
  in_message in_part in_content : ℤ → SnapshotError → SnapshotError

unfoldable pub valid_session_state : SessionState → Bool
valid_session_state SessionState.active = true
valid_session_state SessionState.awaiting_confirmation = true
valid_session_state SessionState.closed = true
valid_session_state _ = false

-- `optionalString` on a name, and on a text that is a list of bytes.
unfoldable pub optional_string : String → Option String
optional_string value = if str_eq value "" then none else some value

unfoldable pub optional_text : Bytes → Option Bytes
optional_text value = if is_empty value then none else some value

unfoldable pub string_value : Option String → String
string_value none = ""
string_value (some value) = value

unfoldable pub text_value : Option Bytes → Bytes
text_value none = []
text_value (some value) = value

unfoldable pub optional_bool : Bool → Option Bool
optional_bool value = if not value then none else some value

unfoldable pub bool_value : Option Bool → Bool
bool_value none = false
bool_value (some value) = value

-- An int has 64 bits.
abbrev pub max_int : ℤ
max_int = pos max_int64

abbrev pub min_int : ℤ
min_int = negsuc (2 ^ 63 - 1)

unfoldable pub optional_int : ℤ → Option ℤ
optional_int value =
    if leb_ℤ value (pos 0) then none else if ltb_ℤ max_int value then some max_int else some value

unfoldable pub int64_value : Option ℤ → ℤ
int64_value none = pos 0
int64_value (some value) = value

unfoldable pub int64_to_int : String → ℤ → Result SnapshotError ℤ
int64_to_int field value =
    if ltb_ℤ max_int value || ltb_ℤ value min_int
    then failed (out_of_range field value)
    else ok value

-- `append(json.RawMessage(nil), raw...)`: a copy of no bytes is nil.
unfoldable pub copy_raw : Option Bytes → Option Bytes
copy_raw none = none
copy_raw (some []) = none
copy_raw (some (b ∷ bs)) = some (b ∷ bs)

unfoldable pub raw_to_any : {J : Type 0} → Option Bytes → Dynamic J
unfolding copy_raw
raw_to_any none = nil
raw_to_any (some raw) = raw_message (copy_raw (some raw))

-- The marshaller of the other values belongs to them.
unfoldable pub any_to_raw :
    {J : Type 0} → (J → Option Bytes) → Dynamic J → Result SnapshotError (Option Bytes)
unfolding copy_raw
any_to_raw marshal nil = ok none
any_to_raw marshal (raw_message raw) = ok (copy_raw raw)
any_to_raw marshal (bytes raw) = ok (copy_raw raw)
any_to_raw marshal (other value) = elim (marshal value) [
  | none ↦ failed invalid_payload
  | some raw ↦ ok (some raw)
]

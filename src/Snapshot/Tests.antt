-- ===== src/Snapshot/Tests.antt =====
-- A session with a call, its media and a checkpoint, and its snapshot.
use ia_harness.Base.{
  pos, ◌≡◌, refl, ◌↔◌, true, false, none, some, [], ◌∷◌, arith, ok, length, Option,
}
use ia_harness.Core.Message.{
  Bytes, Role, PartKind, CheckpointStatus, SessionState, Part, Session, no_usage,
}
use ia_harness.Snapshot.Types.{SessionSnapshot, valid_session_state, int64_value, string_value}
use ia_harness.Snapshot.Base64.{encode, digit, IsBytes}
use ia_harness.Snapshot.Save.{snapshot_session}
use ia_harness.Snapshot.Restore.{
  restore_session, restore_messages, restore_parts, restore_usage, restore_pending,
  restore_checkpoint,
}
use ia_harness.Snapshot.RoundTrip.{IsKeptSession, restore_session-snapshot_session}
use ia_harness.Snapshot.Errors.{snapshot_session-ok_iff, restore_session-keeps}

abbrev word : Bytes
word = b'h' ∷ b'i' ∷ b'!' ∷ b'?' ∷ []

encoded : encode word ≡ b'a' ∷ b'G' ∷ b'k' ∷ b'h' ∷ b'P' ∷ b'w' ∷ b'=' ∷ b'=' ∷ []
unfolding encode digit
encoded = refl

word-IsBytes : IsBytes word
word-IsBytes = (omega arith, (omega arith, (omega arith, (omega arith, tt))))

abbrev picture : Part
picture = record {
  kind = PartKind.image;
  text = [];
  call = some (record { id = "c"; name = "pay"; namespace = ""; args = some word });
  result = none;
  media = some (record {
    mime = "image/png";
    name = "a.png";
    size_bytes = pos 4;
    bytes = word;
    reference = "";
  });
}

abbrev session : SessionState → Session
session state = record {
  id = "s";
  user_id = "u";
  agent_id = "chat";
  model = "gpt";
  state = state;
  messages = record { id = "m"; role = Role.user; parts = picture ∷ []; created_at = pos 7 } ∷ [];
  pending = none;
  usage = record no_usage { input_tokens = pos 12; cost_micros = pos 3; currency = "BRL" };
  created_at = pos 1;
  updated_at = pos 2;
  checkpoint = some (record {
    turn_id = "t";
    status = CheckpointStatus.running;
    step = pos 3;
    updated_at = pos 2;
    pending_call =
        some (record { call_id = "c"; tool = "pay"; args_redacted = ""; idempotent = true });
  });
  parent_session_id = "";
}

abbrev no_values : ⊥ → Option Bytes
no_values v = none

session-IsKeptSession : IsKeptSession (session SessionState.active)
unfolding valid_session_state
session-IsKeptSession = (
  refl,
  (((tt, tt, word-IsBytes), tt), tt),
  (
    (omega arith, omega arith),
    (omega arith, omega arith),
    (omega arith, omega arith),
    (omega arith, omega arith),
    omega arith,
    (omega arith, omega arith),
    omega arith,
  ),
)

restore_session-snapshot_session_example :
    (snap : SessionSnapshot ⊥) × (snapshot_session (some (session SessionState.active)) ≡ ok snap)
    × (restore_session no_values snap ≡ ok (session SessionState.active))
restore_session-snapshot_session_example =
    restore_session-snapshot_session no_values (session SessionState.active) session-IsKeptSession

-- A snapshot as an older version wrote it, without the fields that may be omitted.
abbrev old_snapshot : SessionSnapshot ⊥
old_snapshot = record {
  id = "s";
  user_id = "u";
  agent_id = "chat";
  model = "gpt";
  state = SessionState.closed;
  messages = record { id = "m"; role = Role.user; parts = []; created_at = pos 7 } ∷ [];
  pending = none;
  usage = record {
    input_tokens = pos 1;
    output_tokens = pos 2;
    estimated = false;
    cost_micros = none;
    currency = none;
    cached_input_tokens = none;
    cache_write_tokens = none;
  };
  created_at = pos 1;
  updated_at = pos 2;
  checkpoint = none;
  parent_session_id = none;
}

abbrev old_session : Session
old_session = record {
  id = "s";
  user_id = "u";
  agent_id = "chat";
  model = "gpt";
  state = SessionState.closed;
  messages = record { id = "m"; role = Role.user; parts = []; created_at = pos 7 } ∷ [];
  pending = none;
  usage = record no_usage { input_tokens = pos 1; output_tokens = pos 2 };
  created_at = pos 1;
  updated_at = pos 2;
  checkpoint = none;
  parent_session_id = "";
}

restore_session-keeps_example :
    (valid_session_state SessionState.closed ≡ true)
    × (1 ≡ length old_snapshot.messages)
    × (old_session.id ≡ "s")
    × (old_session.user_id ≡ "u")
unfolding restore_session restore_messages restore_parts restore_usage restore_pending
    restore_checkpoint int64_value string_value valid_session_state
restore_session-keeps_example = restore_session-keeps no_values old_snapshot old_session refl

snapshot_session-ok_iff_example :
    ((snap : SessionSnapshot ⊥) × (snapshot_session (some (session (SessionState.other "lost")))
        ≡ ok snap))
    ↔ (valid_session_state (SessionState.other "lost") ≡ true)
snapshot_session-ok_iff_example =
    snapshot_session-ok_iff (session (SessionState.other "lost")) (omega arith, omega arith)
      (omega arith, omega arith) (omega arith, omega arith)

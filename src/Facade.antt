-- ===== src/Facade.antt =====
-- internal/engine/engine.go: what Run and ResolveConfirmation let in before they start a turn, and
-- the runs.
pub mod Admission
pub mod Entry
pub mod History
pub mod Outcome
pub mod Running
pub mod Child
mod RunningTests
mod Tests
use ia_harness.Base.{
  String, str_eq, Bool, true, false, not, ◌&&◌, ◌||◌, Option, none, some, List, [], Assoc, lookup,
  if◌then◌else◌, Result, ok, failed, ◌>>=◌, pure,
}
use ia_harness.Core.Message.{
  Time, SessionState, CheckpointStatus, Part, ToolCall, TurnCheckpoint, PendingConfirmation,
  Session, no_usage,
}
use ia_harness.Core.Config.{ModelProfile, RunRequest, Error}
use ia_harness.Turn.Checkpoint.{is_running, find_tool_call}
use ia_harness.Turn.Machine.{Host}

-- The models and the store of the configuration, and what the clock and the generator of ids gave.
pub record Desk : Type 0 where
  pub models : Assoc ModelProfile
  pub default_model : String
  pub load : String → Result String Session
  pub now : Time
  pub fresh_id : String

abbrev pub or_default : String → String → String
or_default value default = if str_eq value "" then default else value

unfoldable pub adopt : RunRequest → Session → Result Error Session
adopt req s =
    if not (str_eq s.user_id req.user_id)
    then failed (Error.config "run/sessao-de-outro-usuario")
    else ok (record s {
      agent_id = or_default req.agent_id s.agent_id;
      model = or_default req.model s.model;
      parent_session_id = or_default req.parent_session_id s.parent_session_id;
    })

abbrev pub new_session : Desk → RunRequest → String → Session
new_session desk req model = record {
  id = desk.fresh_id;
  user_id = req.user_id;
  agent_id = req.agent_id;
  model = model;
  state = SessionState.active;
  messages = [];
  pending = none;
  usage = no_usage;
  created_at = desk.now;
  updated_at = desk.now;
  checkpoint = none;
  parent_session_id = req.parent_session_id;
}

unfoldable pub create : Desk → RunRequest → String → Result Error Session
create desk req model =
    if str_eq model ""
    then failed (Error.config "run/modelo-ausente")
    else elim (lookup model desk.models) [
      | none ↦ failed (Error.config "run/modelo-desconhecido")
      | some profile ↦ ok (new_session desk req model)
    ]

unfoldable pub load_or_create_session : Desk → RunRequest → Result Error Session
unfolding adopt create
load_or_create_session desk req =
    if not (str_eq req.session_id "")
    then elim (desk.load req.session_id) [ failed e ↦ failed (Error.port e) | ok s ↦ adopt req s ]
    else create desk req (or_default req.model desk.default_model)

abbrev pub awaits : SessionState → Bool
awaits SessionState.awaiting_confirmation = true
awaits _ = false

-- What a run starts with: its session, its input, and whether it resumes a turn.
pub record Start : Type 0 where
  pub session : Session
  pub input : List Part
  pub resumed : Bool

-- The part of `Run` before the turn.
unfoldable pub admit_run : Bool → Desk → RunRequest → Result Error Start
unfolding load_or_create_session
admit_run durable desk req =
    if str_eq req.user_id "" then failed (Error.config "run/user-obrigatorio") else (do
      s ← load_or_create_session desk req
      (if awaits s.state
          then failed (Error.config "run/confirmacao-pendente")
          else (let resumed = durable && is_running s.checkpoint in
              ok (record {
                session = s;
                input = if resumed then [] else req.input;
                resumed = resumed;
              }))))

abbrev pub is_pending : String → Option PendingConfirmation → Bool
is_pending id none = false
is_pending id (some p) = str_eq p.call_id id

abbrev pub running_again : TurnCheckpoint → TurnCheckpoint
running_again c = record c { status = CheckpointStatus.running; pending_call = none }

abbrev pub reopened : Bool → Option TurnCheckpoint → Option TurnCheckpoint
reopened durable none = none
reopened true (some c) = some (running_again c)
reopened false (some c) = some c

unfoldable pub reopen : Bool → Session → Session
reopen durable s = record s {
  pending = none;
  state = SessionState.active;
  checkpoint = reopened durable s.checkpoint;
}

-- The part of `ResolveConfirmation` before the turn: the session and the call to resume.
unfoldable pub admit_resolution : Bool → Desk → String → String → Result Error (Session × ToolCall)
unfolding reopen
admit_resolution durable desk session_id call_id =
    if str_eq session_id "" || str_eq call_id ""
    then failed (Error.config "confirmacao/parametros")
    else elim (desk.load session_id) [
      | failed e ↦ failed (Error.port e)
      | ok s ↦
          if not (awaits s.state && is_pending call_id s.pending)
          then failed (Error.config "confirmacao/pendencia-inexistente")
          else elim (find_tool_call s call_id) [
            | none ↦ failed (Error.config "confirmacao/chamada-nao-encontrada")
            | some call ↦ ok (reopen durable s, call)
          ]
    ]

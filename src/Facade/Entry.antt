-- ===== src/Facade/Entry.antt =====
-- internal/engine/engine.go: Run, ResolveConfirmation, Session, Close and RunSubAgent around the
-- turn that they start. The spans of the tracer are left out.
use ia_harness.Base.{
  ℤ, pos, String, str_eq, Bool, Option, none, some, List, [], ◌∷◌, lookup, Result, ok, failed,
  if◌then◌else◌,
}
use ia_harness.Core.Message.{Part, SessionState, Session, ToolCall}
use ia_harness.Core.Config.{AgentSpec, Decision, Error, RunRequest, StopReason, TurnResult}
use ia_harness.Agents.{SubAgentRequest, no_budget}
use ia_harness.Turn.Machine.{World, M, pure, ◌>>=◌, ◌>>◌}
use ia_harness.Turn.Checkpoint.{save_session, finish_checkpoint}
use ia_harness.Turn.Engine.{Engine}
use ia_harness.Turn.Begin.{run_turn}
use ia_harness.Facade.{Desk, Start, admit_run, admit_resolution, or_default}

-- Nothing of a turn has happened yet.
abbrev pub opening : Session → World
opening s = record { session = s; trace = []; ticks = 0; ids = 0 }

-- What an entry gives: an error before any turn, or a turn with what it left behind. A result
-- without a value is a turn that its loop's fuel cut off.
pub data Entry (A : Type 0) : Type 0 where
  turned_away : Error → Entry A
  entered : Result Error A → World → Entry A

abbrev pub enter : {A : Type 0} → Result Error A × World → Entry A
enter (r, w) = entered r w

module _ (e : Engine) where
  -- The session is saved in the state that the turn left it in.
  unfoldable pub close_run : Bool → Option TurnResult → M (Option TurnResult)
  unfolding finish_checkpoint save_session
  close_run resumed none = pure none
  close_run resumed (some r) = do
    finish_checkpoint e.host r.stop_reason
    save_session e.host
    pure (some (record r { resumed = resumed }))

  unfoldable pub run_started : RunRequest → Start → M (Option TurnResult)
  unfolding close_run
  run_started req start = do
    result ← run_turn e (record req { input = start.input }) none
    close_run start.resumed result

  abbrev start_run : RunRequest → Result Error Start → Entry (Option TurnResult)
  start_run req (failed x) = turned_away x
  start_run req (ok start) = enter (run_started req start (opening start.session))

  -- `Run`
  unfoldable pub run : Desk → RunRequest → Entry (Option TurnResult)
  unfolding run_started
  run desk req = start_run req (admit_run e.host.durable desk req)

  -- The request that a resolved confirmation goes on with.
  abbrev pub resolve_request : String → Session → RunRequest
  resolve_request session_id s = record {
    session_id = session_id;
    user_id = s.user_id;
    agent_id = s.agent_id;
    model = "";
    input = [];
    max_iterations = pos 0;
    budget = no_budget;
    parent_session_id = "";
    output_schema = [];
  }

  unfoldable pub close_resolved : Option TurnResult → M (Option TurnResult)
  unfolding save_session
  close_resolved none = pure none
  close_resolved (some r) = do save_session e.host; pure (some r)

  unfoldable pub resolve_started : String → Session → ToolCall → Decision → M (Option TurnResult)
  unfolding close_resolved
  resolve_started session_id s call d = do
    result ← run_turn e (resolve_request session_id s) (some (call, d))
    close_resolved result

  abbrev start_resolved :
      String → Decision → Result Error (Session × ToolCall) → Entry (Option TurnResult)
  start_resolved session_id d (failed x) = turned_away x
  start_resolved session_id d (ok (s, call)) =
      enter (resolve_started session_id s call d (opening s))

  -- `ResolveConfirmation`
  unfoldable pub resolve_confirmation :
      Desk → String → String → Decision → Entry (Option TurnResult)
  unfolding resolve_started
  resolve_confirmation desk session_id call_id d =
      start_resolved session_id d (admit_resolution e.host.durable desk session_id call_id)

  abbrev agent_spec_model : AgentSpec → String → String
  agent_spec_model spec default = or_default spec.model default

  abbrev pub child_request : Desk → AgentSpec → SubAgentRequest → RunRequest
  child_request desk spec req = record {
    session_id = "";
    user_id = req.user_id;
    agent_id = req.agent_id;
    model = agent_spec_model spec desk.default_model;
    input = req.input;
    max_iterations = spec.max_iterations;
    budget = req.budget;
    parent_session_id = req.parent_session_id;
    output_schema = [];
  }

  -- `SubAgentEvent`, and what a delegation gives.
  pub record SubAgentEvent : Type 0 where
    pub parent_session_id : String
    pub child_session_id : String
    pub agent : String
    pub depth : ℤ
    pub status : String

  pub record SubAgentResult : Type 0 where
    pub session_id : String
    pub output : List Part
    pub state : Option SessionState
    pub stop_reason : Option StopReason

  abbrev pub nothing_done : SubAgentResult
  nothing_done = record { session_id = ""; output = []; state = none; stop_reason = none }

  abbrev pub sub_agent_result : TurnResult → SubAgentResult
  sub_agent_result r = record {
    session_id = r.session_id;
    output = r.output;
    state = some r.state;
    stop_reason = some r.stop_reason;
  }

  -- The events in their order, the answer, and the run of the child.
  pub record SubAgentRun : Type 0 where
    pub events : List SubAgentEvent
    pub answer : Result Error (Option SubAgentResult)
    pub child : Option (Entry (Option TurnResult))

  abbrev pub sub_answer : Entry (Option TurnResult) → Result Error (Option SubAgentResult)
  sub_answer (turned_away x) = failed x
  sub_answer (entered (failed x) w) = failed x
  sub_answer (entered (ok none) w) = ok none
  sub_answer (entered (ok (some r)) w) = ok (some (sub_agent_result r))

  -- A run that was let in has a session, an error included.
  abbrev child_id : Entry (Option TurnResult) → String
  child_id (turned_away x) = ""
  child_id (entered r w) = w.session.id

  abbrev child_status : Result Error (Option SubAgentResult) → String
  child_status (failed x) = "error"
  child_status (ok r) = "completed"

  abbrev pub event_of : SubAgentRequest → ℤ → String → String → SubAgentEvent
  event_of req depth child status = record {
    parent_session_id = req.parent_session_id;
    child_session_id = child;
    agent = req.agent_id;
    depth = depth;
    status = status;
  }

  abbrev told_run : SubAgentRequest → ℤ → Entry (Option TurnResult) → SubAgentRun
  told_run req depth child = record {
    events =
        event_of req depth "" "running"
        ∷ event_of req depth (child_id child) (child_status (sub_answer child))
        ∷ [];
    answer = sub_answer child;
    child = some child;
  }

  -- `RunSubAgent`. Where the run fails, the part of the result that it had is left out.
  unfoldable pub run_sub_agent : Desk → SubAgentRequest → ℤ → SubAgentRun
  unfolding run
  run_sub_agent desk req depth = elim (lookup req.agent_id e.host.agents) [
    | none ↦ record {
      events = [];
      answer = failed (Error.config "agents/agente-desconhecido");
      child = none;
    }
    | some spec ↦ told_run req depth (run desk (child_request desk spec req))
  ]

-- `Session`
unfoldable pub session_of : Desk → String → Result Error Session
session_of desk id =
    if str_eq id ""
    then failed (Error.config "session/id-vazio")
    else elim (desk.load id) [ failed x ↦ failed (Error.port x) | ok s ↦ ok s ]

-- `Close`: every adapter that is there is closed, and the first error is the answer.
abbrev first_error : Option String → Option String → Option String
first_error (some x) later = some x
first_error none later = later

unfoldable pub close_all : List (Option (Option String)) → Option String
close_all [] = none
close_all (none ∷ rest) = close_all rest
close_all (some answer ∷ rest) = first_error answer (close_all rest)

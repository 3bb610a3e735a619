-- ===== src/Facade/Running.antt =====
-- The checkpoint after a resolved confirmation (internal/engine/engine.go, ResolveConfirmation and
-- Run).
use mathlib.Core.Path.{subst}
use ia_harness.Base.{
  ◌≡◌, ◌≢◌, refl, sym, inl, inr, arith, true, Bool-cases, String, str_eq, Option, none, some, [],
  ok, eq_iff,
}
use ia_harness.Core.Message.{CheckpointStatus, Session, ToolCall, TurnCheckpoint}
use ia_harness.Core.Config.{Decision, RunRequest, TurnResult}
use ia_harness.Turn.Checkpoint.{is_running, save_session}
use ia_harness.Turn.Engine.{Engine}
use ia_harness.Turn.Begin.{run_turn}
use ia_harness.Turn.Frame.{Fact, Keeps, Keeps-go_on, Keeps-save_session}
use ia_harness.Turn.Runs.{IsStable}
use ia_harness.Turn.Blind.{IsBlind, Blind-run_turn}
use ia_harness.Facade.{Desk, Start, adopt, awaits, load_or_create_session, admit_run}
use ia_harness.Facade.Entry.{opening, close_resolved, resolve_request, resolve_started}

abbrev Running : String → Fact
Running agent s l = (s.agent_id ≡ agent) × (is_running s.checkpoint ≡ true)

still :
    (o : Option TurnCheckpoint) (c c' : TurnCheckpoint)
    → o ≡ some c
    → c'.status ≡ c.status
    → is_running o ≡ true
    → is_running (some c') ≡ true
still o c c' there same h =
    subst (λ status. is_running (some (record c' { status = status })) ≡ true) (sym same)
      (subst (λ x. is_running x ≡ true) there h)

running_stable : (agent : String) → IsStable (Running agent)
running_stable agent = record {
  steady = record {
    act = λ a e h. h;
    checkpoint =
        λ {s} c c' same status (of_agent, h). (of_agent, still s.checkpoint c c' same status h);
  };
  message = λ m h. h;
}

running_again :
    (c : TurnCheckpoint) → c.status ≡ CheckpointStatus.running → is_running (some c) ≡ true
running_again c h =
    subst (λ status. is_running (some (record c { status = status })) ≡ true) (sym h) refl

running-IsBlind : (agent : String) → IsBlind agent (Running agent)
running-IsBlind agent = record {
  stable = running_stable agent;
  of_agent = λ h. h.0;
  waits = λ state pending h. h;
  updated = λ t h. h;
  usage = λ u h. h;
  begins = λ s l c status h. (h.0, running_again c status);
  survives = λ it call s l h. h;
}

module _ (e : Engine) where
  Running-close_resolved :
      (agent : String) (r : Option TurnResult) → Keeps (Running agent) (close_resolved e r)
  unfolding close_resolved
  Running-close_resolved agent none w h = h
  Running-close_resolved agent (some r) w h =
      Keeps-go_on (Running agent) (save_session e.host w) _
        (Keeps-save_session e.host (Running agent) (running_stable agent).steady w h) λ u' x k. k

  resolve_started-IsRunning :
      (id : String) (s : Session) (call : ToolCall) (d : Decision)
      → is_running s.checkpoint ≡ true
      → is_running (resolve_started e id s call d (opening s)).1.session.checkpoint ≡ true
  unfolding resolve_started
  resolve_started-IsRunning id s call d h =
      (Keeps-go_on (Running s.agent_id)
        (run_turn e (resolve_request e id s) (some (call, d)) (opening s)) _
        (Blind-run_turn e s.agent_id (Running s.agent_id) (running-IsBlind s.agent_id)
          (resolve_request e id s) (some (call, d)) (opening s) (refl, h))
        (Running-close_resolved s.agent_id)).1

resumes_running :
    (desk : Desk) (req : RunRequest) (old : Session) (start : Start)
    → ◌≢◌ {A = String} req.session_id ""
    → desk.load req.session_id ≡ ok old
    → is_running old.checkpoint ≡ true
    → admit_run true desk req ≡ ok start
    → (start.resumed ≡ true) × (start.input ≡ [])
unfolding admit_run load_or_create_session adopt
resumes_running desk req old start named there running h =
    elim (Bool-cases (str_eq req.user_id "")) [
      | inl nobody ↦ ground arith
      | inr user ↦ elim (Bool-cases (str_eq req.session_id "")) [
        | inl new ↦ elim (named ((eq_iff req.session_id "").0 new)) [ ]
        | inr asked ↦ elim (Bool-cases (str_eq old.user_id req.user_id)) [
          | inr other ↦ ground arith
          | inl own ↦ elim (Bool-cases (awaits old.state)) [
            | inl waits ↦ ground arith
            | inr ready ↦ (ground arith, ground arith)
          ]
        ]
      ]
    ]

module _ (e : Engine) where
  -- After a confirmation is resolved on a session whose checkpoint is running, whatever the turn does then, the
  -- checkpoint is running still: the next run that a durable engine lets in on that session counts as the
  -- resumption of an interrupted turn, and its input is dropped.
  pub resolve_started-IsResumed :
      (id : String) (s : Session) (call : ToolCall) (d : Decision) (desk : Desk) (req : RunRequest)
      (start : Start)
      → is_running s.checkpoint ≡ true
      → ◌≢◌ {A = String} req.session_id ""
      → desk.load req.session_id ≡ ok (resolve_started e id s call d (opening s)).1.session
      → admit_run true desk req ≡ ok start
      → (start.resumed ≡ true) × (start.input ≡ [])
  resolve_started-IsResumed id s call d desk req start h named there =
      resumes_running desk req (resolve_started e id s call d (opening s)).1.session start named
        there (resolve_started-IsRunning e id s call d h)

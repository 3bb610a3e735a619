-- ===== src/Facade/History.antt =====
-- What a run does to the session it works on: internal/engine/engine.go and the turn below it.
use ia_harness.Base.{
  ◌≡◌, refl, ap, sym, ◌∙◌, Bool, Option, none, some, String, List, [], ◌∷◌, ◌++◌, append-nil,
  append_assoc,
}
use ia_harness.Core.Message.{Message, Session, ToolCall}
use ia_harness.Core.Config.{Decision, RunRequest, StopReason, TurnResult}
use ia_harness.Turn.Checkpoint.{finish_checkpoint, save_session}
use ia_harness.Turn.Engine.{Engine}
use ia_harness.Turn.Begin.{run_turn}
use ia_harness.Turn.Frame.{Fact, Keeps, Keeps-go_on, Keeps-with_checkpoint, Keeps-save_session}
use ia_harness.Turn.Runs.{IsStable}
use ia_harness.Turn.Blind.{IsBlind, Blind-run_turn}
use ia_harness.Facade.{Start}
use ia_harness.Facade.Entry.{
  opening, close_run, resolve_request, run_started, close_resolved, resolve_started,
}

-- The session is the old one, with more messages at its end.
abbrev pub IsGrown : Session → Session → Type 0
IsGrown old s =
    (s.id ≡ old.id)
    × (s.user_id ≡ old.user_id)
    × (s.agent_id ≡ old.agent_id)
    × (s.parent_session_id ≡ old.parent_session_id)
    × (s.created_at ≡ old.created_at)
    × ((more : List Message) × (s.messages ≡ old.messages ++ more))

abbrev Grown : Session → Fact
Grown old s l = IsGrown old s

IsGrown-refl : (s : Session) → IsGrown s s
IsGrown-refl s = (refl, refl, refl, refl, refl, ([], sym (append-nil s.messages)))

grown_stable : (old : Session) → IsStable (Grown old)
grown_stable old = record {
  steady = record { act = λ a e h. h; checkpoint = λ c c' same status h. h };
  message = λ m (id, user, agent, parent, birth, (more, h)). (
    id,
    user,
    agent,
    parent,
    birth,
    (more ++ m ∷ [], ap (λ ms. ms ++ m ∷ []) h ∙ append_assoc old.messages more (m ∷ [])),
  );
}

module _ (e : Engine) (old : Session) where
  grown-IsBlind : IsBlind old.agent_id (Grown old)
  grown-IsBlind = record {
    stable = grown_stable old;
    of_agent = λ h. h.2;
    waits = λ state pending h. h;
    updated = λ t h. h;
    usage = λ u h. h;
    begins = λ s l c running h. h;
    survives = λ it call s l h. h;
  }

  Grown-run_turn :
      (req : RunRequest) (resume : Option (ToolCall × Decision))
      → Keeps (Grown old) (run_turn e req resume)
  Grown-run_turn = Blind-run_turn e old.agent_id (Grown old) grown-IsBlind

  Grown-finish : (stop : StopReason) → Keeps (Grown old) (finish_checkpoint e.host stop)
  unfolding finish_checkpoint
  Grown-finish stop =
      Keeps-with_checkpoint e.host (Grown old) (grown_stable old).steady _ λ c w same h. h

  Grown-save : Keeps (Grown old) (save_session e.host)
  Grown-save = Keeps-save_session e.host (Grown old) (grown_stable old).steady

  Grown-close_run :
      (resumed : Bool) (r : Option TurnResult) → Keeps (Grown old) (close_run e resumed r)
  unfolding close_run
  Grown-close_run resumed none w h = h
  Grown-close_run resumed (some r) w h =
      Keeps-go_on (Grown old) (finish_checkpoint e.host r.stop_reason w) _
        (Grown-finish r.stop_reason w h)
        λ u v j. Keeps-go_on (Grown old) (save_session e.host v) _ (Grown-save v j) λ u' x k. k

  Grown-close_resolved : (r : Option TurnResult) → Keeps (Grown old) (close_resolved e r)
  unfolding close_resolved
  Grown-close_resolved none w h = h
  Grown-close_resolved (some r) w h =
      Keeps-go_on (Grown old) (save_session e.host w) _ (Grown-save w h) λ u' x k. k

module _ (e : Engine) where
  -- A run that was let in, and a confirmation that was resolved, only add messages to the history of the session:
  -- those that were there stay as they were and in their order, and the session keeps its id, user, agent,
  -- parent and birth, whatever the models, the tools, the store and the human do, errors included.
  pub runs-IsGrown :
      (req : RunRequest) (start : Start) (id : String) (s : Session) (call : ToolCall)
      (d : Decision)
      → IsGrown start.session (run_started e req start (opening start.session)).1.session
        × IsGrown s (resolve_started e id s call d (opening s)).1.session
  unfolding run_started resolve_started
  runs-IsGrown req start id s call d = (
    Keeps-go_on (Grown start.session)
        (run_turn e (record req { input = start.input }) none (opening start.session)) _
        (Grown-run_turn e start.session _ none (opening start.session) (IsGrown-refl start.session))
        (Grown-close_run e start.session start.resumed),
    Keeps-go_on (Grown s) (run_turn e (resolve_request e id s) (some (call, d)) (opening s)) _
        (Grown-run_turn e s _ (some (call, d)) (opening s) (IsGrown-refl s))
        (Grown-close_resolved e s),
  )

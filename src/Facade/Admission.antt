-- ===== src/Facade/Admission.antt =====
-- Whose session a run gets, and which confirmations can be resolved.
use mathlib.Core.Option.{map as option_map}
use ia_harness.Base.{
  String, str_eq, eq_iff, ◌≡◌, refl, ap, sym, ◌∙◌, ◌≢◌, ◌↔◌, inl, inr, Bool, true, false, ◌&&◌,
  ◌||◌, Option, none, some, [], arith, ok, Result-cases, Bool-cases, Option-cases, lookup,
  and-eq-true, if◌then◌else◌,
}
use ia_harness.Core.Message.{
  CheckpointStatus, TurnCheckpoint, SessionState, ToolCall, PendingConfirmation, Session,
}
use ia_harness.Core.Config.{RunRequest, ModelProfile}
use ia_harness.Turn.Checkpoint.{is_running, find_tool_call}
use ia_harness.Facade.{
  Desk, or_default, adopt, create, load_or_create_session, awaits, Start, admit_run, is_pending,
  reopen, reopened, admit_resolution,
}

-- The session of a run: the one that was asked for, with its history, or a new one of a known model.
pub data IsSessionOf (desk : Desk) (req : RunRequest) (s : Session) : Type 0 where
  loaded :
      (old : Session)
      → desk.load req.session_id ≡ ok old
      → s.id ≡ old.id
      → s.messages ≡ old.messages
      → IsSessionOf desk req s
  created :
      (profile : ModelProfile)
      → lookup s.model desk.models ≡ some profile
      → s.messages ≡ []
      → s.state ≡ SessionState.active
      → IsSessionOf desk req s

module _ (desk : Desk) (req : RunRequest) (s : Session) where
  adopt-owner :
      (old : Session)
      → desk.load req.session_id ≡ ok old
      → adopt req old ≡ ok s
      → (s.user_id ≡ req.user_id) × IsSessionOf desk req s
  unfolding adopt
  adopt-owner old there h = elim (Bool-cases (str_eq old.user_id req.user_id)) [
    | inr other ↦ ground arith
    | inl own ↦ (
      ground (arith, eq_iff old.user_id req.user_id),
      loaded old there (ground arith) (ground arith),
    )
  ]

  create-owner :
      (model : String)
      → create desk req model ≡ ok s
      → (s.user_id ≡ req.user_id) × IsSessionOf desk req s
  unfolding create
  create-owner model h = elim (Bool-cases (str_eq model "")) [
    | inl missing ↦ ground arith
    | inr named ↦ elim (Option-cases (lookup model desk.models)) [
      | inl unknown ↦ ground arith
      | inr (profile, known) ↦
          (ground arith, created profile (ground arith) (ground arith) (ground arith))
    ]
  ]

  load_or_create-owner :
      load_or_create_session desk req ≡ ok s → (s.user_id ≡ req.user_id) × IsSessionOf desk req s
  unfolding load_or_create_session
  load_or_create-owner h = elim (Bool-cases (str_eq req.session_id "")) [
    | inl new ↦ create-owner (or_default req.model desk.default_model) (ground arith)
    | inr asked ↦ elim (Result-cases (desk.load req.session_id)) [
      | inr (e, broken) ↦ ground arith
      | inl (old, there) ↦ adopt-owner old there (ground arith)
    ]
  ]

-- A run that is let in works on a session of its own user, which is the one that was asked for with
-- its history, or a new one without a history and with a configured model; the session does not wait
-- for a human. The new input is dropped exactly where the run resumes an interrupted turn.
pub admit_run-owner :
    (durable : Bool) (desk : Desk) (req : RunRequest) (start : Start)
    → admit_run durable desk req ≡ ok start
    → (start.session.user_id ≡ req.user_id)
      × IsSessionOf desk req start.session
      × (awaits start.session.state ≡ false)
      × (start.resumed ≡ (durable && is_running start.session.checkpoint))
      × (start.input ≡ (if start.resumed then [] else req.input))
unfolding admit_run
admit_run-owner durable desk req start h = elim (Bool-cases (str_eq req.user_id "")) [
  | inl nobody ↦ ground arith
  | inr user ↦ elim (Result-cases (load_or_create_session desk req)) [
    | inr (e, broken) ↦ ground arith
    | inl (s, there) ↦ elim (Bool-cases (awaits s.state)) [
      | inl waits ↦ ground arith
      | inr ready ↦
          let same : load_or_create_session desk req ≡ ok start.session = ground arith in
          let (own, origin) = load_or_create-owner desk req start.session same in
          (own, origin, ground arith, ground arith, ground arith)
    ]
  ]
]

abbrev pub IsResolvable : Desk → String → String → Session → ToolCall → Type 0
IsResolvable desk session_id call_id old call =
    (◌≢◌ {A = String} session_id "")
    × (◌≢◌ {A = String} call_id "")
    × (desk.load session_id ≡ ok old)
    × (awaits old.state ≡ true)
    × ((p : PendingConfirmation) × (old.pending ≡ some p) × (p.call_id ≡ call_id))
    × (find_tool_call old call_id ≡ some call)

waits_for :
    (id : String) (pending : Option PendingConfirmation)
    → is_pending id pending ≡ true
    → (p : PendingConfirmation) × (pending ≡ some p) × (p.call_id ≡ id)
waits_for id none h = cc
waits_for id (some p) h = (p, refl, (eq_iff p.call_id id).0 h)

-- The session that no longer waits, and its checkpoint.
abbrev pub resumed_checkpoint : Bool → TurnCheckpoint → TurnCheckpoint
resumed_checkpoint durable c = record c {
  status = if durable then CheckpointStatus.running else c.status;
  pending_call = if durable then none else c.pending_call;
}

abbrev pub resumed_session : Bool → Session → Session
resumed_session durable old = record old {
  state = SessionState.active;
  pending = none;
  checkpoint = option_map (resumed_checkpoint durable) old.checkpoint;
}

reopened-map :
    (durable : Bool) (c : Option TurnCheckpoint)
    → reopened durable c ≡ option_map (resumed_checkpoint durable) c
reopened-map true none = refl
reopened-map false none = refl
reopened-map true (some c) = refl
reopened-map false (some c) = refl

reopen-resumed : (durable : Bool) (s : Session) → reopen durable s ≡ resumed_session durable s
unfolding reopen
reopen-resumed durable s =
    ap (λ c. record s { state = SessionState.active; pending = none; checkpoint = c })
      (reopened-map durable s.checkpoint)

module _ (durable : Bool) (desk : Desk) (session_id call_id : String) (s : Session)
    (call : ToolCall) where
  resolution-IsResolvable :
      admit_resolution durable desk session_id call_id ≡ ok (s, call)
      → (old : Session) × IsResolvable desk session_id call_id old call × (s ≡ reopen durable old)
  unfolding admit_resolution
  resolution-IsResolvable h = elim (Bool-cases (str_eq session_id "" || str_eq call_id "")) [
    | inl missing ↦ ground arith
    | inr given ↦ elim (Result-cases (desk.load session_id)) [
      | inr (e, broken) ↦ ground arith
      | inl (old, there) ↦ elim (Bool-cases (awaits old.state && is_pending call_id old.pending)) [
        | inr idle ↦ ground arith
        | inl waits ↦ elim (Option-cases (find_tool_call old call_id)) [
          | inl lost ↦ ground arith
          | inr (c, found) ↦
              let (waiting, pending) =
                and-eq-true (awaits old.state) (is_pending call_id old.pending) waits in
              (
                old,
                (
                  λ e. ground (arith, eq_iff session_id ""),
                  λ e. ground (arith, eq_iff call_id ""),
                  there,
                  waiting,
                  waits_for call_id old.pending pending,
                  ground arith,
                ),
                ground arith,
              )
        ]
      ]
    ]
  ]

  IsResolvable-resolution :
      (old : Session)
      → IsResolvable desk session_id call_id old call
      → s ≡ reopen durable old
      → admit_resolution durable desk session_id call_id ≡ ok (s, call)
  unfolding admit_resolution
  IsResolvable-resolution old (has_session, has_call, there, waits, (p, pend, own), found) same =
      let pending : is_pending call_id old.pending ≡ true =
        rw pend ((eq_iff p.call_id call_id).1 own) in
      let named : str_eq session_id "" ≡ false = ground (arith, eq_iff session_id "") in
      let given : str_eq call_id "" ≡ false = ground (arith, eq_iff call_id "") in
      rw (named, given, there, waits, pending, found, same)

  -- A confirmation can be resolved exactly where its session can be loaded, waits for that call, and
  -- has the call in its history; the turn then resumes that call on the session as it was, but that
  -- it is active, nothing is pending on it, and in a durable host its checkpoint runs and names no
  -- call.
  pub admit_resolution-ok_iff :
      (admit_resolution durable desk session_id call_id ≡ ok (s, call)) ↔ (
        (old : Session) × IsResolvable desk session_id call_id old call
        × (s ≡ resumed_session durable old))
  admit_resolution-ok_iff = (
    λ h.
        let (old, resolvable, same) = resolution-IsResolvable h in
        (old, resolvable, same ∙ reopen-resumed durable old),
    λ (old, resolvable, same).
        IsResolvable-resolution old resolvable (same ∙ sym (reopen-resumed durable old)),
  )

-- ===== src/Turn/Replies.antt =====
-- The loop over the calls of a response answers all of them, in order, or pauses at one.
use ia_harness.Base.{
  suc, String, str_eq, eq_iff, ◌≡◌, refl, sym, ap, ◌∙◌, ◌≢◌, Bool, true, false, inl, inr, some,
  List, [], ◌∷◌, ◌++◌, append_assoc, append-nil, Result, ok, failed, Bool-cases,
}
use ia_harness.Core.Message.{SessionState, Message, ToolCall, PendingConfirmation, Session}
use ia_harness.Core.Config.{ToolExecution, Error}
use ia_harness.Turn.Machine.{Host, InstalledTool, World, pure, go_on}
use ia_harness.Turn.Calls.{
  Settled, answered, paused, call_lookup_name, find_tool, settle_call, settle_rest, settle_calls,
}
use ia_harness.Turn.Answers.{IsResultOf, Outcome, Settles-settle_found}

-- The id that a call keeps, or the fresh one that it gets.
abbrev pub IsIdOf : ToolCall → String → Type 0
IsIdOf call id = ◌≢◌ {A = String} call.id "" → id ≡ call.id

-- The answers of calls, in their order: one message and one execution for each.
pub data IsAnswered : List ToolCall → List Message → List ToolExecution → Type 0 where
  none_left : IsAnswered [] [] []
  next :
      {call : ToolCall} {m : Message} {e : ToolExecution} {calls : List ToolCall}
      {ms : List Message} {es : List ToolExecution} (id : String)
      → IsIdOf call id
      → IsResultOf id m
      → e.call_id ≡ id
      → IsAnswered calls ms es
      → IsAnswered (call ∷ calls) (m ∷ ms) (e ∷ es)

-- All calls are answered, or the calls before one are, for which the session waits.
pub data IsDone (s : Session) (calls : List ToolCall) (ms : List Message) (es : List ToolExecution)
    : Bool → Type 0 where
  all_answered : IsAnswered calls ms es → IsDone s calls ms es true
  waits :
      (before : List ToolCall) (call : ToolCall) (after : List ToolCall) (p : PendingConfirmation)
      → calls ≡ before ++ call ∷ after
      → IsAnswered before ms es
      → s.state ≡ SessionState.awaiting_confirmation
      → s.pending ≡ some p
      → IsIdOf call p.call_id
      → IsDone s calls ms es false

IsDone-next :
    {s : Session} {calls : List ToolCall} {ms : List Message} {es : List ToolExecution}
    {done : Bool} (call : ToolCall) (m : Message) (e : ToolExecution) (id : String)
    → IsIdOf call id
    → IsResultOf id m
    → e.call_id ≡ id
    → IsDone s calls ms es done
    → IsDone s (call ∷ calls) (m ∷ ms) (e ∷ es) done
IsDone-next call m e id named result exec (all_answered h) =
    all_answered (next id named result exec h)
IsDone-next call m e id named result exec (waits before c after p split h state pend own) =
    waits (call ∷ before) c after p (ap (λ (l : List ToolCall). call ∷ l) split)
      (next id named result exec h) state pend own

abbrev pub Finish :
    List Message
    → List ToolCall
    → Result Error (List Message × List ToolExecution × Bool) × World
    → Type 0
Finish base calls (ok (ms, es, done), w) =
    (w.session.messages ≡ base ++ ms) × IsDone w.session calls ms es done
Finish base calls (failed e, w) = Unit

-- The outcome of one call, under the id that it has or gets.
abbrev NamedOutcome : ToolCall → List Message → Result Error Settled × World → Type 0
NamedOutcome call base r = (id : String) × IsIdOf call id × Outcome id base r

module _ (host : Host) where
  settle_call-outcome :
      (catalog : List InstalledTool) (call : ToolCall) (w : World)
      → NamedOutcome call w.session.messages (settle_call host catalog call w)
  unfolding settle_call
  settle_call-outcome catalog call w = elim (Bool-cases (str_eq call.id "")) [
    | inl unnamed ↦
        let id = host.new_id w.ids in
        let named = record call { id = id } in
        (
          id,
          λ has_id. absurd (has_id ((eq_iff call.id "").0 unnamed)),
          rw unnamed (
              Settles-settle_found host id w.session.messages
                (find_tool catalog (call_lookup_name named)) named refl
                (record w { ids = suc w.ids }) refl),
        )
    | inr named ↦ (
      call.id,
      λ has_id. refl,
      rw named (
          Settles-settle_found host call.id w.session.messages
            (find_tool catalog (call_lookup_name call)) call refl w refl),
    )
  ]

  next-Finish :
      (base : List Message) (calls : List ToolCall) (call : ToolCall) (m : Message)
      (e : ToolExecution) (id : String)
      (r : Result Error (List Message × List ToolExecution × Bool) × World)
      → IsIdOf call id
      → IsResultOf id m
      → e.call_id ≡ id
      → Finish (base ++ m ∷ []) calls r
      → Finish base (call ∷ calls) (go_on r (λ x. pure (m ∷ x.0, e ∷ x.1, x.2)))
  next-Finish base calls call m e id (failed x, w) named result exec h = tt
  next-Finish base calls call m e id (ok (ms, es, done), w) named result exec (all, h) =
      (all ∙ append_assoc base (m ∷ []) ms, IsDone-next call m e id named result exec h)

  settle_rest-Finish :
      (catalog : List InstalledTool) (call : ToolCall) (calls : List ToolCall) (base : List Message)
      (r : Result Error Settled × World)
      → NamedOutcome call base r
      → ((w : World) → Finish w.session.messages calls (settle_calls host catalog calls w))
      → Finish base (call ∷ calls) (go_on r (settle_rest (settle_calls host catalog calls)))
  settle_rest-Finish catalog call calls base (failed e, w) h rest = tt
  settle_rest-Finish catalog call calls base (ok paused, w)
        (id, named, (same, state, (p, pend, own))) rest =
      (
        same ∙ sym (append-nil base),
        waits [] call calls p refl none_left state pend (λ has_id. own ∙ named has_id),
      )
  settle_rest-Finish catalog call calls base (ok (answered m e), w)
        (id, named, (more, result, exec)) rest =
      next-Finish base calls call m e id (settle_calls host catalog calls w) named result exec
        (rw (sym more) (rest w))

  -- The loop over the calls of a response appends to the history one message for each call that it
  -- answers, in the order of the calls, with one result that carries the id of the call, and gives
  -- an execution under the same id. Either it answers all calls, or it stops at the first call that
  -- waits for a human, and then the session waits for that very call. Nothing is said of a run that
  -- ends in an error.
  pub settle_calls-Finish :
      (catalog : List InstalledTool) (calls : List ToolCall) (w : World)
      → Finish w.session.messages calls (settle_calls host catalog calls w)
  unfolding settle_calls
  settle_calls-Finish catalog [] w = (sym (append-nil w.session.messages), all_answered none_left)
  settle_calls-Finish catalog (call ∷ calls) w =
      settle_rest-Finish catalog call calls w.session.messages (settle_call host catalog call w)
        (settle_call-outcome catalog call w) (settle_calls-Finish catalog calls)

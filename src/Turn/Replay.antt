-- ===== src/Turn/Replay.antt =====
-- What the reconciliation after an interruption calls again (checkpoint.go, reconcileCheckpoint).
use ia_harness.Base.{
  ◌≡◌, refl, ◌∙◌, ◌⊎◌, inl, inr, Bool, true, false, Option, none, some, List, [], ◌∷◌, arith,
  if◌then◌else◌, Bool-cases, Option-cases,
}
use ia_harness.Core.Message.{ToolCall, ToolResult, PendingCall, TurnCheckpoint, Session}
use ia_harness.Core.Config.{ToolStatus}
use ia_harness.Turn.Machine.{
  Host, InstalledTool, World, Action, saved, save_failed, called, asked, told_checkpoint, told_call,
  told_error, told_result, recorded, asked_model, recorded_model, told_usage, told_compaction,
  told_cache, cached, M, pure, ◌>>=◌, ◌>>◌, act,
}
use ia_harness.Turn.Checkpoint.{with_checkpoint, checkpoint_step, has_tool_result, find_tool_call}
use ia_harness.Turn.Calls.{find_tool, call_tool, record_tool_call, append_message}
use ia_harness.Turn.Recovery.{
  repeatable, repeat_call, reconcile_found, reconcile_pending, reconcile_checkpoint,
}
use ia_harness.Turn.Frame.{
  Fact, Keeps, IsSteady, is_call, Keeps-go_on, Keeps-checkpoint_step, Keeps-record_tool_call,
}

-- The calls of sources in a trace, the newest first.
unfoldable pub calls_of : List Action → List (InstalledTool × ToolCall)
calls_of [] = []
calls_of (called it call ∷ l) = (it, call) ∷ calls_of l
calls_of (_ ∷ l) = calls_of l

calls_of-other : (a : Action) (l : List Action) → is_call a ≡ false → calls_of (a ∷ l) ≡ calls_of l
unfolding calls_of
calls_of-other (called it call) l e = cc
calls_of-other (saved s) l e = refl
calls_of-other save_failed l e = refl
calls_of-other (asked call d) l e = refl
calls_of-other (told_checkpoint c) l e = refl
calls_of-other (told_call id) l e = refl
calls_of-other (told_error id) l e = refl
calls_of-other (told_result id status) l e = refl
calls_of-other (recorded id status) l e = refl
calls_of-other (asked_model req) l e = refl
calls_of-other (recorded_model u) l e = refl
calls_of-other (told_usage u) l e = refl
calls_of-other (told_compaction c) l e = refl
calls_of-other (told_cache hit) l e = refl
calls_of-other (cached req resp) l e = refl

abbrev Called : List (InstalledTool × ToolCall) → Fact
Called calls s l = calls_of l ≡ calls

Called-IsSteady : (calls : List (InstalledTool × ToolCall)) → IsSteady (Called calls)
Called-IsSteady calls = record {
  act = λ a e h. calls_of-other a _ e ∙ h;
  checkpoint = λ c c' same status h. h;
}

-- The write-ahead that may run again.
abbrev pub IsRepeatable :
    List InstalledTool → Session → PendingCall → InstalledTool × ToolCall → Type 0
IsRepeatable catalog s p (it, call) =
    (p.idempotent ≡ true)
    × (has_tool_result s p.call_id ≡ false)
    × (find_tool catalog p.tool ≡ some it)
    × (find_tool_call s p.call_id ≡ some call)

repeatable-IsRepeatable :
    (catalog : List InstalledTool) (s : Session) (p : PendingCall)
    (again : InstalledTool × ToolCall)
    → has_tool_result s p.call_id ≡ false
    → repeatable catalog s p ≡ some again
    → IsRepeatable catalog s p again
unfolding repeatable
repeatable-IsRepeatable catalog s p again missing e =
    elim (Option-cases (find_tool catalog p.tool)) [
      | inl gone ↦ cc
      | inr (it, found) ↦ elim (Bool-cases p.idempotent) [
        | inr once ↦ ground arith
        | inl many ↦ elim (Option-cases (find_tool_call s p.call_id)) [
          | inl lost ↦ ground arith
          | inr (call, there) ↦ (many, missing, ground arith, ground arith)
        ]
      ]
    ]

module _ (host : Host) where
  Keeps-append_message :
      (calls : List (InstalledTool × ToolCall)) (res : ToolResult)
      → Keeps (Called calls) (append_message host res)
  unfolding append_message
  Keeps-append_message calls res w h = h

  -- After the call that runs again, the calls are these.
  Keeps-after_call :
      (calls : List (InstalledTool × ToolCall)) (call : ToolCall) (status shown : ToolStatus)
      (res : ToolResult) (w : World)
      → calls_of w.trace ≡ calls
      → calls_of
          ((act (told_result call.id shown) >> (record_tool_call host call status >> pure res))
            w).1.trace
        ≡ calls
  Keeps-after_call calls call status shown res w h =
      let w' = record w { trace = told_result call.id shown ∷ w.trace } in
      Keeps-go_on (Called calls) (record_tool_call host call status w') (λ u. pure res)
        (Keeps-record_tool_call host (Called calls) (Called-IsSteady calls) call status w'
          (calls_of-other (told_result call.id shown) w.trace refl ∙ h))
        λ u v j. j

  -- One more call than before, or none.
  abbrev added :
      Option (InstalledTool × ToolCall)
      → List (InstalledTool × ToolCall)
      → List (InstalledTool × ToolCall)
  added none calls = calls
  added (some again) calls = again ∷ calls

  calls_of-called :
      (it : InstalledTool) (call : ToolCall) (l : List Action)
      → calls_of (called it call ∷ l) ≡ (it, call) ∷ calls_of l
  unfolding calls_of
  calls_of-called it call l = refl

  repeat_call-added :
      (p : PendingCall) (again : Option (InstalledTool × ToolCall)) (w : World)
      → calls_of (repeat_call host p again w).1.trace ≡ added again (calls_of w.trace)
  unfolding repeat_call call_tool
  repeat_call-added p none w = refl
  repeat_call-added p (some (it, call)) w =
      Keeps-after_call ((it, call) ∷ calls_of w.trace) call _ _ _ _
        (calls_of-called it call w.trace)

  Keeps-step :
      (calls : List (InstalledTool × ToolCall)) → Keeps (Called calls) (checkpoint_step host)
  Keeps-step calls = Keeps-checkpoint_step host (Called calls) (Called-IsSteady calls)

  Keeps-close :
      (calls : List (InstalledTool × ToolCall)) (res : ToolResult)
      → Keeps (Called calls) (append_message host res >> checkpoint_step host)
  unfolding append_message
  Keeps-close calls res w h =
      Keeps-go_on (Called calls) (append_message host res w) (λ m. checkpoint_step host)
        (Keeps-append_message calls res w h) (λ m. Keeps-step calls)

  -- What a call again may be, and that it is the only new one.
  abbrev pub IsReplay : List InstalledTool → PendingCall → World → World → Type 0
  IsReplay catalog p w w' =
      (again : InstalledTool × ToolCall) × IsRepeatable catalog w.session p again
      × (calls_of w'.trace ≡ again ∷ calls_of w.trace)

  replayed :
      (catalog : List InstalledTool) (p : PendingCall) (w w' : World)
      (again : Option (InstalledTool × ToolCall))
      → has_tool_result w.session p.call_id ≡ false
      → repeatable catalog w.session p ≡ again
      → calls_of w'.trace ≡ added again (calls_of w.trace)
      → (calls_of w'.trace ≡ calls_of w.trace) ⊎ IsReplay catalog p w w'
  replayed catalog p w w' none missing e h = inl h
  replayed catalog p w w' (some again) missing e h =
      inr (again, repeatable-IsRepeatable catalog w.session p again missing e, h)

  reconcile_found-calls :
      (catalog : List InstalledTool) (p : PendingCall) (w : World) (found : Bool)
      → has_tool_result w.session p.call_id ≡ found
      → (calls_of (reconcile_found host found catalog p w.session w).1.trace ≡ calls_of w.trace)
        ⊎ IsReplay catalog p w (reconcile_found host found catalog p w.session w).1
  unfolding reconcile_found
  reconcile_found-calls catalog p w true e = inl (Keeps-step (calls_of w.trace) w refl)
  reconcile_found-calls catalog p w false e =
      let again = repeatable catalog w.session p in
      replayed catalog p w
        ((repeat_call host p again >>= λ res. append_message host res >> checkpoint_step host) w).1
        again e refl
        (Keeps-go_on (Called (added again (calls_of w.trace))) (repeat_call host p again w)
          (λ res. append_message host res >> checkpoint_step host) (repeat_call-added p again w)
          (Keeps-close (added again (calls_of w.trace))))

  -- The calls of a resumption: none, or the one of the write-ahead.
  abbrev pub IsResumed : List InstalledTool → World → World → Type 0
  IsResumed catalog w w' =
      (calls_of w'.trace ≡ calls_of w.trace)
      ⊎ ((c : TurnCheckpoint) × (p : PendingCall) × (w.session.checkpoint ≡ some c)
          × (c.pending_call ≡ some p)
          × IsReplay catalog p w w')

  reconcile_pending-IsResumed :
      (catalog : List InstalledTool) (w : World) (c : TurnCheckpoint) (p : Option PendingCall)
      → w.session.checkpoint ≡ some c
      → c.pending_call ≡ p
      → IsResumed catalog w (reconcile_pending host catalog p w).1
  unfolding reconcile_pending
  reconcile_pending-IsResumed catalog w c none e f = inl refl
  reconcile_pending-IsResumed catalog w c (some p) e f =
      elim (reconcile_found-calls catalog p w (has_tool_result w.session p.call_id) refl) [
        | inl same ↦ inl same
        | inr replay ↦ inr (c, p, e, f, replay)
      ]

  pub with_checkpoint-cases :
      (P : World → Type 0) (k : TurnCheckpoint → M (Unit {0})) (w : World)
      → P w
      → ((c : TurnCheckpoint) → w.session.checkpoint ≡ some c → P (k c w).1)
      → P (with_checkpoint host k w).1
  with_checkpoint-cases P k w h each = go host.durable w.session.checkpoint refl
    where
      go :
          (durable : Bool) (c : Option TurnCheckpoint)
          → w.session.checkpoint ≡ c
          → P ((if durable then elim c [ none ↦ pure tt | some x ↦ k x ] else pure tt) w).1
      go true none e = h
      go true (some x) e = each x e
      go false c e = h

  -- What a turn does first in a session that was interrupted calls nothing, but for the call of its
  -- write-ahead: that one runs once more only where its tool was marked as idempotent, is still in
  -- the catalog, the call is in the history, and no result of it is.
  pub reconcile_checkpoint-IsResumed :
      (catalog : List InstalledTool) (w : World)
      → IsResumed catalog w (reconcile_checkpoint host catalog w).1
  unfolding reconcile_checkpoint
  reconcile_checkpoint-IsResumed catalog w =
      with_checkpoint-cases (IsResumed catalog w)
        (λ c. reconcile_pending host catalog c.pending_call) w (inl refl)
        (λ c e. reconcile_pending-IsResumed catalog w c c.pending_call e refl)

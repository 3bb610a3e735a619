-- ===== src/Turn/WriteAhead.antt =====
-- A durable turn writes each call down before it makes it (checkpoint.go, checkpointToolStart).
use mathlib.Core.Option.{some_inj}
use mathlib.Core.Path.{subst⁻¹}
use ia_harness.Base.{
  ◌≡◌, refl, ap, Bool, true, false, Option, none, some, String, List, [], ◌∷◌, Result, ok, failed,
  if◌then◌else◌,
}
use ia_harness.Core.Message.{PendingCall, Session, Time, Duration, ToolCall, TurnCheckpoint}
use ia_harness.Core.Config.{Error}
use ia_harness.Policy.{effective_tool_timeout}
use ia_harness.Turn.Machine.{
  Host, InstalledTool, World, Action, saved, save_failed, called, asked, told_checkpoint, told_call,
  told_error, told_result, recorded, asked_model, recorded_model, told_usage, told_compaction,
  told_cache, cached, M, pure, go_on, act,
}
use ia_harness.Turn.Checkpoint.{
  store_session, save_session, with_checkpoint, save_checkpoint, save_refreshed, pending_for,
  write_ahead, checkpoint_tool_start,
}
use ia_harness.Turn.Calls.{call_tool, call_run, run_call, with_call_id}
use ia_harness.Turn.Warrant.{IsLicensed}
use ia_harness.Turn.Engine.{Engine}
use ia_harness.Turn.Frame.{Fact, Holds, is_call, with_new, ticked}
use ia_harness.Turn.Runs.{IsStable, Keeps-end_run}
use ia_harness.Turn.Settling.{IsOpen, Keeps-settle_calls}
use ia_harness.Turn.Robust.{IsRobust}

-- The store took, as the last thing it did, a session whose checkpoint names the call.
pub data IsWritten (it : InstalledTool) (call : ToolCall) : List Action → Type 0 where
  written :
      (s : Session) (c told : TurnCheckpoint) (p : PendingCall) (before : List Action)
      → s.checkpoint ≡ some c
      → c.pending_call ≡ some p
      → p.call_id ≡ call.id
      → p.tool ≡ it.key
      → p.idempotent ≡ it.tool.idempotent
      → IsWritten it call (told_checkpoint told ∷ saved s ∷ before)

-- Every call of a source in the trace was written down right before it was made.
abbrev pub IsAhead : List Action → Type 0
IsAhead [] = Unit
IsAhead (called it call ∷ before) = IsWritten it call before × IsAhead before
IsAhead (_ ∷ before) = IsAhead before

pub IsAhead-more : (a : Action) (l : List Action) → is_call a ≡ false → IsAhead l → IsAhead (a ∷ l)
IsAhead-more (called it call) l e h = cc
IsAhead-more (saved s) l e h = h
IsAhead-more save_failed l e h = h
IsAhead-more (asked call d) l e h = h
IsAhead-more (told_checkpoint c) l e h = h
IsAhead-more (told_call id) l e h = h
IsAhead-more (told_error id) l e h = h
IsAhead-more (told_result id status) l e h = h
IsAhead-more (recorded id status) l e h = h
IsAhead-more (asked_model req) l e h = h
IsAhead-more (recorded_model u) l e h = h
IsAhead-more (told_usage u) l e h = h
IsAhead-more (told_compaction c) l e h = h
IsAhead-more (told_cache hit) l e h = h
IsAhead-more (cached q x) l e h = h

abbrev pub has_checkpoint : Option TurnCheckpoint → Bool
has_checkpoint none = false
has_checkpoint (some c) = true

module _ (host : Host) (agent : String) (durable : host.durable ≡ true) where
  abbrev pub Ahead : Fact
  Ahead s l = (s.agent_id ≡ agent) × (has_checkpoint s.checkpoint ≡ true) × IsAhead l

  pub ahead_stable : IsStable Ahead
  ahead_stable = record {
    steady = record {
      act = λ a e (of_agent, has, h). (of_agent, has, IsAhead-more a _ e h);
      checkpoint = λ c c' same status (of_agent, has, h). (of_agent, refl, h);
    };
    message = λ m h. h;
  }

  -- A durable host runs what depends on the checkpoint.
  with_checkpoint-some :
      (k : TurnCheckpoint → M (Unit {0})) (w : World) (c : TurnCheckpoint)
      → w.session.checkpoint ≡ some c
      → with_checkpoint host k w ≡ k c w
  with_checkpoint-some k w c e = go host.durable w.session.checkpoint durable e
    where
      go :
          (d : Bool) (o : Option TurnCheckpoint)
          → d ≡ true
          → o ≡ some c
          → (if d then elim o [ none ↦ pure tt | some x ↦ k x ] else pure tt) w ≡ k c w
      go true (some x) on same = ap (λ y. k y w) (some_inj.0 same)
      go true none on same = cc
      go false o on same = cc

  abbrev pub IsStarted : InstalledTool → ToolCall → Result Error (Unit {0}) × World → Type 0
  IsStarted it call (ok u, w) = Ahead w.session w.trace × IsWritten it call w.trace
  IsStarted it call (failed x, w) = Ahead w.session w.trace

  stored-IsStarted :
      (it : InstalledTool) (call : ToolCall) (answer : Option String) (w : World)
      (c : TurnCheckpoint) (p : PendingCall)
      → Ahead w.session w.trace
      → w.session.checkpoint ≡ some c
      → c.pending_call ≡ some p
      → p.call_id ≡ call.id
      → p.tool ≡ it.key
      → p.idempotent ≡ it.tool.idempotent
      → IsStarted it call
          (go_on (store_session host answer w.session w) (λ u. act (told_checkpoint c)))
  stored-IsStarted it call none w c p h e q id tool mark =
      (h, written w.session c c p w.trace e q id tool mark)
  stored-IsStarted it call (some x) w c p h e q id tool mark = h

  save_checkpoint-IsStarted :
      (it : InstalledTool) (call : ToolCall) (w : World) (c : TurnCheckpoint)
      → Ahead w.session w.trace
      → c.pending_call ≡ some (pending_for host it call)
      → IsStarted it call (save_checkpoint host (with_new w c))
  unfolding save_checkpoint save_session
  save_checkpoint-IsStarted it call w c (of_agent, has, h) q =
      subst⁻¹ (IsStarted it call) (with_checkpoint-some (save_refreshed host) (with_new w c) c refl)
        (stored-IsStarted it call
          (host.save w.trace
            (record w.session { checkpoint = some (record c { updated_at = host.clock w.ticks }) }))
          (ticked (with_new w (record c { updated_at = host.clock w.ticks })))
          (record c { updated_at = host.clock w.ticks }) (pending_for host it call)
          (of_agent, refl, h) refl q refl refl refl)

  pub start-IsStarted :
      (it : InstalledTool) (call : ToolCall) (w : World) (c : TurnCheckpoint)
      → Ahead w.session w.trace
      → w.session.checkpoint ≡ some c
      → IsStarted it call (checkpoint_tool_start host it call w)
  unfolding checkpoint_tool_start
  start-IsStarted it call w c h e =
      subst⁻¹ (IsStarted it call) (with_checkpoint-some (write_ahead host it call) w c e) (
        save_checkpoint-IsStarted it call w
          (record c { pending_call = some (pending_for host it call) }) h refl)

  Keeps-started :
      (it : InstalledTool) (call : ToolCall) (start : Time) (timeout : Duration)
      (r : Result Error (Unit {0}) × World)
      → IsStarted it call r
      → Holds Ahead (go_on r (λ u. call_run host it call start timeout)).1
  unfolding call_run call_tool
  Keeps-started it call start timeout (failed x, w) h = h
  Keeps-started it call start timeout (ok u, w) ((of_agent, has, h), was) =
      Keeps-end_run host Ahead ahead_stable it call start
        (with_call_id call.id (host.invoke w.trace it call timeout))
        (record w { trace = called it call ∷ w.trace }) (of_agent, has, (was, h))

  pub the_checkpoint :
      (o : Option TurnCheckpoint) → has_checkpoint o ≡ true → (c : TurnCheckpoint) × (o ≡ some c)
  the_checkpoint none h = absurd (cc)
  the_checkpoint (some c) h = (c, refl)

  Keeps-run_ahead :
      (it : InstalledTool) (call : ToolCall) (w : World)
      → Holds Ahead w
      → IsLicensed host agent it call w.trace
      → Holds Ahead (run_call host it call w).1
  unfolding run_call
  Keeps-run_ahead it call w h licence =
      let (c, e) = the_checkpoint w.session.checkpoint h.1 in
      Keeps-started it call (host.clock w.ticks)
        (effective_tool_timeout host.policy w.session.agent_id it.tool)
        (checkpoint_tool_start host it call (ticked w)) (start-IsStarted it call (ticked w) c h e)

  ahead-IsOpen : IsOpen host agent Ahead
  ahead-IsOpen = record {
    stable = ahead_stable;
    of_agent = λ h. h.0;
    waits = λ state pending h. h;
    touched = λ t h. h;
    runs = Keeps-run_ahead;
  }

module _ (e : Engine) (agent : String) (durable : e.host.durable ≡ true)
    (sequential : e.parallel_tools ≡ false) where
  pub ahead_robust : IsRobust e (Ahead e.host agent durable)
  ahead_robust = record {
    stable = ahead_stable e.host agent durable;
    usage = λ u h. h;
    updated = λ t h. h;
    calls =
        Keeps-settle_calls e.host agent (Ahead e.host agent durable)
          (ahead-IsOpen e.host agent durable);
    parallel = λ catalog calls plans w w' on i same. absurd (cc);
  }

-- ===== src/Facade/Outcome.antt =====
-- How a run ends: the result, and the session that is stored (internal/engine/engine.go, Run).
use ia_harness.Base.{
  ◌≡◌, ◌≢◌, refl, ap, suc, Bool, true, false, IsInt64, lookup, Option, none, some, String, List,
  ◌∷◌, Result, ok, failed, if◌then◌else◌,
}
use ia_harness.Core.Message.{CheckpointStatus, PendingConfirmation, Session, TurnCheckpoint}
use ia_harness.Core.Config.{Error, RunRequest, StopReason, TurnResult}
use ia_harness.Turn.Machine.{Host, World, Action, saved, M, pure, go_on, ◌>>◌}
use ia_harness.Turn.Checkpoint.{store_session, save_session, final_status, finish_checkpoint}
use ia_harness.Turn.Engine.{Engine}
use ia_harness.Turn.Begin.{run_turn, spec_iterations}
use ia_harness.Turn.Bounded.{Ends, run_turn-Ends}
use ia_harness.Facade.{Start}
use ia_harness.Facade.Entry.{close_run, run_started}

-- The store took this session, and nothing happened after that.
pub data IsStored (s : Session) : List Action → Type 0 where
  stored : (before : List Action) → IsStored s (saved s ∷ before)

-- No call is written ahead any more. The turn waits for a human, or it is complete; a cancelled turn
-- may stay where it was.
abbrev pub IsStatus : Option PendingConfirmation → StopReason → CheckpointStatus → Type 0
IsStatus (some pending) stop status = status ≡ CheckpointStatus.awaiting_confirmation
IsStatus none stop status =
    ◌≢◌ {A = StopReason} stop StopReason.cancelled → status ≡ CheckpointStatus.completed

abbrev pub IsAtRest : StopReason → Option PendingConfirmation → Option TurnCheckpoint → Type 0
IsAtRest stop pending none = Unit
IsAtRest stop pending (some c) = (c.pending_call ≡ none) × IsStatus pending stop c.status

final-IsStatus :
    (host : Host) (pending : Option PendingConfirmation) (stop : StopReason)
    (status : CheckpointStatus)
    → IsStatus pending stop (final_status host pending stop status)
final-IsStatus host (some p) stop status = refl
final-IsStatus host none StopReason.cancelled status = λ other. absurd (other refl)
final-IsStatus host none StopReason.none status = λ other. refl
final-IsStatus host none StopReason.completed status = λ other. refl
final-IsStatus host none StopReason.max_iterations status = λ other. refl
final-IsStatus host none StopReason.budget status = λ other. refl
final-IsStatus host none StopReason.error status = λ other. refl

module _ (e : Engine) (resumed : Bool) where
  abbrev pub IsClosed : Result Error (Option TurnResult) × World → Type 0
  IsClosed (failed x, w) = Unit
  IsClosed (ok none, w) = ⊥
  IsClosed (ok (some r), w) =
      (r.resumed ≡ resumed)
      × IsStored w.session w.trace
      × (e.host.durable ≡ true → IsAtRest r.stop_reason w.session.pending w.session.checkpoint)

  -- The checkpoint rests, where the host is durable.
  abbrev Rests : StopReason → World → Type 0
  Rests stop w = e.host.durable ≡ true → IsAtRest stop w.session.pending w.session.checkpoint

  save-IsClosed :
      (answer : Option String) (r : TurnResult) (w : World)
      → Rests r.stop_reason w
      → IsClosed (
          go_on
            (store_session e.host answer w.session w)
            (λ u. pure (some (record r { resumed = resumed }))))
  save-IsClosed none r w h = (refl, stored w.trace, h)
  save-IsClosed (some x) r w h = tt

  saved-IsClosed :
      (r : TurnResult) (u : Result Error (Unit {0}) × World)
      → Rests r.stop_reason u.1
      → IsClosed
          (go_on u (λ v. (save_session e.host >> pure (some (record r { resumed = resumed })))))
  unfolding save_session
  saved-IsClosed r (failed x, w) h = tt
  saved-IsClosed r (ok u, w) h = save-IsClosed (e.host.save w.trace w.session) r w h

  finish-Rests : (stop : StopReason) (w : World) → Rests stop (finish_checkpoint e.host stop w).1
  unfolding finish_checkpoint
  finish-Rests stop w = go e.host.durable w.session.checkpoint refl
    where
      close : TurnCheckpoint → M (Unit {0})
      close c v = (
        ok tt,
        record v {
          session = record v.session {
            checkpoint = some (record c {
              pending_call = none;
              status = final_status e.host v.session.pending stop c.status;
              updated_at = e.host.clock v.ticks;
            });
          };
          ticks = suc v.ticks;
        },
      )

      end : Bool → Option TurnCheckpoint → World
      end durable c =
          ((if durable then elim c [ none ↦ pure tt | some x ↦ close x ] else pure tt) w).1

      go :
          (durable : Bool) (c : Option TurnCheckpoint)
          → w.session.checkpoint ≡ c
          → durable ≡ true
          → IsAtRest stop (end durable c).session.pending (end durable c).session.checkpoint
      go false c same on = absurd (cc)
      go true none same on = rw same tt
      go true (some c) same on = (refl, final-IsStatus e.host w.session.pending stop c.status)

  close_run-IsClosed : (r : TurnResult) (w : World) → IsClosed (close_run e resumed (some r) w)
  unfolding close_run
  close_run-IsClosed r w =
      saved-IsClosed r (finish_checkpoint e.host r.stop_reason w) (finish-Rests r.stop_reason w)

  turn-IsClosed :
      (t : Result Error (Option TurnResult) × World)
      → Ends t
      → IsClosed (go_on t (close_run e resumed))
  unfolding close_run
  turn-IsClosed (failed x, w) h = tt
  turn-IsClosed (ok none, w) h = h
  turn-IsClosed (ok (some r), w) h = close_run-IsClosed r w

-- A run that was let in ends, whatever the ports do: with an error, or with a result that says
-- whether the run resumed an interrupted one. In the second case its last action is that the store
-- took the session as it is then. Where the host is durable, the checkpoint in it, if there is one,
-- names no call that was written ahead; it waits for a human where the session has a pending
-- confirmation, and is complete otherwise, unless the turn was cancelled. The limit on iterations
-- is an int64.
pub run_started-IsClosed :
    (e : Engine) (req : RunRequest) (start : Start) (w : World)
    → w.session ≡ start.session
    → IsInt64 (spec_iterations (lookup start.session.agent_id e.host.agents) req.max_iterations)
    → IsClosed e start.resumed (run_started e req start w)
unfolding run_started
run_started-IsClosed e req start w same fits =
    turn-IsClosed e start.resumed (run_turn e (record req { input = start.input }) none w) (
      run_turn-Ends e (record req { input = start.input }) none w
        (rw (ap (λ s. s.agent_id) same) fits))

-- ===== src/Turn/Durable.antt =====
-- A whole durable turn, from its first step: the loop, the checkpoint that it begins with and the call
-- that a human approved (loop.go, runTurn; checkpoint.go, beginCheckpoint).
use ia_harness.Base.{
  ℕ, suc, pos, Result, ok, failed, arith, sym, ◌∙◌, ◌≡◌, refl, ap, true, false, not, ◌||◌, inl, inr,
  Bool-cases, Option, none, some, String, List, [], ◌∷◌,
}
use ia_harness.Core.Message.{CheckpointStatus, Part, PendingCall, Session, ToolCall, TurnCheckpoint}
use ia_harness.Core.Config.{Decision, Error, RunRequest}
use ia_harness.Budget.{TurnBudget}
use ia_harness.Turn.Machine.{InstalledTool, World, Action, M, go_on}
use ia_harness.Turn.Checkpoint.{begin_checkpoint, is_running}
use ia_harness.Turn.Recovery.{reconcile_pending, reconcile_checkpoint}
use ia_harness.Turn.Memory.{memory_messages}
use ia_harness.Turn.Engine.{Engine}
use ia_harness.Turn.Begin.{turn_catalog, add_input, with_catalog, run_turn}
use ia_harness.Turn.Frame.{Fact, Holds, Keeps, with_new, Keeps-save_checkpoint, ticked}
use ia_harness.Turn.WriteAhead.{IsAhead, IsAhead-more, has_checkpoint, Ahead, ahead_stable}
use ia_harness.Turn.Opening.{Keeps-turn_catalog, Keeps-memory_messages}
use ia_harness.Turn.Replay.{with_checkpoint-cases}
use ia_harness.Turn.Resumed.{Keeps-with_output}

-- The call that an interrupted turn left, if any.
abbrev pub call_left : Option TurnCheckpoint → Option PendingCall
call_left none = none
call_left (some c) = c.pending_call

running-has_checkpoint : (c : Option TurnCheckpoint) → is_running c ≡ true → has_checkpoint c ≡ true
running-has_checkpoint none h = h
running-has_checkpoint (some c) h = refl

module _ (e : Engine) (agent : String) (durable : e.host.durable ≡ true)
    (sequential : e.parallel_tools ≡ false) where
  abbrev Calm : Fact
  Calm s l = (s.agent_id ≡ agent) × (call_left s.checkpoint ≡ none) × IsAhead l

  Keeps-opening : (input : List Part) → Keeps Calm (add_input e input)
  unfolding add_input
  Keeps-opening [] w h = h
  Keeps-opening (p ∷ ps) w h = h

  pending-Calm :
      (catalog : List InstalledTool) (p : Option PendingCall) (w : World)
      → p ≡ none
      → Holds Calm w
      → Holds Calm (reconcile_pending e.host catalog p w).1
  unfolding reconcile_pending
  pending-Calm catalog none w nothing h = h
  pending-Calm catalog (some p) w nothing h = absurd (cc)

  Keeps-reconciled :
      (catalog : List InstalledTool) → Keeps Calm (reconcile_checkpoint e.host catalog)
  unfolding reconcile_checkpoint
  Keeps-reconciled catalog w h =
      with_checkpoint-cases e.host (Holds Calm)
        (λ c. reconcile_pending e.host catalog c.pending_call) w h
        λ c same. pending-Calm catalog c.pending_call w (ap call_left (sym same) ∙ h.1) h

  -- Where a new turn has its checkpoint, that is not yet saved.
  abbrev fresh_turn : World → World
  fresh_turn w =
      with_new (record w { ids = suc w.ids })
        (record {
          turn_id = e.host.new_id w.ids;
          status = CheckpointStatus.running;
          step = pos 0;
          updated_at = pos 0;
          pending_call = none;
        })

  begin_checkpoint-Ahead :
      (w : World) → Holds Calm w → Holds (Ahead e.host agent durable) (begin_checkpoint e.host w).1
  unfolding begin_checkpoint
  begin_checkpoint-Ahead w (of_agent, left, h) =
      elim (Bool-cases (not e.host.durable || is_running w.session.checkpoint)) [
        | inl running ↦
            rw running (of_agent, running-has_checkpoint _ (ground (arith, durable, running)), h)
        | inr fresh ↦ rw fresh (
            Keeps-save_checkpoint e.host (Ahead e.host agent durable)
              (ahead_stable e.host agent durable).steady (fresh_turn w) (of_agent, refl, h))
      ]

  -- From one fact to the next: both hold the order of the trace.
  go_on-IsAhead :
      {A B : Type 0} (P : Fact) (r : Result Error A × World) (k : A → M B)
      → ((s : Session) (l : List Action) → P s l → IsAhead l)
      → Holds P r.1
      → ((a : A) (w : World) → Holds P w → IsAhead (k a w).1.trace)
      → IsAhead (go_on r k).1.trace
  go_on-IsAhead P (ok a, w) k ahead h each = each a w h
  go_on-IsAhead P (failed x, w) k ahead h each = ahead w.session w.trace h

  turn-IsAhead :
      (turns : ℕ) (budget : TurnBudget) (req : RunRequest) (resume : Option (ToolCall × Decision))
      (catalog : List InstalledTool) (w : World)
      → Holds Calm w
      → IsAhead (with_catalog e turns budget req resume catalog w).1.trace
  unfolding with_catalog
  turn-IsAhead turns budget req resume catalog w h =
      go_on-IsAhead Calm (reconcile_checkpoint e.host catalog w) _ (λ s l h. h.2)
        (Keeps-reconciled catalog w h)
        λ u v i.
          go_on-IsAhead Calm (add_input e req.input v) _ (λ s l h. h.2)
            (Keeps-opening req.input v i)
            λ u' v' i'.
              let P = Ahead e.host agent durable in
              go_on-IsAhead P (begin_checkpoint e.host v') _ (λ s l h. h.2)
                (begin_checkpoint-Ahead v' i')
                λ u'' x j.
                  go_on-IsAhead P (memory_messages e req.input x) _ (λ s l h. h.2)
                    (Keeps-memory_messages e P req.input x j)
                    λ memory y k.
                      (Keeps-with_output e agent durable sequential turns catalog req.output_schema
                        resume _ _ y k).2

  -- A durable turn without parallel calls, in a session where no call was interrupted, calls a tool only after the
  -- store took a session with a checkpoint that names that very call, its tool and its mark of idempotence, and
  -- only the event of the checkpoint stands between the two. It holds from the first step of the turn to its last,
  -- for the call that a human approved and for those of the loop, and for every store, one that fails at any time
  -- included.
  pub run_turn-IsAhead :
      (req : RunRequest) (resume : Option (ToolCall × Decision)) (w : World)
      → w.session.agent_id ≡ agent
      → call_left w.session.checkpoint ≡ none
      → IsAhead w.trace
      → IsAhead (run_turn e req resume w).1.trace
  unfolding run_turn
  run_turn-IsAhead req resume w of_agent nothing h =
      go_on-IsAhead Calm (turn_catalog e (ticked w)) _ (λ s l h. h.2)
        (Keeps-turn_catalog e Calm
          (λ s l a not_call (same, left, i). (same, left, IsAhead-more a l not_call i)) (ticked w)
          (of_agent, nothing, h))
        λ catalog v i. turn-IsAhead _ _ req resume catalog v i

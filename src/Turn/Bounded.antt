-- ===== src/Turn/Bounded.antt =====
-- A turn ends: its budget lets through no more rounds than the limit on iterations (loop.go, budget.go).
use mathlib.Core.Path.{subst}
use ia_harness.Base.{
  ℕ, zero, suc, ◌-◌, ◌≤◌, ◌<◌, ℤ, pos, max_int64, IsInt64, ◌≡◌, refl, sym, ◌∙◌, true, arith, Option,
  none, some, String, List, ◌++◌, lookup, Result, ok, failed,
}
use ia_harness.Core.Message.{Time, Bytes, ToolCall}
use ia_harness.Core.Config.{Budget, Decision, Error, RunRequest, TurnResult}
use ia_harness.Budget.{TurnBudget, new, start_iteration, can_iterate}
use ia_harness.Budget.Limits.{count_up, can_iterate-ltb}
use ia_harness.Turn.Machine.{InstalledTool, World, M, pure, go_on}
use ia_harness.Turn.Engine.{Engine, Task, Locals, Flow, again, ended}
use ia_harness.Turn.Rounds.{round, continue, turn_loop}
use ia_harness.Turn.Begin.{
  turn_catalog, add_input, after_resume, resume_turn, with_output, with_catalog, run_turn,
  first_locals, allowed_rounds, spec_iterations,
}
use ia_harness.Turn.Frame.{Fact, ticked}
use ia_harness.Turn.Calls.{Settled, answered, paused}
use ia_harness.Turn.Recovery.{reconcile_checkpoint, resume_call}
use ia_harness.Turn.Checkpoint.{begin_checkpoint}
use ia_harness.Turn.Memory.{memory_messages}
use ia_harness.Turn.Robust.{IsRobust}
use ia_harness.Turn.Lasting.{IsRound, round-IsRound}

abbrev Anything : Fact
Anything s l = Unit

anything : (e : Engine) → IsRobust e Anything
anything e = record {
  stable = record {
    steady = record { act = λ a h i. tt; checkpoint = λ c c' same status i. tt };
    message = λ m i. tt;
  };
  usage = λ u i. tt;
  updated = λ t i. tt;
  calls = λ catalog calls w i. tt;
  parallel = λ catalog calls plans w w' on i same. tt;
}

-- The turn gave a result or an error: its fuel did not run out.
abbrev pub Ends : Result Error (Option TurnResult) × World → Type 0
Ends (ok none, w) = ⊥
Ends (ok (some r), w) = Unit
Ends (failed x, w) = Unit

-- How many rounds of the limit are spent.
abbrev HasCount : ℕ → ℕ → TurnBudget → Type 0
HasCount k m b = (b.iterations ≡ pos k) × (b.max_iterations ≡ pos m)

can-lt : (k m : ℕ) (b : TurnBudget) → HasCount k m b → can_iterate b ≡ true → k < m
can-lt k m b (i, n) can = ground (arith, can_iterate-ltb k m b i n)

counted :
    (k m : ℕ) (b : TurnBudget)
    → HasCount k m b
    → k < m
    → m ≤ max_int64
    → HasCount (suc k) m (start_iteration b)
unfolding start_iteration
counted k m b (i, n) lt fits = (rw i (count_up k (omega arith)), n)

module _ (e : Engine) (t : Task) where
  continue-Ends :
      (fuel k m : ℕ) (b : TurnBudget) (r : Result Error Flow × World)
      → HasCount k m b
      → m ≤ max_int64
      → IsRound e t Anything (anything e) b r
      → ((l : Locals) (w : World)
          → HasCount (suc k) m l.budget
          → k < m
          → Ends (turn_loop e t fuel l w))
      → Ends (go_on r (continue e t (turn_loop e t fuel)))
  continue-Ends fuel k m b (failed x, w) c fits i rest = tt
  continue-Ends fuel k m b (ok (ended r), w) c fits i rest = tt
  continue-Ends fuel k m b (ok (again l), w) c fits (x, (can, (its, max))) rest =
      let lt = can-lt k m b c can in
      let c' = counted k m b c lt fits in rest l w (its ∙ c'.0, max ∙ c'.1) lt

  turn_loop-Ends :
      (fuel k m : ℕ) (l : Locals) (w : World)
      → HasCount k m l.budget
      → m ≤ max_int64
      → m - k < fuel
      → Ends (turn_loop e t fuel l w)
  unfolding turn_loop
  turn_loop-Ends zero k m l w c fits short = absurd (omega arith)
  turn_loop-Ends (suc fuel) k m l w c fits short =
      continue-Ends fuel k m l.budget (round e t l w) c fits
        (round-IsRound e t Anything (anything e) l w tt)
        λ l' w' c' lt. turn_loop-Ends fuel (suc k) m l' w' c' fits (omega arith)

Ends-go_on :
    {A : Type 0} (r : Result Error A × World) (k : A → M (Option TurnResult))
    → ((a : A) (w : World) → Ends (k a w))
    → Ends (go_on r k)
Ends-go_on (ok a, w) k each = each a w
Ends-go_on (failed x, w) k each = tt

new-HasCount :
    (b : Budget) (limit : ℤ) (now : Time)
    → IsInt64 limit
    → (m : ℕ) × HasCount 0 m (new b limit now) × (m ≤ max_int64) × (m ≡ allowed_rounds limit)
unfolding new
new-HasCount b limit now fits = (allowed_rounds limit, (refl, ground arith), ground arith, refl)

module _ (e : Engine) where
  resumed-budget : (l : Locals) (settled : Settled) → (after_resume e l settled).budget ≡ l.budget
  resumed-budget l paused = refl
  resumed-budget l (answered m x) = refl

  resumed-Ends :
      (t : Task) (turns m : ℕ) (l : Locals) (r : Result Error Settled × World)
      → HasCount 0 m l.budget
      → m ≤ max_int64
      → m < turns
      → Ends (
          go_on
            (go_on r (λ settled. pure (after_resume e l settled)))
            (λ l'. turn_loop e t turns l'))
  resumed-Ends t turns m l (ok settled, w) c fits enough =
      turn_loop-Ends e t turns 0 m (after_resume e l settled) w
        (subst (HasCount 0 m) (sym (resumed-budget l settled)) c) fits (omega (arith, enough))
  resumed-Ends t turns m l (failed x, w) c fits enough = tt

  with_output-Ends :
      (turns : ℕ) (catalog : List InstalledTool) (schema : Bytes)
      (resume : Option (ToolCall × Decision)) (m : ℕ) (l : Locals)
      (check : Result String (Option (Bytes → Option String))) (w : World)
      → HasCount 0 m l.budget
      → m ≤ max_int64
      → m < turns
      → Ends (with_output e turns catalog schema resume l check w)
  unfolding with_output resume_turn
  with_output-Ends turns catalog schema resume m l (failed x) w c fits enough = tt
  with_output-Ends turns catalog schema none m l (ok check) w c fits enough =
      turn_loop-Ends e _ turns 0 m l w c fits (omega (arith, enough))
  with_output-Ends turns catalog schema (some (call, d)) m l (ok check) w c fits enough =
      resumed-Ends (record { catalog = catalog; schema = schema; check_output = check }) turns m l
        (resume_call e.host catalog call d w) c fits enough

  with_catalog-Ends :
      (turns : ℕ) (budget : TurnBudget) (m : ℕ) (req : RunRequest)
      (resume : Option (ToolCall × Decision)) (catalog : List InstalledTool) (w : World)
      → HasCount 0 m budget
      → m ≤ max_int64
      → m < turns
      → Ends (with_catalog e turns budget req resume catalog w)
  unfolding with_catalog
  with_catalog-Ends turns budget m req resume catalog w c fits enough =
      Ends-go_on (reconcile_checkpoint e.host catalog w) _ λ u v.
        Ends-go_on (add_input e req.input v) _ λ u' v'.
          Ends-go_on (begin_checkpoint e.host v') _ λ u'' v''.
            Ends-go_on (memory_messages e req.input v'') _ λ memory x.
              with_output-Ends turns catalog req.output_schema resume m
                (first_locals e budget (memory ++ x.session.messages) x.session.model) _ x c fits
                enough

  -- A turn ends, with a result or an error, whatever the models, the tools and the host do: its
  -- loop is entered at most once more than the limit on iterations says, which is that of the
  -- request, or of the agent where the request has none, or 8. The loop of the model is cut off
  -- without a result where it is entered more often, and it never is.
  pub run_turn-Ends :
      (req : RunRequest) (resume : Option (ToolCall × Decision)) (w : World)
      → IsInt64 (spec_iterations (lookup w.session.agent_id e.host.agents) req.max_iterations)
      → Ends (run_turn e req resume w)
  unfolding run_turn
  run_turn-Ends req resume w fits =
      let limit = spec_iterations (lookup w.session.agent_id e.host.agents) req.max_iterations in
      let (m, c, small, same) = new-HasCount req.budget limit (e.host.clock w.ticks) fits in
      Ends-go_on (turn_catalog e (ticked w)) _ λ catalog v.
        with_catalog-Ends (suc (allowed_rounds limit)) (new req.budget limit (e.host.clock w.ticks))
          m req resume catalog v c small (omega (arith, same))

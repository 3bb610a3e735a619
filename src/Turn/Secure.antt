-- ===== src/Turn/Secure.antt =====
-- A whole turn calls a tool only with a licence: the loop of runTurn.
use mathlib.Core.Path.{subst}
use ia_harness.Base.{Result, ℕ, ◌≡◌, inl, String, List, ◌∷◌, [], All, ok, some, Option}
use ia_harness.Core.Message.{ToolCall}
use ia_harness.Core.Config.{Error}
use ia_harness.Turn.Machine.{Host, InstalledTool, World}
use ia_harness.Turn.Parallel.{PlannedCall, plan_parallel, execute_parallel}
use ia_harness.Turn.Plans.{IsFree, plan_parallel-IsFree, SurvivesPlan, Keeps-execute_parallel}
use ia_harness.Turn.Engine.{Engine, Task, Locals}
use ia_harness.Turn.Rounds.{turn_loop}
use ia_harness.Turn.Frame.{Holds}
use ia_harness.Turn.Settling.{Keeps-settle_calls}
use ia_harness.Turn.Licence.{IsSafe, Safe, Any, safe_stable, safe-IsOpen}
use ia_harness.Turn.Robust.{IsRobust, Keeps-plan_parallel}
use ia_harness.Turn.Lasting.{Keeps-turn_loop}

free_survive :
    (host : Host) (agent : String) (plans : List PlannedCall)
    → All (IsFree host agent) plans
    → All (SurvivesPlan host (Safe host agent (Any host agent)) (safe_stable host agent)) plans
free_survive host agent [] all = tt
free_survive host agent (p ∷ ps) all = (
  λ w (of_agent, safe, any). (of_agent, ((all.0.0, inl all.0.1, all.0.2), safe), tt),
  free_survive host agent ps all.1,
)

module _ (e : Engine) (agent : String) where
  safe_parallel :
      (catalog : List InstalledTool) (calls : List ToolCall) (plans : List PlannedCall)
      (w w' : World)
      → Holds (Safe e.host agent (Any e.host agent)) w
      → plan_parallel e.host catalog w.session.agent_id calls w ≡ (ok (some plans), w')
      → Holds
          (Safe e.host agent (Any e.host agent))
          (execute_parallel e.host e.invocation_order plans w').1
  safe_parallel catalog calls plans w w' i same =
      Keeps-execute_parallel e.host (Safe e.host agent (Any e.host agent))
        (safe_stable e.host agent) e.invocation_order plans
        (free_survive e.host agent plans (
          plan_parallel-IsFree e.host agent catalog calls plans w w' (
            subst (λ (a : String). plan_parallel e.host catalog a calls w ≡ (ok (some plans), w'))
              i.0 same)))
        w'
        (subst
          (λ (r : Result Error (Option (List PlannedCall)) × World).
            Holds (Safe e.host agent (Any e.host agent)) r.1)
          same
          (Keeps-plan_parallel e.host (Safe e.host agent (Any e.host agent)) catalog
            w.session.agent_id calls w i))

  safe_robust : IsRobust e (Safe e.host agent (Any e.host agent))
  safe_robust = record {
    stable = safe_stable e.host agent;
    usage = λ u h. h;
    updated = λ t h. h;
    calls =
        Keeps-settle_calls e.host agent (Safe e.host agent (Any e.host agent))
          (safe-IsOpen e.host agent);
    parallel = λ catalog calls plans w w' on. safe_parallel catalog calls plans w w';
  }

  -- Whatever the models ask for and the host answers, and whichever way the calls of a response run,
  -- one after the other or at the same time, the loop of a turn calls a tool only where the policy
  -- of the agent allows it, its arguments pass the validator, and a human approved the call before
  -- if the policy wants that: a safe trace stays safe.
  pub turn_loop-IsSafe :
      (t : Task) (fuel : ℕ) (l : Locals) (w : World)
      → w.session.agent_id ≡ agent
      → IsSafe e.host agent w.trace
      → IsSafe e.host agent (turn_loop e t fuel l w).1.trace
  turn_loop-IsSafe t fuel l w of_agent safe =
      let (_, safe', _) =
        Keeps-turn_loop e t (Safe e.host agent (Any e.host agent)) safe_robust fuel l w
          (of_agent, safe, tt) in
      safe'

-- ===== src/Turn/Blind.antt =====
-- What a whole turn keeps of a session whatever is called: facts that do not look at the trace.
use mathlib.Core.Path.{subst}
use ia_harness.Base.{◌≡◌, Option, some, List, [], ◌∷◌, All, String, Result, ok}
use ia_harness.Core.Message.{
  CheckpointStatus, PendingConfirmation, Session, SessionState, Time, ToolCall, TurnCheckpoint,
  Usage,
}
use ia_harness.Core.Config.{Decision, Error, RunRequest}
use ia_harness.Turn.Machine.{InstalledTool, World, Action}
use ia_harness.Turn.Parallel.{PlannedCall, plan_parallel, execute_parallel}
use ia_harness.Turn.Plans.{SurvivesPlan, Keeps-execute_parallel}
use ia_harness.Turn.Engine.{Engine}
use ia_harness.Turn.Begin.{run_turn}
use ia_harness.Turn.Frame.{Fact, Holds, Keeps, Survives}
use ia_harness.Turn.Runs.{IsStable, Keeps-run_call}
use ia_harness.Turn.Settling.{IsOpen, Keeps-settle_calls}
use ia_harness.Turn.Robust.{IsRobust, Keeps-plan_parallel}
use ia_harness.Turn.Whole.{Keeps-run_turn}

-- A fact on a session of the agent that every change of a turn leaves.
pub record IsBlind (agent : String) (P : Fact) : Type 0 where
  pub stable : IsStable P
  pub of_agent : {s : Session} {l : List Action} → P s l → s.agent_id ≡ agent
  pub waits :
      {s : Session} {l : List Action} (state : SessionState) (pending : Option PendingConfirmation)
      → P s l
      → P (record s { state = state; pending = pending }) l
  pub updated :
      {s : Session} {l : List Action} (t : Time) → P s l → P (record s { updated_at = t }) l
  pub usage : {s : Session} {l : List Action} (u : Usage) → P s l → P (record s { usage = u }) l
  pub begins :
      (s : Session) (l : List Action) (c : TurnCheckpoint)
      → c.status ≡ CheckpointStatus.running
      → P s l
      → P (record s { checkpoint = some c }) l
  pub survives : (it : InstalledTool) (call : ToolCall) → Survives P it call

module _ (e : Engine) (agent : String) (P : Fact) (blind : IsBlind agent P) where
  every_plan : (plans : List PlannedCall) → All (SurvivesPlan e.host P blind.stable) plans
  every_plan [] = tt
  every_plan (p ∷ ps) = (λ w h. blind.survives p.it p.call _ _ h, every_plan ps)

  blind-IsOpen : IsOpen e.host agent P
  blind-IsOpen = record {
    stable = blind.stable;
    of_agent = blind.of_agent;
    waits = blind.waits;
    touched = blind.updated;
    runs = λ it call w h licence.
        Keeps-run_call e.host P blind.stable it call (blind.survives it call) w h;
  }

  blind_parallel :
      (catalog : List InstalledTool) (calls : List ToolCall) (plans : List PlannedCall)
      (w w' : World)
      → Holds P w
      → plan_parallel e.host catalog w.session.agent_id calls w ≡ (ok (some plans), w')
      → Holds P (execute_parallel e.host e.invocation_order plans w').1
  blind_parallel catalog calls plans w w' h same =
      Keeps-execute_parallel e.host P blind.stable e.invocation_order plans (every_plan plans) w' (
        subst (λ (r : Result Error (Option (List PlannedCall)) × World). Holds P r.1) same
          (Keeps-plan_parallel e.host P catalog w.session.agent_id calls w h))

  blind-IsRobust : IsRobust e P
  blind-IsRobust = record {
    stable = blind.stable;
    usage = blind.usage;
    updated = blind.updated;
    calls = Keeps-settle_calls e.host agent P blind-IsOpen;
    parallel = λ catalog calls plans w w' on. blind_parallel catalog calls plans w w';
  }

  pub Blind-run_turn :
      (req : RunRequest) (resume : Option (ToolCall × Decision)) → Keeps P (run_turn e req resume)
  Blind-run_turn = Keeps-run_turn e P blind-IsRobust blind.begins blind.survives

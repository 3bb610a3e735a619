-- ===== src/Turn/Robust.antt =====
-- What a whole turn keeps: facts that survive messages, usage and instants, and that the calls of a
-- response keep. Where a round goes on, it also leaves the count of the rounds alone.
use ia_harness.Base.{
  ltb, length, is_empty, ◌≡◌, refl, Bool, true, false, ◌&&◌, inl, inr, Option, none, some, String,
  str_eq, List, [], ◌∷◌, Result, ok, failed, Bool-cases, and-eq-true,
}
use ia_harness.Core.Message.{Time, Message, Part, Usage, ToolCall, Session}
use ia_harness.Core.Config.{ChatResponse, Error, StopReason, ToolExecution}
use ia_harness.Budget.{TurnBudget}
use ia_harness.Turn.Machine.{
  Host, InstalledTool, World, Action, told_error, recorded_model, told_usage, M, pure, go_on, ◌>>◌,
}
use ia_harness.Turn.Checkpoint.{checkpoint_step}
use ia_harness.Turn.Calls.{settle_calls, call_lookup_name, find_tool, with_id}
use ia_harness.Turn.Parallel.{PlannedCall, plan_call, plan_next, plan_parallel, execute_parallel}
use ia_harness.Turn.Engine.{Engine, Task, Locals, Flow, again, ended}
use ia_harness.Turn.Spending.{touch, append, record_model_call, spend, end_turn}
use ia_harness.Turn.Perform.{
  with_answers, after_calls, sequential, in_parallel, perform, conclude, act_on,
}
use ia_harness.Turn.Frame.{Fact, Holds, Keeps, Keeps-go_on, Keeps-checkpoint_step}
use ia_harness.Turn.Runs.{IsStable}

pub record IsRobust (e : Engine) (P : Fact) : Type 0 where
  pub stable : IsStable P
  pub usage : {s : Session} {l : List Action} (u : Usage) → P s l → P (record s { usage = u }) l
  pub updated :
      {s : Session} {l : List Action} (t : Time) → P s l → P (record s { updated_at = t }) l
  pub calls :
      (catalog : List InstalledTool) (calls : List ToolCall)
      → Keeps P (settle_calls e.host catalog calls)
  pub parallel :
      (catalog : List InstalledTool) (calls : List ToolCall) (plans : List PlannedCall)
      (w w' : World)
      → e.parallel_tools ≡ true
      → Holds P w
      → plan_parallel e.host catalog w.session.agent_id calls w ≡ (ok (some plans), w')
      → Holds P (execute_parallel e.host e.invocation_order plans w').1

-- A command whose values have a property.
abbrev pub OkIs {ℓ} : {A : Type 0} → (A → Type ℓ) → Result Error A × World → Type ℓ
OkIs Q (ok a, w) = Q a
OkIs Q (failed x, w) = Unit

abbrev pub Counts : TurnBudget → Locals → Type 0
Counts b l = (l.budget.iterations ≡ b.iterations) × (l.budget.max_iterations ≡ b.max_iterations)

abbrev pub FlowCounts : TurnBudget → Flow → Type 0
FlowCounts b (again l) = Counts b l
FlowCounts b (ended r) = Unit

abbrev pub IsGood : Fact → TurnBudget → Result Error Flow × World → Type 0
IsGood P b r = Holds P r.1 × OkIs (FlowCounts b) r

abbrev pub Good : Fact → TurnBudget → M Flow → Type 0
Good P b m = (w : World) → Holds P w → IsGood P b (m w)

pub Good-go_on :
    {A : Type 0} (P : Fact) (b : TurnBudget) (r : Result Error A × World) (k : A → M Flow)
    → Holds P r.1
    → ((a : A) → Good P b (k a))
    → IsGood P b (go_on r k)
Good-go_on P b (ok a, w) k i h = h a w i
Good-go_on P b (failed x, w) k i h = (i, tt)

-- Planning takes new ids, and nothing else.
module _ (host : Host) (P : Fact) where
  Keeps-plan_next :
      (plan : Option PlannedCall) (rest : M (Option (List PlannedCall)))
      → Keeps P rest
      → Keeps P (plan_next plan rest)
  Keeps-plan_next none rest h w i = i
  Keeps-plan_next (some p) rest h w i = Keeps-go_on P (rest w) _ (h w i) λ r v j. j

  Keeps-with_id : (call : ToolCall) → Keeps P (with_id host call)
  Keeps-with_id call w i = elim (Bool-cases (str_eq call.id "")) [
    | inl unnamed ↦ rw unnamed i
    | inr named ↦ rw named i
  ]

  pub Keeps-plan_parallel :
      (catalog : List InstalledTool) (agent_id : String) (calls : List ToolCall)
      → Keeps P (plan_parallel host catalog agent_id calls)
  unfolding plan_parallel
  Keeps-plan_parallel catalog agent_id [] w i = i
  Keeps-plan_parallel catalog agent_id (call ∷ calls) w i =
      Keeps-go_on P (with_id host call w)
        (λ named.
          plan_next (plan_call host (find_tool catalog (call_lookup_name named)) agent_id named)
            (plan_parallel host catalog agent_id calls))
        (Keeps-with_id call w i)
        λ named. Keeps-plan_next _ _ (Keeps-plan_parallel catalog agent_id calls)

module _ (e : Engine) (t : Task) (P : Fact) (robust : IsRobust e P) where
  pub Keeps-append : (m : Message) → Keeps P (append e.host m)
  unfolding append
  Keeps-append m w i = robust.stable.message m i

  pub Keeps-touch : Keeps P (touch e.host)
  unfolding touch
  Keeps-touch w i = robust.updated _ i

  pub Keeps-step : Keeps P (checkpoint_step e.host)
  Keeps-step = Keeps-checkpoint_step e.host P robust.stable.steady

  Keeps-record_model_call : (u : Usage) → Keeps P (record_model_call e.host u)
  unfolding record_model_call
  Keeps-record_model_call u w i = elim (Bool-cases (e.host.audit_fails w.trace)) [
    | inl failing ↦ rw failing (
        robust.stable.steady.act (told_error "audit") refl
          (robust.stable.steady.act (recorded_model u) refl i))
    | inr fine ↦ rw fine (robust.stable.steady.act (recorded_model u) refl i)
  ]

  pub Keeps-spend : (u : Usage) → Keeps P (spend e.host u)
  unfolding spend
  Keeps-spend u w i =
      Keeps-go_on P (record_model_call e.host u _) _
        (Keeps-record_model_call u _ (robust.usage _ i))
        λ x w' i'.
          Keeps-touch (record w' { trace = told_usage u ∷ w'.trace })
            (robust.stable.steady.act (told_usage u) refl i')

  pub Good-end_turn :
      (b : TurnBudget) (l : Locals) (output : List Part) (stop : StopReason)
      → Good P b (end_turn e.host l output stop)
  unfolding end_turn
  Good-end_turn b l output stop w i = (i, tt)

  Good-after_calls :
      (b : TurnBudget) (l : Locals) (answers : List Message × List ToolExecution × Bool)
      → Counts b l
      → Good P b (after_calls e t l answers)
  Good-after_calls b l (ms, es, true) c w i = (i, c)
  Good-after_calls b l (ms, es, false) c w i = (i, tt)

  Good-sequential :
      (b : TurnBudget) (calls : List ToolCall) (l : Locals)
      → Counts b l
      → Good P b (sequential e t calls l)
  unfolding sequential
  Good-sequential b calls l c w i =
      Good-go_on P b (settle_calls e.host t.catalog calls w) (after_calls e t l)
        (robust.calls t.catalog calls w i) λ answers. Good-after_calls b l answers c

  Good-planned :
      (b : TurnBudget) (calls : List ToolCall) (l : Locals)
      (r : Result Error (Option (List PlannedCall)) × World) (w : World)
      → Counts b l
      → e.parallel_tools ≡ true
      → Holds P w
      → Holds P r.1
      → plan_parallel e.host t.catalog w.session.agent_id calls w ≡ r
      → IsGood P b (go_on r (λ plans. in_parallel e t plans calls l))
  unfolding in_parallel
  Good-planned b calls l (failed x, w') w c on i i' same = (i', tt)
  Good-planned b calls l (ok none, w') w c on i i' same = Good-sequential b calls l c w' i'
  Good-planned b calls l (ok (some plans), w') w c on i i' same =
      Good-go_on P b (execute_parallel e.host e.invocation_order plans w')
        (λ answers. checkpoint_step e.host >> pure (again (with_answers e t l answers)))
        (robust.parallel t.catalog calls plans w w' on i same)
        λ answers v j.
          Good-go_on P b (checkpoint_step e.host v) (λ u. pure (again (with_answers e t l answers)))
            (Keeps-step v j) λ u x k. (k, c)

  Good-perform :
      (b : TurnBudget) (calls : List ToolCall) (l : Locals)
      → Counts b l
      → Good P b (perform e t calls l)
  unfolding perform
  Good-perform b calls l c w i = elim (Bool-cases (e.parallel_tools && ltb 1 (length calls))) [
    | inl many ↦
        let (on, _) = and-eq-true e.parallel_tools (ltb 1 (length calls)) many in
        let r = plan_parallel e.host t.catalog w.session.agent_id calls w in
        rw many (
          Good-planned b calls l r w c on i
            (Keeps-plan_parallel e.host P t.catalog w.session.agent_id calls w i) refl)
    | inr one ↦ rw one (Good-sequential b calls l c w i)
  ]

  Good-conclude :
      (b : TurnBudget) (wrong : Option String) (assistant : Message) (l : Locals)
      → Good P b (conclude e t wrong assistant l)
  unfolding conclude
  Good-conclude b (some x) assistant l w i = (i, tt)
  Good-conclude b none assistant l w i = Good-end_turn b l assistant.parts StopReason.completed w i

  pub Good-act_on :
      (b : TurnBudget) (resp : ChatResponse) (assistant : Message) (l : Locals)
      → Counts b l
      → Good P b (act_on e t resp assistant l)
  unfolding act_on
  Good-act_on b resp assistant l c w i = elim (Bool-cases (is_empty resp.tool_calls)) [
    | inl nothing ↦ rw nothing (Good-conclude b _ assistant l w i)
    | inr calls ↦ rw calls (Good-perform b resp.tool_calls l c w i)
  ]

-- ===== src/Turn/Plans.antt =====
-- What a plan of parallel calls is: every call in it may run without a human (parallel.go).
use mathlib.Core.Path.{subst}
use mathlib.Core.Option.{some_inj}
use ia_harness.Base.{
  zero, suc, ℕ, ◌≡◌, refl, Bool, true, false, inl, inr, Option, none, some, String, str_eq, List,
  [], ◌∷◌, All, Result, ok, failed, Bool-cases, arith, length,
}
use ia_harness.Core.Message.{Message, ToolCall, ToolResult}
use ia_harness.Core.Config.{Error, ToolExecution, ToolStatus}
use ia_harness.Policy.{PolicyDecision, authorize}
use ia_harness.Turn.Machine.{
  Host, InstalledTool, World, Action, called, told_call, M, pure, go_on, milliseconds,
}
use ia_harness.Turn.Calls.{
  Settled, call_lookup_name, find_tool, invalid_args, outcome, answer, settle_rest, answered,
  paused,
}
use ia_harness.Turn.Parallel.{
  PlannedCall, ParallelOutcome, no_outcome, nth, write_at, approved_plan, valid_plan, plan_call,
  plan_next, plan_parallel, tell_calls, run_planned, run_place, run_all, collect_one, collect,
  execute_parallel,
}
use ia_harness.Turn.Frame.{Fact, Holds, Keeps, Keeps-go_on, Keeps-outcome}
use ia_harness.Turn.Runs.{IsStable, Keeps-answer}

module _ (host : Host) (agent : String) where
  -- The policy lets the agent make the call without a human, and its arguments are valid.
  abbrev pub IsFree : PlannedCall → Type 0
  IsFree p =
      ((authorize host.agents host.policy agent p.it.tool).allowed ≡ true)
      × ((authorize host.agents host.policy agent p.it.tool).requires_confirmation ≡ false)
      × (invalid_args p.it p.call.args ≡ none)

  approved_plan-IsFree :
      (d : PolicyDecision) (it : InstalledTool) (call : ToolCall) (p : PlannedCall)
      → authorize host.agents host.policy agent it.tool ≡ d
      → invalid_args it call.args ≡ none
      → approved_plan host d it call ≡ some p
      → IsFree p
  approved_plan-IsFree d it call p e v h =
      let own : IsFree (record { call = call; it = it }) =
        (rw e (ground arith), rw e (ground arith), v) in
      let same : ◌≡◌ {A = PlannedCall} (record { call = call; it = it }) p = ground arith in
      subst IsFree same own

  valid_plan-IsFree :
      (wrong : Option String) (it : InstalledTool) (call : ToolCall) (p : PlannedCall)
      → invalid_args it call.args ≡ wrong
      → valid_plan host wrong agent it call ≡ some p
      → IsFree p
  valid_plan-IsFree (some x) it call p e h = cc
  valid_plan-IsFree none it call p e h = approved_plan-IsFree _ it call p refl e h

  plan_call-IsFree :
      (found : Option InstalledTool) (call : ToolCall) (p : PlannedCall)
      → plan_call host found agent call ≡ some p
      → IsFree p
  unfolding plan_call
  plan_call-IsFree none call p h = cc
  plan_call-IsFree (some it) call p h =
      valid_plan-IsFree (invalid_args it call.args) it call p refl h

  abbrev AllFree : Result Error (Option (List PlannedCall)) × World → Type 0
  AllFree (failed x, w) = Unit
  AllFree (ok none, w) = Unit
  AllFree (ok (some plans), w) = All IsFree plans

  prepend_free :
      (p : PlannedCall) (r : Result Error (Option (List PlannedCall)) × World)
      → IsFree p
      → AllFree r
      → AllFree (go_on r (λ plans. pure (elim plans [ none ↦ none | some ps ↦ some (p ∷ ps) ])))
  prepend_free p (failed x, w) f h = tt
  prepend_free p (ok none, w) f h = tt
  prepend_free p (ok (some ps), w) f h = (f, h)

  plan_next-AllFree :
      (plan : Option PlannedCall) (rest : M (Option (List PlannedCall))) (w : World)
      → ((p : PlannedCall) → plan ≡ some p → IsFree p)
      → AllFree (rest w)
      → AllFree (plan_next plan rest w)
  plan_next-AllFree none rest w f h = tt
  plan_next-AllFree (some p) rest w f h = prepend_free p (rest w) (f p refl) h

  plan_parallel-AllFree :
      (catalog : List InstalledTool) (calls : List ToolCall) (w : World)
      → AllFree (plan_parallel host catalog agent calls w)
  unfolding plan_parallel
  plan_parallel-AllFree catalog [] w = tt
  plan_parallel-AllFree catalog (call ∷ calls) w = elim (Bool-cases (str_eq call.id "")) [
    | inl unnamed ↦
        let named = record call { id = host.new_id w.ids } in
        let found = find_tool catalog (call_lookup_name named) in
        rw unnamed (
          plan_next-AllFree (plan_call host found agent named)
            (plan_parallel host catalog agent calls) (record w { ids = suc w.ids })
            (plan_call-IsFree found named)
            (plan_parallel-AllFree catalog calls (record w { ids = suc w.ids })))
    | inr named ↦
        let found = find_tool catalog (call_lookup_name call) in
        rw named (
          plan_next-AllFree (plan_call host found agent call)
            (plan_parallel host catalog agent calls) w (plan_call-IsFree found call)
            (plan_parallel-AllFree catalog calls w))
  ]

  pub plan_parallel-IsFree :
      (catalog : List InstalledTool) (calls : List ToolCall) (plans : List PlannedCall)
      (w w' : World)
      → plan_parallel host catalog agent calls w ≡ (ok (some plans), w')
      → All IsFree plans
  plan_parallel-IsFree catalog calls plans w w' e =
      subst AllFree e (plan_parallel-AllFree catalog calls w)

module _ (host : Host) (P : Fact) (stable : IsStable P) where
  Keeps-tell_calls : (plans : List PlannedCall) → Keeps P (tell_calls host plans)
  unfolding tell_calls
  Keeps-tell_calls [] w i = i
  Keeps-tell_calls (p ∷ ps) w i =
      Keeps-tell_calls ps (record w { trace = told_call p.call.id ∷ w.trace })
        (stable.steady.act (told_call p.call.id) refl i)

  -- The fact survives this call.
  abbrev pub SurvivesPlan : PlannedCall → Type 0
  SurvivesPlan p = (w : World) → Holds P w → P w.session (called p.it p.call ∷ w.trace)

  Keeps-run_planned : (p : PlannedCall) → SurvivesPlan p → Keeps P (run_planned host p)
  unfolding run_planned
  Keeps-run_planned p survives w i = survives w i

  Keeps-run_place :
      (i : ℕ) (p : Option PlannedCall) (outcomes : ℕ → ParallelOutcome)
      → ((q : PlannedCall) → p ≡ some q → SurvivesPlan q)
      → Keeps P (run_place host i p outcomes)
  unfolding run_place
  Keeps-run_place i none outcomes survives w h = h
  Keeps-run_place i (some p) outcomes survives w h =
      Keeps-go_on P (run_planned host p w) (λ out. pure (write_at i out outcomes))
        (Keeps-run_planned p (survives p refl) w h) λ o v j. j

  nth-survives :
      (plans : List PlannedCall) (i : ℕ) (q : PlannedCall)
      → All SurvivesPlan plans
      → nth plans i ≡ some q
      → SurvivesPlan q
  nth-survives [] i q all e = cc
  nth-survives (p ∷ ps) zero q all e = subst SurvivesPlan (some_inj.0 e) all.0
  nth-survives (p ∷ ps) (suc i) q all e = nth-survives ps i q all.1 e

  Keeps-run_all :
      (plans : List PlannedCall) (order : List ℕ) (outcomes : ℕ → ParallelOutcome)
      → All SurvivesPlan plans
      → Keeps P (run_all host plans order outcomes)
  unfolding run_all
  Keeps-run_all plans [] outcomes all w h = h
  Keeps-run_all plans (i ∷ is) outcomes all w h =
      Keeps-go_on P (run_place host i (nth plans i) outcomes w) (run_all host plans is)
        (Keeps-run_place i (nth plans i) outcomes (λ q. nth-survives plans i q all) w h)
        λ outcomes'. Keeps-run_all plans is outcomes' all

  Keeps-answered :
      (p : PlannedCall) (out : ParallelOutcome) (r : Result Error (ToolResult × ToolStatus) × World)
      → Holds P r.1
      → Holds P (go_on r (λ x. answer host p.call p.it.key x.0 x.1 (milliseconds out.latency))).1
  Keeps-answered p out (failed x, w) h = h
  Keeps-answered p out (ok (res, status), w) h =
      Keeps-answer host P stable p.call p.it.key res status (milliseconds out.latency) w h

  Keeps-collect_one : (p : PlannedCall) (out : ParallelOutcome) → Keeps P (collect_one host p out)
  unfolding collect_one
  Keeps-collect_one p out w h =
      Keeps-answered p out (outcome host p.it p.call out.result w)
        (Keeps-outcome host P stable.steady p.it p.call out.result w h)

  Keeps-rest :
      (rest : M (List Message × List ToolExecution × Bool)) (settled : Settled)
      → Keeps P rest
      → Keeps P (settle_rest rest settled)
  Keeps-rest rest paused k w h = h
  Keeps-rest rest (answered m e) k w h = Keeps-go_on P (rest w) _ (k w h) λ r v j. j

  Keeps-collect :
      (plans : List PlannedCall) (i : ℕ) (outcomes : ℕ → ParallelOutcome)
      → Keeps P (collect host plans i outcomes)
  unfolding collect
  Keeps-collect [] i outcomes w h = h
  Keeps-collect (p ∷ ps) i outcomes w h =
      Keeps-go_on P (collect_one host p (outcomes i) w)
        (settle_rest (collect host ps (suc i) outcomes)) (Keeps-collect_one p (outcomes i) w h)
        λ settled.
          Keeps-rest (collect host ps (suc i) outcomes) settled (Keeps-collect ps (suc i) outcomes)

  pub Keeps-execute_parallel :
      (order : List Action → ℕ → List ℕ) (plans : List PlannedCall)
      → All SurvivesPlan plans
      → Keeps P (execute_parallel host order plans)
  unfolding execute_parallel
  Keeps-execute_parallel order plans all w h =
      Keeps-go_on P (tell_calls host plans w) _ (Keeps-tell_calls plans w h) λ u v j.
        Keeps-go_on P (run_all host plans (order v.trace (length plans)) (λ i. no_outcome) v)
          (collect host plans 0) (Keeps-run_all plans _ _ all v j) (Keeps-collect plans 0)

-- ===== src/Turn/Outcomes.antt =====
-- The outcomes of calls that run at the same time belong to their calls (parallel.go).
use mathlib.Core.Option.{some_inj}
use mathlib.Core.Path.{subst}
use ia_harness.Base.{
  zero, suc, ℕ, ◌+◌, ◌<◌, ◌==◌, eq_of_==, ◌≡◌, refl, sym, ap, ◌∙◌, ◌⊎◌, inl, inr, Option, none,
  some, String, List, [], ◌∷◌, ◌-ℤ◌, length, arith, Result, ok, failed, Bool-cases,
}
use ia_harness.Core.Message.{Message, ToolResult}
use ia_harness.Core.Config.{Error}
use ia_harness.Policy.{effective_tool_timeout}
use ia_harness.Turn.Machine.{Host, World, called, go_on}
use ia_harness.Turn.Calls.{with_call_id, call_tool}
use ia_harness.Turn.Parallel.{
  PlannedCall, ParallelOutcome, nth, write_at, run_planned, run_place, run_all,
}

-- A place in the order of the goroutines.
abbrev pub IsIn : ℕ → List ℕ → Type 0
IsIn j [] = ⊥
IsIn j (i ∷ is) = (i ≡ j) ⊎ IsIn j is

-- An outcome that belongs to the call: an error of transport, or a result under its id.
abbrev pub HasId : String → Result String ToolResult → Type 0
HasId id (ok res) = res.call_id ≡ id
HasId id (failed x) = Unit

pub with_call_id-HasId : (id : String) (r : Result String ToolResult) → HasId id (with_call_id id r)
with_call_id-HasId id (ok res) = refl
with_call_id-HasId id (failed x) = tt

abbrev pub Fits : List PlannedCall → ℕ → (ℕ → ParallelOutcome) → Type 0
Fits [] i outcomes = Unit
Fits (p ∷ ps) i outcomes = HasId p.call.id (outcomes i).result × Fits ps (suc i) outcomes

abbrev pub FitsAt : List PlannedCall → (ℕ → ParallelOutcome) → (ℕ → ℕ) → Type 0
FitsAt plans outcomes place =
    (j : ℕ) (p : PlannedCall) → nth plans j ≡ some p → HasId p.call.id (outcomes (place j)).result

pub from-Fits :
    (plans : List PlannedCall) (i : ℕ) (outcomes : ℕ → ParallelOutcome)
    → FitsAt plans outcomes (λ j. i + j)
    → Fits plans i outcomes
from-Fits [] i outcomes h = tt
from-Fits (p ∷ ps) i outcomes h =
    let here : i + 0 ≡ i = omega arith in
    (
      subst (λ (n : ℕ). HasId p.call.id (outcomes n).result) here (h 0 p refl),
      from-Fits ps (suc i) outcomes λ j q e.
          let there : i + suc j ≡ suc i + j = omega arith in
          subst (λ (n : ℕ). HasId q.call.id (outcomes n).result) there (h (suc j) q e),
    )

pub nth-lt :
    (plans : List PlannedCall) (j : ℕ) (p : PlannedCall) → nth plans j ≡ some p → j < length plans
nth-lt [] j p e = cc
nth-lt (q ∷ ps) zero p e = omega arith
nth-lt (q ∷ ps) (suc j) p e = omega (arith, nth-lt ps j p e)

-- A written outcome belongs to its call, and the others stay.
pub write_at-HasId :
    (plans : List PlannedCall) (i j : ℕ) (q p : PlannedCall) (out : ParallelOutcome)
    (outcomes : ℕ → ParallelOutcome)
    → nth plans i ≡ some q
    → HasId q.call.id out.result
    → nth plans j ≡ some p
    → (i ≡ j) ⊎ HasId p.call.id (outcomes j).result
    → HasId p.call.id (write_at i out outcomes j).result
write_at-HasId plans i j q p out outcomes eq own ep h = elim (Bool-cases (i == j)) [
  | inl same ↦
      let at : nth plans i ≡ some p = ap (nth plans) (eq_of_== i j same) ∙ ep in
      let qp : q ≡ p = some_inj.0 (sym eq ∙ at) in
      rw same (subst (λ (x : PlannedCall). HasId x.call.id out.result) qp own)
  | inr other ↦ rw other (elim h [ inl e ↦ absurd (ground arith) | inr old ↦ old ])
]

module _ (host : Host) where
  -- The outcomes of all places in the order belong to their calls; the history stays.
  abbrev pub Ran :
      List PlannedCall
      → List ℕ
      → (ℕ → ParallelOutcome)
      → List Message
      → Result Error (ℕ → ParallelOutcome) × World
      → Type 0
  Ran plans order outcomes base (failed x, w) = ⊥
  Ran plans order outcomes base (ok outcomes', w) =
      (w.session.messages ≡ base)
      × ((j : ℕ) (p : PlannedCall)
          → nth plans j ≡ some p
          → IsIn j order ⊎ HasId p.call.id (outcomes j).result
          → HasId p.call.id (outcomes' j).result)

  skipped :
      (plans : List PlannedCall) (i : ℕ) (is : List ℕ) (outcomes : ℕ → ParallelOutcome)
      (base : List Message) (r : Result Error (ℕ → ParallelOutcome) × World)
      → nth plans i ≡ none
      → Ran plans is outcomes base r
      → Ran plans (i ∷ is) outcomes base r
  skipped plans i is outcomes base (failed x, w) e h = h
  skipped plans i is outcomes base (ok o, w) e (same, h) = (
    same,
    λ j p at was. h j p at (elim was [
      | inl place ↦ elim place [
        | inl here ↦ absurd (cc (e, at, ap (nth plans) here))
        | inr later ↦ inl later
      ]
      | inr old ↦ inr old
    ]),
  )

  placed :
      (plans : List PlannedCall) (i : ℕ) (is : List ℕ) (q : PlannedCall) (out : ParallelOutcome)
      (outcomes : ℕ → ParallelOutcome) (base : List Message)
      (r : Result Error (ℕ → ParallelOutcome) × World)
      → nth plans i ≡ some q
      → HasId q.call.id out.result
      → Ran plans is (write_at i out outcomes) base r
      → Ran plans (i ∷ is) outcomes base r
  placed plans i is q out outcomes base (failed x, w) e own h = h
  placed plans i is q out outcomes base (ok o, w) e own (same, h) = (
    same,
    λ j p at was. h j p at (elim was [
      | inl place ↦ elim place [
        | inl here ↦ inr (write_at-HasId plans i j q p out outcomes e own at (inl here))
        | inr later ↦ inl later
      ]
      | inr old ↦ inr (write_at-HasId plans i j q p out outcomes e own at (inr old))
    ]),
  )

  place-Ran :
      (plans : List PlannedCall) (i : ℕ) (is : List ℕ) (o : Option PlannedCall)
      (outcomes : ℕ → ParallelOutcome) (base : List Message) (w : World)
      → w.session.messages ≡ base
      → nth plans i ≡ o
      → ((outcomes' : ℕ → ParallelOutcome) (w' : World)
          → w'.session.messages ≡ base
          → Ran plans is outcomes' base (run_all host plans is outcomes' w'))
      → Ran plans
          (i ∷ is)
          outcomes
          base
          (go_on (run_place host i o outcomes w) (run_all host plans is))
  unfolding run_place run_planned call_tool
  place-Ran plans i is none outcomes base w h e rest =
      skipped plans i is outcomes base (run_all host plans is outcomes w) e (rest outcomes w h)
  place-Ran plans i is (some q) outcomes base w h e rest =
      let timeout = effective_tool_timeout host.policy w.session.agent_id q.it.tool in
      let res = with_call_id q.call.id (host.invoke w.trace q.it q.call timeout) in
      let out : ParallelOutcome = record {
        result = res;
        latency = host.clock (suc w.ticks) -ℤ host.clock w.ticks;
      } in
      let w' : World = record w {
        trace = called q.it q.call ∷ w.trace;
        ticks = suc (suc w.ticks);
      } in
      placed plans i is q out outcomes base (run_all host plans is (write_at i out outcomes) w') e
        (with_call_id-HasId q.call.id (host.invoke w.trace q.it q.call timeout))
        (rest (write_at i out outcomes) w' h)

  pub run_all-Ran :
      (plans : List PlannedCall) (order : List ℕ) (outcomes : ℕ → ParallelOutcome)
      (base : List Message) (w : World)
      → w.session.messages ≡ base
      → Ran plans order outcomes base (run_all host plans order outcomes w)
  unfolding run_all
  run_all-Ran plans [] outcomes base w h =
      (h, λ j p at was. elim was [ inl place ↦ absurd place | inr old ↦ old ])
  run_all-Ran plans (i ∷ is) outcomes base w h =
      place-Ran plans i is (nth plans i) outcomes base w h refl
        λ outcomes' w' h'. run_all-Ran plans is outcomes' base w' h'

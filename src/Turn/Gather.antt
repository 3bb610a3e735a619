-- ===== src/Turn/Gather.antt =====
-- Calls that run at the same time are answered in the order of the response (parallel.go).
use mathlib.Core.Path.{subst}
use ia_harness.Base.{
  suc, ℕ, ◌+◌, ◌<◌, ℤ, ◌≡◌, refl, sym, ◌∙◌, Bool, true, inl, inr, String, List, [], ◌∷◌, ◌++◌,
  append-nil, append_assoc, map, length, arith, Result, ok, failed, Bool-cases,
}
use ia_harness.Core.Message.{Message, ToolCall, ToolResult}
use ia_harness.Core.Config.{Error, ToolExecution, ToolStatus}
use ia_harness.Turn.Machine.{
  Host, World, Action, told_call, told_error, told_result, M, pure, go_on, milliseconds,
}
use ia_harness.Turn.Results.{error_result}
use ia_harness.Turn.Calls.{
  Settled, answered, paused, answer, append_message, record_tool_call, outcome, settle_rest,
  transport_error, result_status,
}
use ia_harness.Turn.Parallel.{
  PlannedCall, ParallelOutcome, no_outcome, tell_calls, run_all, collect_one, collect,
  execute_parallel,
}
use ia_harness.Turn.Answers.{IsResultOf, Outcome, Settles-answer}
use ia_harness.Turn.Replies.{IsAnswered, none_left, next}
use ia_harness.Turn.Outcomes.{IsIn, HasId, Fits, from-Fits, nth-lt, Ran, run_all-Ran}

module _ (host : Host) where
  -- The call has its answer behind the old messages.
  abbrev Answered : String → List Message → Result Error Settled × World → Type 0
  Answered id base (failed x, w) = ⊥
  Answered id base (ok paused, w) = ⊥
  Answered id base (ok (answered m e), w) =
      (w.session.messages ≡ base ++ m ∷ []) × IsResultOf id m × (e.call_id ≡ id)

  abbrev IsAnswer : Result Error Settled × World → Type 0
  IsAnswer (failed x, w) = ⊥
  IsAnswer (ok paused, w) = ⊥
  IsAnswer (ok (answered m e), w) = Unit

  answer-IsAnswer :
      (call : ToolCall) (tool : String) (res : ToolResult) (status : ToolStatus) (latency : ℤ)
      (w : World)
      → IsAnswer (answer host call tool res status latency w)
  unfolding answer append_message record_tool_call
  answer-IsAnswer call tool res status latency w =
      elim (Bool-cases (host.audit_fails (told_result call.id (result_status res) ∷ w.trace))) [
        | inl failing ↦ rw failing tt
        | inr fine ↦ rw fine tt
      ]

  both :
      (id : String) (base : List Message) (r : Result Error Settled × World)
      → IsAnswer r
      → Outcome id base r
      → Answered id base r
  both id base (failed x, w) i h = i
  both id base (ok paused, w) i h = absurd i
  both id base (ok (answered m e), w) i h = h

  answer-Answered :
      (call : ToolCall) (tool : String) (res : ToolResult) (status : ToolStatus) (latency : ℤ)
      (base : List Message) (w : World)
      → res.call_id ≡ call.id
      → w.session.messages ≡ base
      → Answered call.id base (answer host call tool res status latency w)
  answer-Answered call tool res status latency base w own h =
      both call.id base (answer host call tool res status latency w)
        (answer-IsAnswer call tool res status latency w)
        (Settles-answer host call.id base call tool res status latency refl own w h)

  collect_one-Answered :
      (p : PlannedCall) (r : Result String ToolResult) (latency : ℤ) (base : List Message)
      (w : World)
      → HasId p.call.id r
      → w.session.messages ≡ base
      → Answered p.call.id base (collect_one host p (record { result = r; latency = latency }) w)
  unfolding collect_one outcome error_result
  collect_one-Answered p (failed x) latency base w own h =
      answer-Answered p.call p.it.key (error_result p.call.id transport_error) ToolStatus.error
        (milliseconds latency) base (record w { trace = told_error p.it.key ∷ w.trace }) refl h
  collect_one-Answered p (ok res) latency base w own h =
      answer-Answered p.call p.it.key res _ (milliseconds latency) base w own h

  -- All calls are answered, in order, behind the old messages.
  abbrev pub Gathered :
      List Message
      → List PlannedCall
      → Result Error (List Message × List ToolExecution × Bool) × World
      → Type 0
  Gathered base plans (failed x, w) = ⊥
  Gathered base plans (ok (ms, es, done), w) =
      (w.session.messages ≡ base ++ ms)
      × (done ≡ true)
      × IsAnswered (map (λ (p : PlannedCall). p.call) plans) ms es

  put_first :
      (p : PlannedCall) (ps : List PlannedCall) (base : List Message) (m : Message)
      (e : ToolExecution) (r : Result Error (List Message × List ToolExecution × Bool) × World)
      → IsResultOf p.call.id m
      → e.call_id ≡ p.call.id
      → Gathered (base ++ m ∷ []) ps r
      → Gathered base (p ∷ ps) (go_on r (λ x. pure (m ∷ x.0, e ∷ x.1, x.2)))
  put_first p ps base m e (failed x, w) result exec h = h
  put_first p ps base m e (ok (ms, es, done), w) result exec (more, all, h) =
      (more ∙ append_assoc base (m ∷ []) ms, all, next p.call.id (λ has_id. refl) result exec h)

  gather_next :
      (p : PlannedCall) (ps : List PlannedCall) (base : List Message)
      (rest : M (List Message × List ToolExecution × Bool)) (r : Result Error Settled × World)
      → Answered p.call.id base r
      → ((w : World) → Gathered w.session.messages ps (rest w))
      → Gathered base (p ∷ ps) (go_on r (settle_rest rest))
  gather_next p ps base rest (failed x, w) h each = h
  gather_next p ps base rest (ok paused, w) h each = absurd h
  gather_next p ps base rest (ok (answered m e), w) (more, result, exec) each =
      put_first p ps base m e (rest w) result exec
        (subst (λ (b : List Message). Gathered b ps (rest w)) more (each w))

  collect-Gathered :
      (plans : List PlannedCall) (i : ℕ) (outcomes : ℕ → ParallelOutcome) (w : World)
      → Fits plans i outcomes
      → Gathered w.session.messages plans (collect host plans i outcomes w)
  unfolding collect
  collect-Gathered [] i outcomes w fits = (sym (append-nil w.session.messages), refl, none_left)
  collect-Gathered (p ∷ ps) i outcomes w fits =
      gather_next p ps w.session.messages (collect host ps (suc i) outcomes)
        (collect_one host p (outcomes i) w)
        (collect_one-Answered p (outcomes i).result (outcomes i).latency w.session.messages w fits.0
          refl)
        (λ w'. collect-Gathered ps (suc i) outcomes w' fits.1)

  tell_calls-messages :
      (plans : List PlannedCall) (w : World)
      → (w' : World) × (tell_calls host plans w ≡ (ok tt, w'))
        × (w'.session.messages ≡ w.session.messages)
  unfolding tell_calls
  tell_calls-messages [] w = (w, refl, refl)
  tell_calls-messages (p ∷ ps) w =
      tell_calls-messages ps (record w { trace = told_call p.call.id ∷ w.trace })

  after_run :
      (plans : List PlannedCall) (order : List ℕ) (base : List Message)
      (r : Result Error (ℕ → ParallelOutcome) × World)
      → ((j : ℕ) → j < length plans → IsIn j order)
      → Ran host plans order (λ i. no_outcome) base r
      → Gathered base plans (go_on r (collect host plans 0))
  after_run plans order base (failed x, w) covers h = h
  after_run plans order base (ok outcomes, w) covers (same, h) =
      subst (λ (b : List Message). Gathered b plans (collect host plans 0 outcomes w)) same
        (collect-Gathered plans 0 outcomes w (
          from-Fits plans 0 outcomes λ j p at.
            let there : j ≡ 0 + j = omega arith in
            subst (λ (n : ℕ). HasId p.call.id (outcomes n).result) there
              (h j p at (inl (covers j (nth-lt plans j p at))))))

  -- In whatever order the goroutines reach their tools, if each of them does, the calls of a response
  -- that run at the same time are all answered, in the order of the response: the history grows by
  -- one message for each call, with one result that carries its id, and each execution has that id.
  pub execute_parallel-Gathered :
      (order : List Action → ℕ → List ℕ) (plans : List PlannedCall) (w : World)
      → ((before : List Action) (n j : ℕ) → j < n → IsIn j (order before n))
      → Gathered w.session.messages plans (execute_parallel host order plans w)
  unfolding execute_parallel
  execute_parallel-Gathered order plans w covers =
      let (w', told, same) = tell_calls-messages plans w in
      let order' = order w'.trace (length plans) in
      rw told (
        after_run plans order' w.session.messages (run_all host plans order' (λ i. no_outcome) w')
          (covers w'.trace (length plans))
          (run_all-Ran host plans order' (λ i. no_outcome) w.session.messages w' same))

-- ===== src/Turn/Lasting.antt =====
-- What a whole turn keeps, continued: the call of the model, a round and the loop.
use ia_harness.Base.{
  suc, zero, ℕ, ◌≡◌, refl, Bool, true, false, not, ◌&&◌, inl, inr, Option, none, some, String, List,
  [], ◌∷◌, Result, ok, failed, Bool-cases, is_empty,
}
use ia_harness.Core.Message.{Message, Part, Usage}
use ia_harness.Core.Config.{
  CacheEntry, CacheInfo, CacheQuery, ChatRequest, ChatResponse, CompactionInfo, Error, ModelProfile,
  StopReason,
}
use ia_harness.Budget.{TurnBudget, add_usage, start_iteration, can_iterate, exceeded}
use ia_harness.Media.{MediaError}
use ia_harness.Route.{Chat, served, unserved, RouteError, resolve_model, alias_for}
use ia_harness.Turn.Machine.{World, Action, asked_model, told_compaction, M, pure, go_on, ◌>>◌, act}
use ia_harness.Turn.Checkpoint.{checkpoint_step}
use ia_harness.Turn.Caching.{prepare_cache, lookup_cache, look_up, cache_answer, save_cache}
use ia_harness.Turn.Engine.{Engine, Task, Locals, Flow, again, ended, tools, agent_model}
use ia_harness.Turn.Spending.{completed, usage_for, touch, append, spend, end_turn}
use ia_harness.Turn.Ask.{
  answered_locals, take_response, answer_model, call_model, serve_cached, hit_or_call, with_cache,
  send,
}
use ia_harness.Turn.Rounds.{
  note_compaction, noted, summary_taken, send_windowed, window_round, if_valid, use_model,
  model_round, within_budget, check_budget, round, continue, turn_loop,
}
use ia_harness.Turn.Frame.{Fact, Holds, Keeps, ticked}
use ia_harness.Turn.Robust.{
  IsRobust, Counts, IsGood, Good, Good-go_on, Good-act_on, Good-end_turn, Keeps-touch, Keeps-append,
  Keeps-step, Keeps-spend,
}

module _ (e : Engine) (t : Task) (P : Fact) (robust : IsRobust e P) where
  Keeps-save_cache :
      (query : Option CacheQuery) (resp : ChatResponse) → Keeps P (save_cache e query resp)
  unfolding save_cache
  Keeps-save_cache none resp w i = i
  Keeps-save_cache (some query) resp w i = elim (Bool-cases (is_empty resp.tool_calls)) [
    | inl nothing ↦ rw nothing (robust.stable.steady.act _ refl i)
    | inr calls ↦ rw calls i
  ]

  Keeps-cache_answer :
      (query : CacheQuery) (r : Result String (Option CacheEntry))
      → Keeps P (cache_answer e query r)
  Keeps-cache_answer query (failed x) w i = i
  Keeps-cache_answer query (ok none) w i = robust.stable.steady.act _ refl i
  Keeps-cache_answer query (ok (some entry)) w i = robust.stable.steady.act _ refl i

  Keeps-look_up :
      (look : Option (List Action → CacheQuery → Result String (Option CacheEntry)))
      (query : CacheQuery)
      → Keeps P (look_up e look query)
  Keeps-look_up none query w i = i
  Keeps-look_up (some look) query w i = Keeps-cache_answer query (look w.trace query) w i

  Keeps-lookup_cache : (query : CacheQuery) → Keeps P (lookup_cache e query)
  unfolding lookup_cache
  Keeps-lookup_cache query = Keeps-look_up e.cache_store query

  Counts-answered :
      (b : TurnBudget) (l : Locals) (m : Message) (u : Usage) (alias : String)
      → Counts b l
      → Counts b (answered_locals e t l m u alias)
  unfolding add_usage
  Counts-answered b l m u alias c = c

  Good-take_response :
      (b : TurnBudget) (query : Option CacheQuery) (req : ChatRequest) (id alias : String)
      (resp : ChatResponse) (l : Locals)
      → Counts b l
      → Good P b (take_response e t query req id alias resp l)
  unfolding take_response
  Good-take_response b query req id alias resp l c w i =
      let u = usage_for e.settings.pricing (e.request_bytes req) resp in
      Good-go_on P b (save_cache e query resp w) _ (Keeps-save_cache query resp w i) λ x v j.
        let m = completed id (e.host.clock v.ticks) resp.message in
        Good-go_on P b (append e.host m (ticked v)) _ (Keeps-append e t P robust m (ticked v) j)
          λ y v' j'.
            Good-go_on P b (spend e.host u v') _ (Keeps-spend e t P robust u v' j') λ z v'' j''.
              Good-go_on P b (checkpoint_step e.host v'') _ (Keeps-step e t P robust v'' j'') λ o.
                Good-act_on e t P robust b resp m (answered_locals e t l m u alias)
                  (Counts-answered b l m u alias c)

  Good-answer_model :
      (b : TurnBudget) (query : Option CacheQuery) (req : ChatRequest) (id : String) (answer : Chat)
      (l : Locals)
      → Counts b l
      → Good P b (answer_model e t query req id answer l)
  unfolding answer_model
  Good-answer_model b query req id (unserved failures asked) l c w i =
      (robust.stable.steady.act _ refl i, tt)
  Good-answer_model b query req id (served resp a asked) l c w i =
      Good-take_response b query req id a.alias resp l c w i

  Good-call_model :
      (b : TurnBudget) (profile : ModelProfile) (query : Option CacheQuery) (req : ChatRequest)
      (id : String) (l : Locals)
      → Counts b l
      → Good P b (call_model e t profile query req id l)
  unfolding call_model
  Good-call_model b profile query req id l c w i =
      Good-answer_model b query req id _ l c _ (robust.stable.steady.act (asked_model req) refl i)

  Good-serve_cached :
      (b : TurnBudget) (profile : ModelProfile) (id : String) (hit : ChatResponse × CacheInfo)
      (l : Locals)
      → Good P b (serve_cached e t profile id hit l)
  unfolding serve_cached
  Good-serve_cached b profile id (resp, info) l w i =
      let m = completed id (e.host.clock w.ticks) resp.message in
      let l' = record l { cache = some info; model = alias_for e.registry profile } in
      let last : M Flow = end_turn e.host l' m.parts StopReason.completed in
      Good-go_on P b (append e.host m (ticked w))
        (λ x. checkpoint_step e.host >> (touch e.host >> last))
        (Keeps-append e t P robust m (ticked w) i)
        λ x v j.
          Good-go_on P b (checkpoint_step e.host v) (λ y. touch e.host >> last)
            (Keeps-step e t P robust v j)
            λ y v' j'.
              Good-go_on P b (touch e.host v') (λ z. last) (Keeps-touch e t P robust v' j')
                λ z. Good-end_turn e t P robust b l' m.parts StopReason.completed

  Good-hit_or_call :
      (b : TurnBudget) (profile : ModelProfile) (query : CacheQuery) (req : ChatRequest)
      (id : String) (hit : Option (ChatResponse × CacheInfo)) (l : Locals)
      → Counts b l
      → Good P b (hit_or_call e t profile query req id hit l)
  Good-hit_or_call b profile query req id (some hit) l c w i =
      Good-serve_cached b profile id hit l w i
  Good-hit_or_call b profile query req id none l c w i =
      Good-call_model b profile (some query) req id l c w i

  Good-with_cache :
      (b : TurnBudget) (profile : ModelProfile) (req : ChatRequest) (id : String)
      (query : Option CacheQuery) (l : Locals)
      → Counts b l
      → Good P b (with_cache e t profile req id query l)
  unfolding with_cache
  Good-with_cache b profile req id none l c w i = Good-call_model b profile none req id l c w i
  Good-with_cache b profile req id (some query) l c w i =
      Good-go_on P b (lookup_cache e query w) _ (Keeps-lookup_cache query w i)
        λ hit. Good-hit_or_call b profile query req id hit l c

  Good-send :
      (b : TurnBudget) (profile : ModelProfile) (id : String) (messages : List Message) (l : Locals)
      → Counts b l
      → Good P b (send e t profile id messages l)
  unfolding send prepare_cache
  Good-send b profile id messages l c w i = Good-with_cache b profile _ id _ l c w i

  Keeps-summary_taken : (summarized : Bool) → Keeps P (summary_taken e t summarized)
  Keeps-summary_taken true w i = i
  Keeps-summary_taken false w i = i

  Good-noted :
      (b : TurnBudget) (profile : ModelProfile) (id : String) (l : Locals) (messages : List Message)
      (info : CompactionInfo) (r : Result Error (Unit {0}) × World)
      → Counts b l
      → Holds P r.1
      → IsGood P b (
          go_on
            (go_on r (λ u. act (told_compaction info) >> pure (noted e t info l)))
            (λ l'. send e t profile id messages l'))
  Good-noted b profile id l messages info (ok u, w) c i =
      Good-send b profile id messages (noted e t info l) c
        (record w { trace = told_compaction info ∷ w.trace })
        (robust.stable.steady.act (told_compaction info) refl i)
  Good-noted b profile id l messages info (failed x, w) c i = (i, tt)

  Good-send_windowed :
      (b : TurnBudget) (profile : ModelProfile) (id : String) (l : Locals)
      (sent : List Message × Option CompactionInfo)
      → Counts b l
      → Good P b (send_windowed e t profile id l sent)
  unfolding note_compaction
  Good-send_windowed b profile id l (messages, none) c w i = Good-send b profile id messages l c w i
  Good-send_windowed b profile id l (messages, some info) c w i =
      Good-noted b profile id l messages info (summary_taken e t info.summarized w) c
        (Keeps-summary_taken info.summarized w i)

  Good-window_round :
      (b : TurnBudget) (profile : ModelProfile) (l : Locals)
      → Counts b l
      → Good P b (window_round e t profile l)
  unfolding window_round
  Good-window_round b profile l c w i = Good-send_windowed b profile _ l _ c _ i

  Good-if_valid :
      (b : TurnBudget) (r : Result MediaError (Unit {0})) (m : M Flow)
      → Good P b m
      → Good P b (if_valid e t r m)
  Good-if_valid b (failed x) m h w i = (i, tt)
  Good-if_valid b (ok u) m h w i = h w i

  Good-use_model :
      (b : TurnBudget) (r : Result RouteError ModelProfile) (l : Locals)
      → Counts b l
      → Good P b (use_model e t r l)
  unfolding use_model
  Good-use_model b (failed x) l c w i = (i, tt)
  Good-use_model b (ok profile) l c w i =
      elim (Bool-cases (not (is_empty (tools t)) && not profile.capabilities.tool_calling)) [
        | inl unable ↦ rw unable (i, tt)
        | inr able ↦
            rw able
              (Good-if_valid b _ (window_round e t profile l) (Good-window_round b profile l c) w i)
      ]

  -- A round that goes on had the budget for it, and has spent one round of it.
  abbrev pub HasSpent : TurnBudget → Flow → Type 0
  HasSpent b (again l) = (can_iterate b ≡ true) × Counts (start_iteration b) l
  HasSpent b (ended r) = Unit

  abbrev pub IsRound : TurnBudget → Result Error Flow × World → Type 0
  IsRound b (ok flow, w) = P w.session w.trace × HasSpent b flow
  IsRound b (failed x, w) = P w.session w.trace

  spent :
      (b : TurnBudget) (r : Result Error Flow × World)
      → can_iterate b ≡ true
      → IsGood P (start_iteration b) r
      → IsRound b r
  spent b (ok (again l), w) can (i, c) = (i, (can, c))
  spent b (ok (ended r), w) can (i, c) = (i, tt)
  spent b (failed x, w) can (i, c) = i

  at_end :
      (b : TurnBudget) (l : Locals) (output : List Part) (stop : StopReason) (w : World)
      → Holds P w
      → IsRound b (end_turn e.host l output stop w)
  unfolding end_turn
  at_end b l output stop w i = (i, tt)

  within_budget-IsRound :
      (stop : Option StopReason) (l : Locals) (w : World)
      → Holds P w
      → IsRound l.budget (within_budget e t stop l w)
  unfolding within_budget model_round
  within_budget-IsRound (some reason) l w i = at_end l.budget l [] reason w i
  within_budget-IsRound none l w i = elim (Bool-cases (can_iterate l.budget)) [
    | inr no_more ↦ rw no_more (at_end l.budget l [] StopReason.max_iterations w i)
    | inl can ↦
        let l' = record l { budget = start_iteration l.budget } in
        rw can (
          spent l.budget _ can (
            Good-use_model l'.budget (resolve_model e.registry (agent_model e w.session)) l'
              (refl, refl) w i))
  ]

  after_touch :
      (b : TurnBudget) (l : Locals) (r : Result Error (Unit {0}) × World)
      → Holds P r.1
      → IsRound b (go_on r (λ u. end_turn e.host l [] StopReason.cancelled))
  after_touch b l (ok u, w) i = at_end b l [] StopReason.cancelled w i
  after_touch b l (failed x, w) i = i

  pub round-IsRound : (l : Locals) (w : World) → Holds P w → IsRound l.budget (round e t l w)
  unfolding round check_budget
  round-IsRound l w i = elim (Bool-cases (e.cancelled w.trace)) [
    | inl stop ↦ rw stop (after_touch l.budget l (touch e.host w) (Keeps-touch e t P robust w i))
    | inr go ↦
        rw go (within_budget-IsRound (exceeded l.budget (e.host.clock w.ticks)) l (ticked w) i)
  ]

  Keeps-continue :
      (fuel : ℕ) (b : TurnBudget) (r : Result Error Flow × World)
      → ((l : Locals) → Keeps P (turn_loop e t fuel l))
      → IsRound b r
      → Holds P (go_on r (continue e t (turn_loop e t fuel))).1
  Keeps-continue fuel b (failed x, w) rest i = i
  Keeps-continue fuel b (ok (ended r), w) rest (i, x) = i
  Keeps-continue fuel b (ok (again l), w) rest (i, x) = rest l w i

  pub Keeps-turn_loop : (fuel : ℕ) (l : Locals) → Keeps P (turn_loop e t fuel l)
  unfolding turn_loop
  Keeps-turn_loop zero l w i = i
  Keeps-turn_loop (suc fuel) l w i =
      Keeps-continue fuel l.budget (round e t l w) (Keeps-turn_loop fuel) (round-IsRound l w i)

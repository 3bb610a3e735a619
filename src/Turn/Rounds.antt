-- ===== src/Turn/Rounds.antt =====
-- internal/engine/loop.go: one round of the loop of runTurn, and the loop. A turn that ends in an
-- error gives the error alone, without the parts of the result that the source returns beside it.
use ia_harness.Base.{
  ℕ, zero, suc, ◌+◌, ltb_ℤ, pos, String, Bool, true, false, not, ◌&&◌, Option, none, some, List, [],
  is_empty, Result, ok, failed, if◌then◌else◌,
}
use ia_harness.Core.Message.{Time, Message, Session}
use ia_harness.Core.Config.{
  ModelProfile, Capabilities, CompactionInfo, Error, StopReason, TurnResult,
}
use ia_harness.Core.Text.{utf8}
use ia_harness.Budget.{exceeded, can_iterate, start_iteration}
use ia_harness.Media.{MediaError, validate, from_messages}
use ia_harness.Route.{RouteError, resolve_model}
use ia_harness.Window.{
  context_budget, compaction_ratio, apply_window, estimate_text_tokens, estimate_tools_tokens,
}
use ia_harness.Turn.Machine.{
  Action, told_compaction, M, pure, fail, ◌>>=◌, ◌>>◌, get_session, act, history, now, fresh_id,
}
use ia_harness.Turn.Engine.{
  Engine, Task, tools, Locals, Flow, again, ended, effective_system_prompt, agent_model,
}
use ia_harness.Turn.Spending.{touch, end_turn}
use ia_harness.Turn.Ask.{send}

abbrev pub media_code : MediaError → String
media_code MediaError.mime_not_supported = "media/mime-nao-suportado"
media_code MediaError.invalid_size = "media/tamanho-invalido"
media_code MediaError.too_large = "media/grande"
media_code MediaError.invalid_source = "media/fonte-invalida"
media_code MediaError.vision_not_supported = "media/visao-nao-suportada"
media_code MediaError.document_not_supported = "media/documento-nao-suportado"
media_code MediaError.excess = "media/excesso"

abbrev pub route_code : RouteError → Error
route_code (RouteError.unknown_alias a) = Error.config "model/alias-desconhecido"
route_code (RouteError.unknown_provider p) = Error.config "model/provider-desconhecido"
route_code (RouteError.media_not_supported a) = Error.config "model/midia-nao-suportada"
route_code (RouteError.call_failed x) = Error.port x

module _ (e : Engine) (t : Task) where
  -- A summary takes an id and an instant.
  abbrev pub summary_taken : Bool → M (Unit {0})
  summary_taken true = do fresh_id e.host; now e.host; pure tt
  summary_taken false = pure tt

  abbrev pub noted : CompactionInfo → Locals → Locals
  noted info l = record l {
    compaction = some info;
    summarize_allowed = if info.summarized then false else l.summarize_allowed;
  }

  unfoldable pub note_compaction : Option CompactionInfo → Locals → M Locals
  note_compaction none l = pure l
  note_compaction (some info) l = do
    summary_taken info.summarized
    act (told_compaction info)
    pure (noted info l)

  abbrev pub windowed :
      Session
      → Capabilities
      → Locals
      → List Action
      → String
      → Time
      → List Message × Option CompactionInfo
  windowed s caps l before id time =
      let (budget, from_model) = context_budget e.settings caps in
      if ltb_ℤ (pos 0) budget
      then apply_window e.settings (e.summarizer before) id time l.messages
          (estimate_text_tokens e.settings (utf8 (effective_system_prompt e s.agent_id))
            + estimate_tools_tokens e.settings (tools t))
          budget (compaction_ratio e.settings from_model) l.summarize_allowed s.model
      else (l.messages, none)

  abbrev pub look_ahead : M (String × Time)
  look_ahead w = (ok (e.host.new_id w.ids, e.host.clock w.ticks), w)

  abbrev pub send_windowed :
      ModelProfile → String → Locals → List Message × Option CompactionInfo → M Flow
  send_windowed profile id l (messages, info) = do
    l' ← note_compaction info l
    send e t profile id messages l'

  unfoldable pub window_round : ModelProfile → Locals → M Flow
  unfolding send note_compaction
  window_round profile l = do
    id ← fresh_id e.host
    s ← get_session
    before ← history
    (next_id, time) ← look_ahead
    send_windowed profile id l (windowed s profile.capabilities l before next_id time)

  abbrev pub if_valid : Result MediaError (Unit {0}) → M Flow → M Flow
  if_valid (failed x) go = fail (Error.config (media_code x))
  if_valid (ok u) go = go

  unfoldable pub use_model : Result RouteError ModelProfile → Locals → M Flow
  unfolding window_round
  use_model (failed x) l = fail (route_code x)
  use_model (ok profile) l =
      if not (is_empty (tools t)) && not profile.capabilities.tool_calling
      then fail (Error.config "model/tool-calling-nao-suportado")
      else (do
        s ← get_session
        if_valid (validate profile.capabilities (from_messages s.messages))
            (window_round profile l))

  unfoldable pub model_round : Locals → M Flow
  unfolding use_model agent_model
  model_round l = do s ← get_session; use_model (resolve_model e.registry (agent_model e s)) l

  unfoldable pub within_budget : Option StopReason → Locals → M Flow
  unfolding model_round end_turn
  within_budget (some reason) l = end_turn e.host l [] reason
  within_budget none l =
      if not (can_iterate l.budget)
      then end_turn e.host l [] StopReason.max_iterations
      else model_round (record l { budget = start_iteration l.budget })

  unfoldable pub check_budget : Locals → M Flow
  unfolding within_budget
  check_budget l = do time ← now e.host; within_budget (exceeded l.budget time) l

  -- The body of the loop.
  unfoldable pub round : Locals → M Flow
  unfolding check_budget touch end_turn
  round l = do
    before ← history
    (if e.cancelled before
        then (do touch e.host; end_turn e.host l [] StopReason.cancelled)
        else check_budget l)

  abbrev pub continue : (Locals → M (Option TurnResult)) → Flow → M (Option TurnResult)
  continue rest (ended r) = pure (some r)
  continue rest (again l) = rest l

  -- The loop, on fuel; `none` where the fuel runs out.
  unfoldable pub turn_loop : ℕ → Locals → M (Option TurnResult)
  unfolding round
  turn_loop zero l = pure none
  turn_loop (suc fuel) l = do flow ← round l; continue (turn_loop fuel) flow

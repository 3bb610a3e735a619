-- ===== src/Turn/Ask.antt =====
-- internal/engine/loop.go: the request to a model, past the cache and the chain of fallbacks.
use ia_harness.Base.{String, Option, none, some, List, [], ◌∷◌, ◌++◌}
use ia_harness.Core.Message.{Message, Usage, Session}
use ia_harness.Core.Config.{
  ModelProfile, ChatRequest, ChatResponse, CacheInfo, CacheQuery, Error, StopReason,
}
use ia_harness.Media.{from_messages}
use ia_harness.Route.{Chat, served, unserved, alias_for, chat}
use ia_harness.Budget.{add_usage}
use ia_harness.Turn.Machine.{
  asked_model, told_error, M, fail, ◌>>=◌, ◌>>◌, get_session, act, history, now,
}
use ia_harness.Turn.Checkpoint.{checkpoint_step}
use ia_harness.Turn.Caching.{prepare_cache, lookup_cache, save_cache}
use ia_harness.Turn.Engine.{Engine, Task, tools, Locals, Flow, effective_system_prompt}
use ia_harness.Turn.Spending.{completed, usage_for, touch, append, spend, end_turn}
use ia_harness.Turn.Perform.{act_on}

module _ (e : Engine) (t : Task) where
  abbrev pub answered_locals : Locals → Message → Usage → String → Locals
  answered_locals l assistant usage alias = record l {
    messages = l.messages ++ assistant ∷ [];
    budget = add_usage l.budget usage;
    model = alias;
  }

  unfoldable pub take_response :
      Option CacheQuery → ChatRequest → String → String → ChatResponse → Locals → M Flow
  unfolding usage_for completed append spend act_on
  take_response query req id alias resp l = do
    save_cache e query resp
    time ← now e.host
    append e.host (completed id time resp.message)
    spend e.host (usage_for e.settings.pricing (e.request_bytes req) resp)
    checkpoint_step e.host
    act_on e t resp (completed id time resp.message) (
        answered_locals l (completed id time resp.message)
          (usage_for e.settings.pricing (e.request_bytes req) resp) alias)

  unfoldable pub answer_model : Option CacheQuery → ChatRequest → String → Chat → Locals → M Flow
  unfolding take_response
  answer_model query req id (unserved failures asked) l = do
    act (told_error "model")
    fail (Error.port "harness: chamada de modelo")
  answer_model query req id (served resp a asked) l = take_response query req id a.alias resp l

  unfoldable pub call_model :
      ModelProfile → Option CacheQuery → ChatRequest → String → Locals → M Flow
  unfolding answer_model
  call_model profile query req id l = do
    now e.host
    act (asked_model req)
    before ← history
    now e.host
    answer_model query req id
        (chat e.registry (e.limit before)
          (λ asked a. e.ask before (record req { model = a.model }) asked a) profile
          (from_messages req.messages))
        l

  -- A hit of the cache ends the turn.
  unfoldable pub serve_cached : ModelProfile → String → ChatResponse × CacheInfo → Locals → M Flow
  unfolding completed append touch end_turn
  serve_cached profile id (resp, info) l = do
    time ← now e.host
    append e.host (completed id time resp.message)
    checkpoint_step e.host
    touch e.host
    end_turn e.host (record l { cache = some info; model = alias_for e.registry profile })
        (completed id time resp.message).parts StopReason.completed

  abbrev pub hit_or_call :
      ModelProfile
      → CacheQuery
      → ChatRequest
      → String
      → Option (ChatResponse × CacheInfo)
      → Locals
      → M Flow
  hit_or_call profile query req id (some hit) l = serve_cached profile id hit l
  hit_or_call profile query req id none l = call_model profile (some query) req id l

  unfoldable pub with_cache :
      ModelProfile → ChatRequest → String → Option CacheQuery → Locals → M Flow
  unfolding serve_cached call_model
  with_cache profile req id none l = call_model profile none req id l
  with_cache profile req id (some query) l = do
    hit ← lookup_cache e query
    hit_or_call profile query req id hit l

  abbrev pub chat_request : Session → ModelProfile → List Message → ChatRequest
  chat_request s profile messages = record {
    model = profile.model;
    session_id = s.id;
    system = effective_system_prompt e s.agent_id;
    messages = messages;
    tools = tools t;
    params = profile.params;
    max_output_tokens = profile.capabilities.max_output_tokens;
    prompt_caching = profile.capabilities.prompt_caching;
    output_schema = t.schema;
  }

  unfoldable pub send : ModelProfile → String → List Message → Locals → M Flow
  unfolding with_cache effective_system_prompt
  send profile id messages l = do
    s ← get_session
    query ← prepare_cache e (chat_request s profile messages) (tools t)
    with_cache profile (chat_request s profile messages) id query l

-- ===== src/Turn/Caching.antt =====
-- internal/engine/cache.go: the semantic cache around the call of a model.
use ia_harness.Base.{
  pos, String, true, false, not, Option, none, some, List, [], ◌∷◌, Result, ok, failed,
  if◌then◌else◌, is_empty,
}
use ia_harness.Core.Message.{Bytes, Session}
use ia_harness.Core.Config.{
  CacheEntry, CacheInfo, CacheQuery, ChatRequest, ChatResponse, Tool, Vector,
}
use ia_harness.Cache.{eligible, canonical_text, key, valid}
use ia_harness.Turn.Machine.{
  Action, told_cache, cached, M, pure, ◌>>=◌, ◌>>◌, get_session, act, history, now,
}
use ia_harness.Turn.Engine.{Engine}

-- The first vector that the embedder gives, if it can be compared.
abbrev pub first_vector : Result String (List Vector) → Option Vector
first_vector (failed x) = none
first_vector (ok []) = none
first_vector (ok (v ∷ vs)) = if not (valid v) then none else some v

module _ (e : Engine) where
  abbrev query_of : Session → ChatRequest → Vector → CacheQuery
  query_of s req vector = record {
    user_id = s.user_id;
    model = req.model;
    key = key e.sha req req.model;
    vector = vector;
  }

  -- The query, where the turn may use the cache and its text has a vector.
  unfoldable pub cache_query :
      Option (List Action → Bytes → Result String (List Vector))
      → Option (List Action → CacheQuery → Result String (Option CacheEntry))
      → List Action
      → Session
      → ChatRequest
      → List Tool
      → Option CacheQuery
  cache_query (some embed) (some look) before s req tools =
      if not (eligible req tools e.cache)
      then none
      else elim (first_vector (embed before (canonical_text req))) [
        | none ↦ none
        | some vector ↦ some (query_of s req vector)
      ]
  cache_query _ _ before s req tools = none

  unfoldable pub prepare_cache : ChatRequest → List Tool → M (Option CacheQuery)
  unfolding cache_query
  prepare_cache req tools = do
    s ← get_session
    before ← history
    pure (cache_query e.embedder e.cache_store before s req tools)

  -- An error of the store is a miss without an event.
  abbrev pub cache_answer :
      CacheQuery → Result String (Option CacheEntry) → M (Option (ChatResponse × CacheInfo))
  cache_answer query (failed x) = pure none
  cache_answer query (ok none) = do act (told_cache false); pure none
  cache_answer query (ok (some entry)) = do
    act (told_cache true)
    pure (some (entry.response, record { key = query.key; score = entry.score; hit = true }))

  abbrev pub look_up :
      Option (List Action → CacheQuery → Result String (Option CacheEntry))
      → CacheQuery
      → M (Option (ChatResponse × CacheInfo))
  look_up none query = pure none
  look_up (some look) query = do before ← history; cache_answer query (look before query)

  unfoldable pub lookup_cache : CacheQuery → M (Option (ChatResponse × CacheInfo))
  lookup_cache query = look_up e.cache_store query

  unfoldable pub save_cache : Option CacheQuery → ChatResponse → M (Unit {0})
  save_cache none resp = pure tt
  save_cache (some query) resp = if not (is_empty resp.tool_calls) then pure tt else (do
    time ← now e.host
    act (cached query (record { response = resp; created_at = time; score = pos 0 })))

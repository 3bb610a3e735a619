-- ===== src/Cache/Store.antt =====
-- adapters/cache/inmem/store.go: the semantic cache in memory. The mutex makes each operation one
-- step; the context that may be cancelled is left to the caller.
use ia_harness.Base.{
  ℤ, pos, pos_part, String, str_eq, Bool, not, ◌&&◌, ◌||◌, ◌-ℤ◌, Option, none, some, List, [], ◌∷◌,
  ◌++◌, leb, leb_ℤ, ltb_ℤ, length, drop, filter, if◌then◌else◌,
}
use ia_harness.Core.Message.{Time}
use ia_harness.Core.Config.{
  CacheEntry, CacheQuery, ChatResponse, Score, SemanticCacheConfig, Vector,
}
use ia_harness.Cache.{defaults, valid}

pub record Entry : Type 0 where
  pub user_id : String
  pub model : String
  pub key : String
  pub vector : Vector
  pub response : ChatResponse
  pub created_at : Time

pub record Store : Type 0 where
  pub cfg : SemanticCacheConfig
  pub entries : List Entry

unfoldable pub new : SemanticCacheConfig → Store
unfolding defaults
new cfg = record { cfg = defaults cfg; entries = [] }

abbrev pub is_live : SemanticCacheConfig → Time → Entry → Bool
is_live cfg now e = ltb_ℤ (now -ℤ e.created_at) cfg.ttl

unfoldable pub prune : Time → Store → Store
prune now s =
    if leb_ℤ s.cfg.ttl (pos 0)
    then s
    else record s { entries = filter (is_live s.cfg now) s.entries }

abbrev pub is_own : CacheQuery → Entry → Bool
is_own q e = str_eq e.user_id q.user_id && str_eq e.model q.model

abbrev pub is_same : CacheQuery → Entry → Bool
is_same q e = is_own q e && str_eq e.key q.key

module _ (cosine : Vector → Vector → Score) where
  abbrev pub better : CacheQuery → Entry → Score × Option Entry → Score × Option Entry
  better q e (best, found) =
      if is_own q e && leb_ℤ best (cosine q.vector e.vector)
      then (cosine q.vector e.vector, some e)
      else (best, found)

  -- The loop over the entries: the best score so far, and its entry.
  unfoldable pub best_from : CacheQuery → List Entry → Score × Option Entry → Score × Option Entry
  best_from q [] best = best
  best_from q (e ∷ es) best = best_from q es (better q e best)

  abbrev pub served : Score × Option Entry → Option CacheEntry
  served (score, none) = none
  served (score, some e) =
      some (record { response = e.response; created_at = e.created_at; score = score })

  unfoldable pub lookup_entry : CacheQuery → Time → Store → Option CacheEntry × Store
  unfolding best_from prune
  lookup_entry q now s =
      if not (valid q.vector)
      then (none, s)
      else let s' = prune now s in (served (best_from q s'.entries (s'.cfg.min_score, none)), s')

abbrev pub filled : CacheQuery → CacheEntry → Entry
filled q e = record {
  user_id = q.user_id;
  model = q.model;
  key = q.key;
  vector = q.vector;
  response = e.response;
  created_at = e.created_at;
}

-- The first entry with the same key is overwritten; `none` where there is no such entry.
unfoldable pub overwrite : CacheQuery → CacheEntry → List Entry → Option (List Entry)
overwrite q new_entry [] = none
overwrite q new_entry (e ∷ es) =
    let rest : Option (List Entry) = elim (overwrite q new_entry es) [
      | none ↦ none
      | some more ↦ some (e ∷ more)
    ] in
    if is_same q e then some (filled q new_entry ∷ es) else rest

-- The oldest entry leaves a full store.
abbrev pub make_room : ℤ → List Entry → List Entry
make_room max es = if leb (pos_part max) (length es) then drop 1 es else es

abbrev pub appended : CacheQuery → CacheEntry → Store → Option (List Entry) → Store
appended q e s (some written) = record s { entries = written }
appended q e s none = record s {
  entries = make_room s.cfg.max_entries s.entries ++ filled q e ∷ [];
}

unfoldable pub store_entry : CacheQuery → CacheEntry → Time → Store → Store
unfolding overwrite prune
store_entry q e now s =
    if not (valid q.vector) || str_eq q.key ""
    then s
    else let s' = prune now s in appended q e s' (overwrite q e s'.entries)

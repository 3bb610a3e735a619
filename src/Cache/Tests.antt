-- ===== src/Cache/Tests.antt =====
-- A cache with one entry.
use ia_harness.Base.{pos, ◌-ℤ◌, String, ◌≡◌, refl, true, some, [], ◌∷◌}
use ia_harness.Core.Message.{Role, no_usage}
use ia_harness.Core.Config.{
  CacheEntry, CacheQuery, ChatResponse, SemanticCacheConfig, StopReason, Vector, Score,
}
use ia_harness.Cache.{valid, defaults}
use ia_harness.Cache.Store.{Store, new, prune, best_from, lookup_entry, overwrite, store_entry}
use ia_harness.Cache.Best.{Answer, lookup_entry-Answer}
use ia_harness.Cache.Bounded.{IsSound, fresh, asked, stored, Reached-IsSound}

abbrev alike : Vector → Vector → Score
alike a b = pos 5

abbrev cfg : SemanticCacheConfig
cfg = record { enabled = true; min_score = pos 3; ttl = pos 10; max_entries = pos 1 }

abbrev query : String → CacheQuery
query user = record { user_id = user; model = "gpt"; key = "k"; vector = 1 ∷ [] }

abbrev response : ChatResponse
response = record {
  message = record { id = ""; role = Role.assistant; parts = []; created_at = pos 0 };
  tool_calls = [];
  usage = no_usage;
  stop_reason = StopReason.completed;
  model = "gpt";
}

abbrev kept : CacheEntry
kept = record { response = response; created_at = pos 1; score = pos 0 }

abbrev store : Store
store = store_entry (query "ana") kept (pos 1) (new cfg)

finds : (lookup_entry alike (query "ana") (pos 2) store).0 ≡ some (record kept { score = pos 5 })
unfolding lookup_entry store_entry prune best_from overwrite new defaults valid ◌-ℤ◌
finds = refl

lookup_entry-Answer_example :
    Answer alike (query "ana") (pos 2) store (lookup_entry alike (query "ana") (pos 2) store).0
unfolding valid
lookup_entry-Answer_example = lookup_entry-Answer alike (query "ana") (pos 2) store refl

abbrev used : Store
used = (lookup_entry alike (query "eva") (pos 2) store).1

Reached-IsSound_example : IsSound used
Reached-IsSound_example =
    Reached-IsSound alike cfg used
      (asked (query "eva") (pos 2) store (stored (query "ana") kept (pos 1) (new cfg) fresh))

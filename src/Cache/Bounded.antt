-- ===== src/Cache/Bounded.antt =====
-- The cache in memory holds no more than its maximum (adapters/cache/inmem/store.go).
use ia_harness.Base.{
  suc, ◌+◌, ◌≤◌, ℤ, pos, pos_part, ◌<ℤ◌, leb, false, not, ◌||◌, str_eq, Option, none, some, List,
  [], ◌∷◌, ◌++◌, length, filter, leb_ℤ, All, All-append, ◌≡◌, arith, Bool-cases, inl, inr,
  length-append,
}
use ia_harness.Core.Message.{Time}
use ia_harness.Core.Config.{CacheEntry, CacheQuery, Score, SemanticCacheConfig, Vector}
use ia_harness.Cache.{valid, defaults}
use ia_harness.Cache.Store.{
  Entry, Store, new, prune, is_live, filled, overwrite, make_room, appended, store_entry,
  lookup_entry,
}
use ia_harness.Cache.Distinct.{
  same, IsDistinct, filter-length, filter-IsDistinct, drop-IsDistinct, Written, absent, present,
  overwrite-Written,
}

-- There is room for an entry, no more than the room is taken, and none is there twice.
pub record IsSound (s : Store) : Type 0 where
  pub room : pos 0 <ℤ s.cfg.max_entries
  pub within : length s.entries ≤ pos_part s.cfg.max_entries
  pub distinct : IsDistinct s.entries

holding :
    (s : Store) (es : List Entry)
    → pos 0 <ℤ s.cfg.max_entries
    → length es ≤ pos_part s.cfg.max_entries
    → IsDistinct es
    → IsSound (record s { entries = es })
holding s es room within distinct = record { room = room; within = within; distinct = distinct }

prune-IsSound : (now : Time) (s : Store) → IsSound s → IsSound (prune now s)
unfolding prune
prune-IsSound now s h = elim (Bool-cases (leb_ℤ s.cfg.ttl (pos 0))) [
  | inl no_limit ↦ rw no_limit h
  | inr limited ↦ rw limited (
      holding s (filter (is_live s.cfg now) s.entries) h.room
        (omega (arith, h.within, filter-length (is_live s.cfg now) s.entries))
        (filter-IsDistinct (is_live s.cfg now) s.entries h.distinct))
]

-- There is a free place after the oldest entry left a full store.
make_room-length :
    (max : ℤ) (es : List Entry)
    → pos 0 <ℤ max
    → length es ≤ pos_part max
    → length (make_room max es) + 1 ≤ pos_part max
make_room-length max [] room within = ground (arith, room)
make_room-length max (e ∷ es) room within =
    elim (Bool-cases (leb (pos_part max) (suc (length es)))) [
      | inl full ↦ rw full (omega (arith, within))
      | inr free ↦ rw free (ground (arith, free))
    ]

make_room-All :
    (P : Entry → Type 0) (max : ℤ) (es : List Entry) → All P es → All P (make_room max es)
make_room-All P max [] h = elim (Bool-cases (leb (pos_part max) 0)) [
  | inl full ↦ rw full tt
  | inr free ↦ rw free tt
]
make_room-All P max (e ∷ es) h = elim (Bool-cases (leb (pos_part max) (suc (length es)))) [
  | inl full ↦ rw full h.1
  | inr free ↦ rw free h
]

make_room-IsDistinct : (max : ℤ) (es : List Entry) → IsDistinct es → IsDistinct (make_room max es)
make_room-IsDistinct max es h = elim (Bool-cases (leb (pos_part max) (length es))) [
  | inl full ↦ rw full (drop-IsDistinct es h)
  | inr free ↦ rw free h
]

append-IsDistinct :
    (es : List Entry) (new_entry : Entry)
    → All (λ e. same e new_entry ≡ false) es
    → IsDistinct es
    → IsDistinct (es ++ new_entry ∷ [])
unfolding IsDistinct
append-IsDistinct [] new_entry apart h = (tt, tt)
append-IsDistinct (e ∷ es) new_entry apart h = (
  All-append (λ e'. same e e' ≡ false) es (new_entry ∷ []) (h.0, (apart.0, tt)),
  append-IsDistinct es new_entry apart.1 h.1,
)

appended-IsSound :
    (q : CacheQuery) (c : CacheEntry) (s : Store) (r : Option (List Entry))
    → IsSound s
    → Written q c s.entries r
    → IsSound (appended q c s r)
appended-IsSound q c s none h (absent apart) =
    holding s (make_room s.cfg.max_entries s.entries ++ filled q c ∷ []) h.room
      (omega (
        arith,
        make_room-length s.cfg.max_entries s.entries h.room h.within,
        length-append (make_room s.cfg.max_entries s.entries) (filled q c ∷ []),
      ))
      (append-IsDistinct (make_room s.cfg.max_entries s.entries) (filled q c)
        (make_room-All (λ e. same e (filled q c) ≡ false) s.cfg.max_entries s.entries apart)
        (make_room-IsDistinct s.cfg.max_entries s.entries h.distinct))
appended-IsSound q c s (some es) h (present _ len apart distinct) =
    holding s es h.room (omega (arith, len, h.within)) (distinct h.distinct)

store_entry-IsSound :
    (q : CacheQuery) (c : CacheEntry) (now : Time) (s : Store)
    → IsSound s
    → IsSound (store_entry q c now s)
unfolding store_entry
store_entry-IsSound q c now s h = elim (Bool-cases (not (valid q.vector) || str_eq q.key "")) [
  | inl refused ↦ rw refused h
  | inr kept ↦ rw kept (
      appended-IsSound q c (prune now s) (overwrite q c (prune now s).entries)
        (prune-IsSound now s h) (overwrite-Written q c (prune now s).entries))
]

new-IsSound : (cfg : SemanticCacheConfig) → IsSound (new cfg)
unfolding new defaults IsDistinct
new-IsSound cfg = elim (Bool-cases (leb_ℤ cfg.max_entries (pos 0))) [
  | inl none_set ↦ record { room = rw none_set (omega arith); within = omega arith; distinct = tt }
  | inr own ↦ record { room = rw own (ground (arith, own)); within = omega arith; distinct = tt }
]

module _ (cosine : Vector → Vector → Score) where
  lookup_entry-IsSound :
      (q : CacheQuery) (now : Time) (s : Store)
      → IsSound s
      → IsSound (lookup_entry cosine q now s).1
  unfolding lookup_entry
  lookup_entry-IsSound q now s h = elim (Bool-cases (valid q.vector)) [
    | inl ok ↦ rw ok (prune-IsSound now s h)
    | inr bad ↦ rw bad h
  ]

  -- The stores that lookups and writes make of a new one.
  pub data Reached (cfg : SemanticCacheConfig) : Store → Type 0 where
    fresh : Reached cfg (new cfg)
    asked :
        (q : CacheQuery) (now : Time) (s : Store)
        → Reached cfg s
        → Reached cfg (lookup_entry cosine q now s).1
    stored :
        (q : CacheQuery) (c : CacheEntry) (now : Time) (s : Store)
        → Reached cfg s
        → Reached cfg (store_entry q c now s)

  -- A store that lookups and writes make of a new one, in any order.
  pub Reached-IsSound : (cfg : SemanticCacheConfig) (s : Store) → Reached cfg s → IsSound s
  Reached-IsSound cfg _ fresh = new-IsSound cfg
  Reached-IsSound cfg _ (asked q now s r) = lookup_entry-IsSound q now s (Reached-IsSound cfg s r)
  Reached-IsSound cfg _ (stored q c now s r) =
      store_entry-IsSound q c now s (Reached-IsSound cfg s r)

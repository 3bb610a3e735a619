-- ===== src/Cache/Best.antt =====
-- What a lookup of the cache in memory answers (adapters/cache/inmem/store.go, Lookup).
use mathlib.Core.List.{
  Mem, Mem-prop, mem-cons_of_mem, mem-cons_self, eq-or-mem_of_mem-cons, not-mem-nil,
}
use mathlib.Core.HLevel.{×_prop}
use mathlib.Core.Bool.{Bool-set}
use mathlib.Core.Logic.Or
use mathlib.Core.Path.{subst}
use ia_harness.Base.{
  ap, ◌∙◌, pos, ◌≤ℤ◌, ◌<ℤ◌, ◌-ℤ◌, Bool, true, Option, none, some, List, [], ◌∷◌, leb_ℤ, filter, All,
  ◌≡◌, refl, arith, Bool-cases, inl, inr,
}
use ia_harness.Core.Message.{Time}
use ia_harness.Core.Config.{CacheEntry, CacheQuery, Score, Vector}
use ia_harness.Cache.{valid}
use ia_harness.Cache.Store.{Entry, Store, prune, is_live, is_own, best_from, served, lookup_entry}

-- An entry whose time to live is not over; without a limit none ever is.
abbrev pub IsFresh : Store → Time → Entry → Type 0
IsFresh s now e = pos 0 <ℤ s.cfg.ttl → now -ℤ e.created_at <ℤ s.cfg.ttl

live_test :
    (s : Store) (now : Time) (e : Entry)
    → now -ℤ e.created_at <ℤ s.cfg.ttl
    → is_live s.cfg now e ≡ true
live_test s now e h = ground (arith, h)

All-map :
    {A : Type 0} {P Q : A → Type 0} → ((x : A) → P x → Q x) → (xs : List A) → All P xs → All Q xs
All-map f [] h = tt
All-map f (x ∷ xs) h = (f x h.0, All-map f xs h.1)

module _ {A : Type 0} (p : A → Bool) where
  -- An element stays in the list where it passes the test.
  filter-mem : (x : A) (xs : List A) → Mem x (filter p xs) → Mem x xs × (p x ≡ true)
  filter-mem x [] m = absurd (not-mem-nil m)
  filter-mem x (y ∷ ys) m = elim (Bool-cases (p y)) [
    | inl stays ↦
        Or.elim (×_prop (Mem-prop {a = x} {l = y ∷ ys}) (Bool-set (p x) true))
          (eq-or-mem_of_mem-cons (rw stays at m))
          (λ e. (subst (λ z. Mem x (z ∷ ys)) e mem-cons_self, ap p e ∙ stays))
          (λ later. (let (a, b) = filter-mem x ys later in (mem-cons_of_mem y a, b)))
    | inr goes ↦ (let (a, b) = filter-mem x ys (rw goes at m) in (mem-cons_of_mem y a, b))
  ]

  filter-All : (P : A → Type 0) (xs : List A) → All P (filter p xs) → All (λ x. p x ≡ true → P x) xs
  filter-All P [] h = tt
  filter-All P (y ∷ ys) h = elim (Bool-cases (p y)) [
    | inl stays ↦ (let h' = rw stays at h in (λ e. h'.0, filter-All P ys h'.1))
    | inr goes ↦ (λ e. ground (arith, e, goes), filter-All P ys (rw goes at h))
  ]

prune-cfg : (now : Time) (s : Store) → (prune now s).cfg ≡ s.cfg
unfolding prune
prune-cfg now s = elim (Bool-cases (leb_ℤ s.cfg.ttl (pos 0))) [
  | inl no_limit ↦ rw no_limit refl
  | inr limit ↦ rw limit refl
]

pruned-Mem :
    (now : Time) (s : Store) (e : Entry)
    → Mem e (prune now s).entries
    → Mem e s.entries × IsFresh s now e
unfolding prune
pruned-Mem now s e m = elim (Bool-cases (leb_ℤ s.cfg.ttl (pos 0))) [
  | inl no_limit ↦ (rw no_limit at m, λ limited. ground (arith, limited, no_limit))
  | inr limit ↦
      (let (a, b) = filter-mem (is_live s.cfg now) e s.entries (rw limit at m) in
        (a, λ limited. ground (arith, b)))
]

pruned-All :
    (now : Time) (s : Store) (P : Entry → Type 0)
    → All P (prune now s).entries
    → All (λ e. IsFresh s now e → P e) s.entries
unfolding prune
pruned-All now s P h = elim (Bool-cases (leb_ℤ s.cfg.ttl (pos 0))) [
  | inl no_limit ↦ All-map {P = P} (λ e mine fresh. mine) s.entries (rw no_limit at h)
  | inr limit ↦
      All-map {P = λ e. is_live s.cfg now e ≡ true → P e}
        (λ e live fresh. live (live_test s now e (fresh (ground (arith, limit))))) s.entries
        (filter-All (is_live s.cfg now) P s.entries (rw limit at h))
]

module _ (cosine : Vector → Vector → Score) where
  abbrev pub score : CacheQuery → Entry → Score
  score q e = cosine q.vector e.vector

  -- No entry of the asking user for the model scores more, or none scores as much.
  abbrev pub NoneAbove : CacheQuery → Score → Entry → Type 0
  NoneAbove q best e = is_own q e ≡ true → score q e ≤ℤ best

  abbrev pub NoneAt : CacheQuery → Score → Entry → Type 0
  NoneAt q best e = is_own q e ≡ true → score q e <ℤ best

  -- What the loop finds in entries, starting with the best score `from`.
  pub data Outcome (q : CacheQuery) (from : Score × Option Entry) (es : List Entry)
      : Score × Option Entry → Type 0 where
    kept : All (NoneAt q from.0) es → Outcome q from es from
    found :
        (e : Entry)
        → Mem e es
        → is_own q e ≡ true
        → from.0 ≤ℤ score q e
        → All (NoneAbove q (score q e)) es
        → Outcome q from es (score q e, some e)

  lowered :
      (q : CacheQuery) (best : Score) (es : List Entry)
      → All (NoneAt q best) es
      → All (NoneAbove q best) es
  lowered q best [] h = tt
  lowered q best (e ∷ es) (low, rest) =
      (λ mine. (let less = low mine in ground (arith, less)), lowered q best es rest)

  passed_over :
      (q : CacheQuery) (from : Score × Option Entry) (e : Entry) (es : List Entry)
      {r : Score × Option Entry}
      → NoneAt q from.0 e
      → Outcome q from es r
      → Outcome q from (e ∷ es) r
  passed_over q from e es low (kept rest) = kept (low, rest)
  passed_over q from e es low (found e' member own high rest) =
      found e' (mem-cons_of_mem e member) own high (λ mine. ground (arith, low mine, high), rest)

  taken :
      (q : CacheQuery) (from : Score × Option Entry) (e : Entry) (es : List Entry)
      {r : Score × Option Entry}
      → is_own q e ≡ true
      → from.0 ≤ℤ score q e
      → Outcome q (score q e, some e) es r
      → Outcome q from (e ∷ es) r
  taken q from e es own high (kept rest) =
      found e mem-cons_self own high (λ mine. ground arith, lowered q (score q e) es rest)
  taken q from e es own high (found e' member own' higher rest) =
      found e' (mem-cons_of_mem e member) own' (ground arith) (λ mine. higher, rest)

  best_from-Outcome :
      (q : CacheQuery) (es : List Entry) (from : Score × Option Entry)
      → Outcome q from es (best_from cosine q es from)
  unfolding best_from
  best_from-Outcome q [] from = kept tt
  best_from-Outcome q (e ∷ es) from = elim (Bool-cases (is_own q e)) [
    | inl own ↦ elim (Bool-cases (leb_ℤ from.0 (score q e))) [
      | inl high ↦
          rw (own, high)
            (taken q from e es own (ground (arith, high))
              (best_from-Outcome q es (score q e, some e)))
      | inr low ↦
          rw (own, low)
            (passed_over q from e es (λ mine. ground (arith, low)) (best_from-Outcome q es from))
    ]
    | inr other ↦ rw other (
        passed_over q from e es (λ mine. ground (arith, mine, other)) (best_from-Outcome q es from))
  ]

  -- What a query is told about a store: the best of the fresh entries of its user and model that
  -- score at least the store's limit, or nothing where none does.
  pub data Answer (q : CacheQuery) (now : Time) (s : Store) : Option CacheEntry → Type 0 where
    missed : All (λ e. IsFresh s now e → NoneAt q s.cfg.min_score e) s.entries → Answer q now s none
    hit :
        (e : Entry)
        → Mem e s.entries
        → IsFresh s now e
        → is_own q e ≡ true
        → s.cfg.min_score ≤ℤ score q e
        → All (λ e'. IsFresh s now e' → NoneAbove q (score q e) e') s.entries
        → Answer q now s
            (some (record { response = e.response; created_at = e.created_at; score = score q e }))

  served-Answer :
      (q : CacheQuery) (now : Time) (s : Store) (r : Score × Option Entry)
      → Outcome q (s.cfg.min_score, none) (prune now s).entries r
      → Answer q now s (served cosine r)
  served-Answer q now s r (kept low) = missed (pruned-All now s (NoneAt q s.cfg.min_score) low)
  served-Answer q now s r (found e member own high below) =
      let (a, b) = pruned-Mem now s e member in
      hit e a b own high (pruned-All now s (NoneAbove q (score q e)) below)

  -- For a query whose vector is valid.
  pub lookup_entry-Answer :
      (q : CacheQuery) (now : Time) (s : Store)
      → valid q.vector ≡ true
      → Answer q now s (lookup_entry cosine q now s).0
  unfolding lookup_entry
  lookup_entry-Answer q now s ok =
      rw (ok, prune-cfg now s)
        (served-Answer q now s (best_from cosine q (prune now s).entries (s.cfg.min_score, none))
          (best_from-Outcome q (prune now s).entries (s.cfg.min_score, none)))

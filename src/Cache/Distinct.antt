-- ===== src/Cache/Distinct.antt =====
-- One entry at most of the cache in memory for a user, a model and a key
-- (adapters/cache/inmem/store.go).
use ia_harness.Base.{
  suc, ◌≤◌, Bool, true, false, ◌&&◌, str_eq, eq_iff, Option, none, some, List, [], ◌∷◌, length,
  drop, filter, All, ◌≡◌, refl, ap, sym, ◌∙◌, arith, Bool-cases, inl, inr,
}
use ia_harness.Core.Config.{CacheEntry, CacheQuery}
use ia_harness.Cache.Store.{Entry, is_same, filled, overwrite}

pub same : Entry → Entry → Bool
same a b = (str_eq a.user_id b.user_id && str_eq a.model b.model) && str_eq a.key b.key

-- No two entries stand for the same user, model and key.
unfoldable pub IsDistinct : List Entry → Type 0
unfolding same
IsDistinct [] = Unit
IsDistinct (e ∷ es) = All (λ e'. same e e' ≡ false) es × IsDistinct es

module _ {A : Type 0} where
  pub filter-length : (p : A → Bool) (xs : List A) → length (filter p xs) ≤ length xs
  filter-length p [] = omega arith
  filter-length p (x ∷ xs) = elim (Bool-cases (p x)) [
    | inl stays ↦ rw stays (omega (arith, filter-length p xs))
    | inr goes ↦ rw goes (omega (arith, filter-length p xs))
  ]

  pub All-filter : (P : A → Type 0) (p : A → Bool) (xs : List A) → All P xs → All P (filter p xs)
  All-filter P p [] h = tt
  All-filter P p (x ∷ xs) h = elim (Bool-cases (p x)) [
    | inl stays ↦ rw stays (h.0, All-filter P p xs h.1)
    | inr goes ↦ rw goes (All-filter P p xs h.1)
  ]

pub filter-IsDistinct :
    (p : Entry → Bool) (es : List Entry) → IsDistinct es → IsDistinct (filter p es)
unfolding IsDistinct
filter-IsDistinct p [] h = tt
filter-IsDistinct p (e ∷ es) h = elim (Bool-cases (p e)) [
  | inl stays ↦ rw stays (All-filter (λ e'. same e e' ≡ false) p es h.0, filter-IsDistinct p es h.1)
  | inr goes ↦ rw goes (filter-IsDistinct p es h.1)
]

pub drop-IsDistinct : (es : List Entry) → IsDistinct es → IsDistinct (drop 1 es)
unfolding IsDistinct
drop-IsDistinct [] h = tt
drop-IsDistinct (e ∷ es) h = h.1

-- A query's key stands where an entry of the same key stood.
module _ (q : CacheQuery) (c : CacheEntry) where
  same_key :
      (e : Entry)
      → is_same q e ≡ true
      → (e.user_id ≡ q.user_id) × (e.model ≡ q.model) × (e.key ≡ q.key)
  same_key e h = (
    (eq_iff e.user_id q.user_id).0 (ground (arith, h)),
    (eq_iff e.model q.model).0 (ground (arith, h)),
    (eq_iff e.key q.key).0 (ground (arith, h)),
  )

  same_right : (a e : Entry) → is_same q e ≡ true → same a e ≡ same a (filled q c)
  unfolding same
  same_right a e h = (let (u, m, k) = same_key e h in rw (u, m, k) refl)

  same_left : (e b : Entry) → is_same q e ≡ true → same e b ≡ same (filled q c) b
  unfolding same
  same_left e b h = (let (u, m, k) = same_key e h in rw (u, m, k) refl)

  -- What the loop over the entries leaves.
  pub data Written (es : List Entry) : Option (List Entry) → Type 0 where
    absent : All (λ e. same e (filled q c) ≡ false) es → Written es none
    present :
        (es' : List Entry)
        → length es' ≡ length es
        → ((a : Entry) → All (λ e. same a e ≡ false) es → All (λ e. same a e ≡ false) es')
        → (IsDistinct es → IsDistinct es')
        → Written es (some es')

  later-Written :
      (e : Entry) (es : List Entry) (r : Option (List Entry))
      → is_same q e ≡ false
      → Written es r
      → Written (e ∷ es) (elim r [ none ↦ none | some more ↦ some (e ∷ more) ])
  unfolding same IsDistinct
  later-Written e es none other (absent rest) = absent (other, rest)
  later-Written e es (some more) other (present _ len apart distinct) =
      present (e ∷ more) (ap suc len) (λ a h. (h.0, apart a h.1)) (λ h. (apart e h.0, distinct h.1))

  All-left :
      (e : Entry) (es : List Entry)
      → is_same q e ≡ true
      → All (λ e'. same e e' ≡ false) es
      → All (λ e'. same (filled q c) e' ≡ false) es
  All-left e [] match h = tt
  All-left e (b ∷ es) match h = (sym (same_left e b match) ∙ h.0, All-left e es match h.1)

  here-Written :
      (e : Entry) (es : List Entry) → is_same q e ≡ true → Written (e ∷ es) (some (filled q c ∷ es))
  unfolding IsDistinct
  here-Written e es match =
      present (filled q c ∷ es) refl (λ a h. (sym (same_right a e match) ∙ h.0, h.1))
        (λ h. (All-left e es match h.0, h.1))

  pub overwrite-Written : (es : List Entry) → Written es (overwrite q c es)
  unfolding overwrite
  overwrite-Written [] = absent tt
  overwrite-Written (e ∷ es) = elim (Bool-cases (is_same q e)) [
    | inl match ↦ rw match (here-Written e es match)
    | inr other ↦ rw other (later-Written e es (overwrite q c es) other (overwrite-Written es))
  ]

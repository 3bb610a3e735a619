-- ===== src/Memory/Index.antt =====
-- The index of the vectors (adapters/memory/inmem/retriever.go, ensureIndex): where it is ready, it has those of
-- the documents.
use mathlib.Core.Path.{subst}
use ia_harness.Base.{
  ℕ, ◌≤◌, ◌≡◌, refl, sym, ap, ◌∙◌, ◌⊎◌, inl, inr, String, str_eq, eq_iff, Bool, true, false, ◌||◌,
  ◌==◌, some, List, [], ◌∷◌, ◌++◌, map, any, is_empty, length, take, drop, Assoc, lookup, Result,
  ok, failed, if-true, if-false, arith, Bool-cases,
}
use ia_harness.Core.Message.{Bytes}
use ia_harness.Core.Config.{RetrievedItem, Vector}
use ia_harness.Media.Mime.{code_points}
use ia_harness.Route.{points_before, place, sort_strings}
use ia_harness.Memory.Retriever.{
  Embedder, Retriever, RetrieveError, index_failed, docs_of, or_none, texts, users_of, texts_of,
  write, place_vectors, called, indexed, take_index, ensure_index, first,
}

module _ {A B C : Type 0} (f : B → C) (g : A → B) where
  -- The images of the front, and of the rest.
  take-map :
      (xs : List A) (ys : List B) → take (length xs) (map f (map g xs ++ ys)) ≡ map f (map g xs)
  take-map [] ys = refl
  take-map (x ∷ xs) ys = ap (λ zs. f (g x) ∷ zs) (take-map xs ys)

  drop-map : (xs : List A) (ys : List B) → drop (length xs) (map f (map g xs ++ ys)) ≡ map f ys
  drop-map [] ys = refl
  drop-map (x ∷ xs) ys = drop-map xs ys

length-map : {A B : Type 0} (f : A → B) (xs : List A) → length (map f xs) ≡ length xs
length-map f [] = refl
length-map f (x ∷ xs) = omega (arith, length-map f xs)

module _ (p : String → Bool) where
  any-place : (a : String) (bs : List String) → any p (place a bs) ≡ (p a || any p bs)
  unfolding place
  any-place a [] = refl
  any-place a (b ∷ bs) = elim (Bool-cases (points_before (code_points b) (code_points a))) [
    | inl later ↦ rw later (ground (arith, any-place a bs))
    | inr first ↦ rw first refl
  ]

  any-sort_strings : (bs : List String) → any p (sort_strings bs) ≡ any p bs
  unfolding sort_strings
  any-sort_strings [] = refl
  any-sort_strings (b ∷ bs) =
      any-place b (sort_strings bs) ∙ ap (λ x. p b || x) (any-sort_strings bs)

abbrev pub Docs : Type 0
Docs = Assoc (List RetrievedItem)

keys-lookup :
    (docs : Docs) (user : String)
    → is_empty (or_none (lookup user docs)) ≡ false
    → any (str_eq user) (map (λ (e : String × List RetrievedItem). e.0) docs) ≡ true
unfolding lookup
keys-lookup [] user h = absurd (ground (arith, h))
keys-lookup (e ∷ docs) user h = elim (Bool-cases (str_eq e.0 user)) [
  | inl same ↦ ground (arith, eq_iff e.0 user, eq_iff user e.0)
  | inr other ↦ ground (arith, keys-lookup docs user)
]

lists_user :
    (docs : Docs) (user : String)
    → is_empty (docs_of docs user) ≡ false
    → any (str_eq user) (users_of docs) ≡ true
unfolding docs_of users_of
lists_user docs user h =
    any-sort_strings (str_eq user) (map (λ (e : String × List RetrievedItem). e.0) docs)
    ∙ keys-lookup docs user h

texts-empty :
    (ds : List RetrievedItem) (rest : List Bytes)
    → is_empty (texts ds ++ rest) ≡ true
    → (is_empty ds ≡ true) × (is_empty rest ≡ true)
texts-empty [] rest h = (refl, h)
texts-empty (d ∷ ds) rest h = absurd (ground (arith, h))

texts_of-empty :
    (docs : Docs) (users : List String) (user : String)
    → is_empty (texts_of docs users) ≡ true
    → any (str_eq user) users ≡ true
    → is_empty (docs_of docs user) ≡ true
unfolding texts_of
texts_of-empty docs [] user none_of h = absurd (ground (arith, h))
texts_of-empty docs (u ∷ users) user none_of h =
    let (here, there) = texts-empty (docs_of docs u) (texts_of docs users) none_of in
    elim (Bool-cases (str_eq user u)) [
      | inl same ↦
          subst (λ name. is_empty (docs_of docs name) ≡ true) (sym ((eq_iff user u).0 same)) here
      | inr other ↦ texts_of-empty docs users user there (ground (arith, h, other))
    ]

module _ (vec : Bytes → Vector) where
  abbrev pub vectors_for : Docs → String → List Vector
  vectors_for docs user = map vec (texts (docs_of docs user))

  carried :
      (docs : Docs) (u : String) (users : List String) (vectors : String → List Vector)
      (user : String)
      → (vectors user ≡ vectors_for docs user) ⊎ (any (str_eq user) (u ∷ users) ≡ true)
      → (write u (vectors_for docs u) vectors user ≡ vectors_for docs user)
        ⊎ (any (str_eq user) users ≡ true)
  carried docs u users vectors user h = elim (Bool-cases (str_eq user u)) [
    | inl same ↦ inl (rw same (ap (vectors_for docs) (sym ((eq_iff user u).0 same))))
    | inr other ↦ elim h [
      | inl known ↦ inl (rw other known)
      | inr later ↦ inr (ground (arith, later, other))
    ]
  ]

  place_vectors_lem :
      (docs : Docs) (users : List String) (vectors : String → List Vector) (user : String)
      → (vectors user ≡ vectors_for docs user) ⊎ (any (str_eq user) users ≡ true)
      → place_vectors docs users (map vec (texts_of docs users)) vectors user
        ≡ vectors_for docs user
  unfolding place_vectors texts_of
  place_vectors_lem docs [] vectors user (inl h) = h
  place_vectors_lem docs [] vectors user (inr h) = absurd (ground (arith, h))
  place_vectors_lem docs (u ∷ users) vectors user h =
      rw (take-map vec (λ (d : RetrievedItem). d.text) (docs_of docs u) (texts_of docs users)) (
        rw (drop-map vec (λ (d : RetrievedItem). d.text) (docs_of docs u) (texts_of docs users)) (
          place_vectors_lem docs users (write u (vectors_for docs u) vectors) user
            (carried docs u users vectors user h)))

  same_length : (asked : List Bytes) → (length (map vec asked) == length asked) ≡ true
  same_length asked = ground (arith, length-map vec asked)

  -- Where the index is ready, the vectors of a user with documents are those of the documents.
  unfoldable pub IsIndexed : Retriever → Type 0
  IsIndexed r =
      r.ready ≡ true
      → (user : String) → is_empty (docs_of r.docs user) ≡ false
      → r.vectors user ≡ vectors_for r.docs user

  indexed-IsIndexed :
      (r : Retriever) → IsIndexed (indexed (map vec (texts_of r.docs (users_of r.docs))) r)
  unfolding IsIndexed
  indexed-IsIndexed r ready user h =
      place_vectors_lem r.docs (users_of r.docs) r.vectors user (inr (lists_user r.docs user h))

  empty-IsIndexed :
      (r : Retriever)
      → is_empty (texts_of r.docs (users_of r.docs)) ≡ true
      → IsIndexed (record r { ready = true })
  unfolding IsIndexed
  empty-IsIndexed r none_of ready user h = absurd (
      ground
        (arith, h, texts_of-empty r.docs (users_of r.docs) user none_of (lists_user r.docs user h)))

  module _ (embed : Embedder) where
    -- The embedder failed on a call that had as many before it, or more.
    abbrev pub Broken : ℕ → Type 0
    Broken from =
        (n : ℕ) × ((from ≤ n)
          × ((asked : List Bytes) × ((e : String) × (embed n asked ≡ failed e))))

    abbrev pub Outcome : Docs → ℕ → Result RetrieveError (Unit {0}) × Retriever → Type 0
    Outcome docs from (res, r) =
        IsIndexed r
        × (r.docs ≡ docs)
        × (((res ≡ ok tt) × (r.ready ≡ true) × (from ≤ r.calls))
            ⊎ (((x : RetrieveError) × (res ≡ failed x)) × Broken from))

    module _
        (honest : (n : ℕ) (asked : List Bytes)
          → (embed n asked ≡ ok (map vec asked))
            ⊎ ((e : String) × (embed n asked ≡ failed e))) where
      take_index-Outcome :
          (r : Retriever)
          → IsIndexed r
          → Outcome r.docs r.calls (
              take_index
                (length (texts_of r.docs (users_of r.docs)))
                (called r)
                (embed r.calls (texts_of r.docs (users_of r.docs))))
      unfolding IsIndexed
      take_index-Outcome r h =
          let all : List Bytes = texts_of r.docs (users_of r.docs) in
          elim (honest r.calls all) [
            | inl good ↦
                subst (λ a. Outcome r.docs r.calls (take_index (length all) (called r) a))
                  (sym good)
                  (subst (Outcome r.docs r.calls) (sym (if-true _ _ _ (same_length all)))
                    (indexed-IsIndexed (called r), refl, inl (refl, refl, omega arith)))
            | inr (e, bad) ↦
                subst (λ a. Outcome r.docs r.calls (take_index (length all) (called r) a)) (sym bad)
                  (h, refl, inr ((index_failed e, refl), (r.calls, (omega arith, (all, (e, bad))))))
          ]

      pub ensure_index-Outcome :
          (r : Retriever) → IsIndexed r → Outcome r.docs r.calls (ensure_index (some embed) r)
      unfolding ensure_index
      ensure_index-Outcome r h =
          let all : List Bytes = texts_of r.docs (users_of r.docs) in
          elim (Bool-cases r.ready) [
            | inl ready ↦
                subst (Outcome r.docs r.calls) (sym (if-true _ _ _ ready))
                  (h, refl, inl (refl, ready, omega arith))
            | inr fresh ↦
                subst (Outcome r.docs r.calls) (sym (if-false _ _ _ fresh))
                  (elim (Bool-cases (is_empty all)) [
                    | inl nothing ↦
                        subst (Outcome r.docs r.calls) (sym (if-true _ _ _ nothing))
                          (empty-IsIndexed r nothing, refl, inl (refl, refl, omega arith))
                    | inr something ↦
                        subst (Outcome r.docs r.calls) (sym (if-false _ _ _ something))
                          (take_index-Outcome r h)
                  ])
          ]

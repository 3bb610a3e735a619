-- ===== src/Memory/Ranking.antt =====
-- What a retrieval answers (adapters/memory/inmem/retriever.go, NewRetriever and Retrieve).
use mathlib.Core.Path.{subst}
use ia_harness.Base.{
  ℕ, ◌≤◌, ◌≡◌, refl, sym, ap, ◌∙◌, ◌⊎◌, inl, inr, String, true, false, ℤ, some, List, [], ◌∷◌, map,
  is_empty, Assoc, Result, ok, failed, if◌then◌else◌, arith, Bool-cases,
}
use ia_harness.Core.Message.{Bytes}
use ia_harness.Core.Config.{RetrievedItem, Score, Vector}
use ia_harness.Memory.Retriever.{
  Embedder, Retriever, RetrieveError, query_failed, docs_of, texts, ensure_index, empty,
  new_retriever, rank, first, score_all, take_query, ask_query, asks_nothing, retrieve,
}
use ia_harness.Memory.Index.{Docs, IsIndexed, Broken, Outcome, ensure_index-Outcome}

module _ (vec : Bytes → Vector) where
  module _ (cosine : Vector → Vector → Score) where
    -- The documents with their scores, each from its own text.
    abbrev pub scored : Bytes → List RetrievedItem → List RetrievedItem
    scored query = map (λ (d : RetrievedItem). record d { score = cosine (vec query) (vec d.text) })

    score_all-vectors :
        (query : Bytes) (ds : List RetrievedItem)
        → score_all cosine (vec query) ds (map vec (texts ds)) ≡ scored query ds
    unfolding score_all
    score_all-vectors query [] = refl
    score_all-vectors query (d ∷ ds) =
        ap (λ rest. record d { score = cosine (vec query) (vec d.text) } ∷ rest)
          (score_all-vectors query ds)

    abbrev ranked : Docs → String → Bytes → ℤ → List RetrievedItem
    ranked docs user query k = first k (rank (scored query (docs_of docs user)))

    -- What a retrieval answers without an index.
    abbrev pub direct : Docs → String → Bytes → ℤ → List RetrievedItem
    direct docs user query k =
        if asks_nothing cosine (docs_of docs user) query k then [] else ranked docs user query k

  module _ (embed : Embedder) where
    -- The retriever after some retrievals.
    abbrev pub used :
        (Vector → Vector → Score) → List (String × (Bytes × ℤ)) → Retriever → Retriever
    used cosine [] r = r
    used cosine ((user, (query, k)) ∷ later) r =
        used cosine later (retrieve cosine (some embed) user query k r).1

    abbrev pub IsAnswer : (Vector → Vector → Score) → Docs → String → Bytes → ℤ → Retriever → Type 0
    IsAnswer cosine docs user query k r =
        ((retrieve cosine (some embed) user query k r).0 ≡ ok (direct cosine docs user query k))
        ⊎ (((x : RetrieveError) × ((retrieve cosine (some embed) user query k r).0 ≡ failed x))
            × Broken vec embed r.calls)

    module _
        (honest : (n : ℕ) (asked : List Bytes)
          → (embed n asked ≡ ok (map vec asked))
            ⊎ ((e : String) × (embed n asked ≡ failed e))) where
      module _ (cosine : Vector → Vector → Score) (user : String) (query : Bytes) (k : ℤ) where
        abbrev Answers :
            Docs
            → ℕ
            → List RetrievedItem
            → Result RetrieveError (List RetrievedItem) × Retriever
            → Type 0
        Answers docs from items (res, r) =
            IsIndexed vec r
            × (r.docs ≡ docs)
            × ((res ≡ ok items)
                ⊎ (((x : RetrieveError) × (res ≡ failed x)) × Broken vec embed from))

        take_query-Answers :
            (r : Retriever) (from : ℕ)
            → IsIndexed vec r
            → r.ready ≡ true
            → from ≤ r.calls
            → is_empty (docs_of r.docs user) ≡ false
            → Answers r.docs from
                (ranked cosine r.docs user query k)
                (ask_query cosine embed user query k (ok tt, r))
        unfolding IsIndexed
        take_query-Answers r from h ready fresh some_docs = elim (honest r.calls (query ∷ [])) [
          | inl good ↦ (
            h,
            refl,
            inl (
                subst
                  (λ a.
                    take_query cosine (docs_of r.docs user) (r.vectors user) k a
                    ≡ ok (ranked cosine r.docs user query k))
                  (sym good)
                  (ap (λ ds. ok (first k (rank ds)))
                    (ap (score_all cosine (vec query) (docs_of r.docs user))
                        (h ready user some_docs)
                      ∙ score_all-vectors cosine query (docs_of r.docs user)))),
          )
          | inr (e, bad) ↦ (
            h,
            refl,
            inr (
              (query_failed e, ap (take_query cosine (docs_of r.docs user) (r.vectors user) k) bad),
              (r.calls, (fresh, (query ∷ [], (e, bad)))),
            ),
          )
        ]

        ask_query-Answers :
            (docs : Docs) (from : ℕ) (o : Result RetrieveError (Unit {0}) × Retriever)
            → Outcome vec embed docs from o
            → is_empty (docs_of docs user) ≡ false
            → Answers docs from
                (ranked cosine docs user query k)
                (ask_query cosine embed user query k o)
        ask_query-Answers docs from (failed e, r) (idx, same, inl h) some_docs =
            absurd (ground (arith, h))
        ask_query-Answers docs from (failed e, r) (idx, same, inr h) some_docs =
            (idx, same, inr ((e, refl), h.1))
        ask_query-Answers docs from (ok t, r) (idx, same, inr h) some_docs =
            absurd (ground (arith, h.0.1))
        ask_query-Answers docs from (ok t, r) (idx, same, inl h) some_docs =
            subst
              (λ ds.
                Answers ds from (ranked cosine ds user query k)
                  (ask_query cosine embed user query k (ok t, r)))
              same
              (take_query-Answers r from idx h.1 h.2
                (subst (λ ds. is_empty (docs_of ds user) ≡ false) (sym same) some_docs))

        retrieve-Answers :
            (r : Retriever)
            → IsIndexed vec r
            → Answers r.docs r.calls
                (direct cosine r.docs user query k)
                (retrieve cosine (some embed) user query k r)
        unfolding retrieve
        retrieve-Answers r h =
            elim (Bool-cases (asks_nothing cosine (docs_of r.docs user) query k)) [
              | inl nothing ↦ rw nothing (h, refl, inl refl)
              | inr asks ↦ rw asks (
                  ask_query-Answers r.docs r.calls (ensure_index (some embed) r)
                    (ensure_index-Outcome vec embed honest r h) (ground (arith, asks)))
            ]

      used-IsIndexed :
          (cosine : Vector → Vector → Score) (earlier : List (String × (Bytes × ℤ))) (r : Retriever)
          → IsIndexed vec r
          → IsIndexed vec (used cosine earlier r) × ((used cosine earlier r).docs ≡ r.docs)
      used-IsIndexed cosine [] r h = (h, refl)
      used-IsIndexed cosine ((user, (query, k)) ∷ later) r h =
          let (idx, same, answer) = retrieve-Answers cosine user query k r h in
          let (after, kept) =
            used-IsIndexed cosine later (retrieve cosine (some embed) user query k r).1 idx in
          (after, kept ∙ same)

      new_retriever-IsIndexed :
          (docs : Docs)
          → IsIndexed vec (new_retriever (some embed) docs)
            × ((new_retriever (some embed) docs).docs ≡ docs)
      unfolding new_retriever IsIndexed
      new_retriever-IsIndexed docs =
          let (idx, same, answer) =
            ensure_index-Outcome vec embed honest (empty docs)
              (λ ready. absurd (ground (arith, ready))) in
          (idx, same)

      -- Where an embedder gives each text its vector, or fails: a retrieval after a new retriever and any other
      -- retrievals answers what scoring each document of the user by its own text gives, the best k of it in their
      -- order, or nothing without documents, words or a positive k; it fails only where one of its own calls of the
      -- embedder failed, or a later one would.
      pub retrieve-IsAnswer :
          (cosine : Vector → Vector → Score) (docs : Assoc (List RetrievedItem))
          (earlier : List (String × (Bytes × ℤ))) (user : String) (query : Bytes) (k : ℤ)
          → IsAnswer cosine docs user query k
              (used cosine earlier (new_retriever (some embed) docs))
      retrieve-IsAnswer cosine docs earlier user query k =
          let r = new_retriever (some embed) docs in
          let (idx, same) = new_retriever-IsIndexed docs in
          let (after, kept) = used-IsIndexed cosine earlier r idx in
          let (_, _, answer) = retrieve-Answers cosine user query k (used cosine earlier r) after in
          subst (λ ds. IsAnswer cosine ds user query k (used cosine earlier r)) (kept ∙ same) answer

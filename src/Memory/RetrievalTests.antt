-- ===== src/Memory/RetrievalTests.antt =====
-- Two users with documents, and an embedder whose first call fails.
use ia_harness.Base.{
  ℕ, zero, suc, pos, min, length, ◌≡◌, refl, ◌⊎◌, inl, inr, String, some, List, [], ◌∷◌, map, Assoc,
  lookup, Result, ok, failed,
}
use ia_harness.Core.Message.{Bytes}
use ia_harness.Core.Config.{RetrievedItem, Score, Vector}
use ia_harness.Memory.Retriever.{new_retriever, retrieve}
use ia_harness.Memory.Ranking.{IsAnswer, used, retrieve-IsAnswer}

abbrev vec : Bytes → Vector
vec text = text

abbrev flaky : ℕ → List Bytes → Result String (List Vector)
flaky zero asked = failed "down"
flaky (suc n) asked = ok (map vec asked)

flaky_honest :
    (n : ℕ) (asked : List Bytes)
    → (flaky n asked ≡ ok (map vec asked)) ⊎ ((e : String) × (flaky n asked ≡ failed e))
flaky_honest zero asked = inr ("down", refl)
flaky_honest (suc n) asked = inl refl

abbrev overlap : Vector → Vector → Score
overlap a b = pos (min (length a) (length b))

abbrev doc : Bytes → Bytes → RetrievedItem
doc id text = record { id = id; text = text; source = []; score = pos 0 }

abbrev docs : Assoc (List RetrievedItem)
docs =
    ("bob", doc (b'x' ∷ []) (b'o' ∷ b'k' ∷ []) ∷ [])
    ∷ ("ana", doc (b'a' ∷ []) (b'h' ∷ []) ∷ doc (b'b' ∷ []) (b'h' ∷ b'i' ∷ []) ∷ [])
    ∷ []

-- The first call failed, so the first retrieval makes the index, and the second uses it.
best_of_ana :
    (retrieve overlap
      (some flaky)
      "ana"
      (b'h' ∷ b'e' ∷ [])
      (pos 1)
      (new_retriever (some flaky) docs)).0
    ≡ ok (record (doc (b'b' ∷ []) (b'h' ∷ b'i' ∷ [])) { score = pos 2 } ∷ [])
unfolding retrieve new_retriever lookup
best_of_ana = refl

retrieve-IsAnswer_example :
    IsAnswer vec flaky overlap docs "ana"
      (b'h' ∷ b'e' ∷ [])
      (pos 1)
      (used vec flaky overlap (("bob", (b'o' ∷ [], pos 3)) ∷ []) (new_retriever (some flaky) docs))
retrieve-IsAnswer_example =
    retrieve-IsAnswer vec flaky flaky_honest overlap docs (("bob", (b'o' ∷ [], pos 3)) ∷ []) "ana"
      (b'h' ∷ b'e' ∷ []) (pos 1)

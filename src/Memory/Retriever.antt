-- ===== src/Memory/Retriever.antt =====
-- adapters/memory/inmem/retriever.go: the documents of the users and the index of their vectors. The
-- embedder is a parameter, which sees how many calls it had before; the score is of the library's floats.
use ia_harness.Base.{
  ℕ, String, str_eq, Bool, true, false, ◌&&◌, ◌||◌, ◌+◌, ltb_ℤ, leb_ℤ, ℤ, pos, pos_part, Option,
  none, some, List, [], ◌∷◌, ◌++◌, map, is_empty, length, take, drop, Assoc, lookup, Result, ok,
  failed, if◌then◌else◌, ◌==◌,
}
use ia_harness.Core.Message.{Bytes}
use ia_harness.Core.Config.{RetrievedItem, Score, Vector}
use ia_harness.Core.Text.{trim_bytes}
use ia_harness.Route.{points_before, sort_strings}

abbrev pub Embedder : Type 0
Embedder = ℕ → List Bytes → Result String (List Vector)

pub record Retriever : Type 0 where
  pub docs : Assoc (List RetrievedItem)
  pub vectors : String → List Vector
  pub ready : Bool
  -- How many calls of the embedder there were.
  pub calls : ℕ

pub data RetrieveError : Type 0 where
  no_embedder no_vector : RetrieveError
  wrong_count : ℕ → ℕ → RetrieveError
  index_failed query_failed : String → RetrieveError

abbrev pub or_none : Option (List RetrievedItem) → List RetrievedItem
or_none none = []
or_none (some docs) = docs

unfoldable pub docs_of : Assoc (List RetrievedItem) → String → List RetrievedItem
docs_of docs user = or_none (lookup user docs)

abbrev pub texts : List RetrievedItem → List Bytes
texts = map (λ (d : RetrievedItem). d.text)

unfoldable pub users_of : Assoc (List RetrievedItem) → List String
unfolding sort_strings
users_of docs = sort_strings (map (λ (e : String × List RetrievedItem). e.0) docs)

unfoldable pub texts_of : Assoc (List RetrievedItem) → List String → List Bytes
unfolding docs_of
texts_of docs [] = []
texts_of docs (user ∷ users) = texts (docs_of docs user) ++ texts_of docs users

abbrev pub write : String → List Vector → (String → List Vector) → String → List Vector
write user vs vectors other = if str_eq other user then vs else vectors other

-- The loop over the users, each with the vectors from its position on.
unfoldable pub place_vectors :
    Assoc (List RetrievedItem)
    → List String
    → List Vector
    → (String → List Vector)
    → String
    → List Vector
unfolding docs_of
place_vectors docs [] vs vectors = vectors
place_vectors docs (user ∷ users) vs vectors =
    let count = length (docs_of docs user) in
    place_vectors docs users (drop count vs) (write user (take count vs) vectors)

abbrev pub called : Retriever → Retriever
called r = record r { calls = r.calls + 1 }

abbrev pub indexed : List Vector → Retriever → Retriever
indexed vs r = record r {
  vectors = place_vectors r.docs (users_of r.docs) vs r.vectors;
  ready = true;
}

abbrev pub take_index :
    ℕ → Retriever → Result String (List Vector) → Result RetrieveError (Unit {0}) × Retriever
take_index count r (failed e) = (failed (index_failed e), r)
take_index count r (ok vs) =
    if length vs == count
    then (ok tt, indexed vs r)
    else (failed (wrong_count (length vs) count), r)

unfoldable pub ensure_index :
    Option Embedder → Retriever → Result RetrieveError (Unit {0}) × Retriever
unfolding place_vectors users_of texts_of
ensure_index none r = if r.ready then (ok tt, r) else (failed no_embedder, r)
ensure_index (some embed) r =
    let all = texts_of r.docs (users_of r.docs) in
    if r.ready
    then (ok tt, r)
    else if is_empty all
    then (ok tt, record r { ready = true })
    else take_index (length all) (called r) (embed r.calls all)

abbrev pub empty : Assoc (List RetrievedItem) → Retriever
empty docs = record { docs = docs; vectors = λ user. []; ready = false; calls = 0 }

-- `NewRetriever`
unfoldable pub new_retriever : Option Embedder → Assoc (List RetrievedItem) → Retriever
unfolding ensure_index
new_retriever embedder docs = (ensure_index embedder (empty docs)).1

-- The order of `sort.Slice`: the better score first, then by the ids.
unfoldable pub ranks_before : RetrievedItem → RetrievedItem → Bool
unfolding points_before
ranks_before a b =
    ltb_ℤ b.score a.score
    || (leb_ℤ b.score a.score && leb_ℤ a.score b.score && points_before a.id b.id)

unfoldable pub rank_in : RetrievedItem → List RetrievedItem → List RetrievedItem
unfolding ranks_before
rank_in d [] = d ∷ []
rank_in d (x ∷ xs) = let later = rank_in d xs in if ranks_before x d then x ∷ later else d ∷ x ∷ xs

unfoldable pub rank : List RetrievedItem → List RetrievedItem
unfolding rank_in
rank [] = []
rank (d ∷ ds) = rank_in d (rank ds)

abbrev pub first : ℤ → List RetrievedItem → List RetrievedItem
first k ds = if ltb_ℤ k (pos (length ds)) then take (pos_part k) ds else ds

module _ (cosine : Vector → Vector → Score) where
  -- The loop over the documents: a document past the vectors keeps its score.
  unfoldable pub score_all : Vector → List RetrievedItem → List Vector → List RetrievedItem
  score_all q [] vs = []
  score_all q (d ∷ ds) [] = d ∷ score_all q ds []
  score_all q (d ∷ ds) (v ∷ vs) = record d { score = cosine q v } ∷ score_all q ds vs

  abbrev pub take_query :
      List RetrievedItem
      → List Vector
      → ℤ
      → Result String (List Vector)
      → Result RetrieveError (List RetrievedItem)
  take_query docs vectors k (failed e) = failed (query_failed e)
  take_query docs vectors k (ok []) = failed no_vector
  take_query docs vectors k (ok (q ∷ _)) = ok (first k (rank (score_all q docs vectors)))

  abbrev pub ask_query :
      Embedder
      → String
      → Bytes
      → ℤ
      → Result RetrieveError (Unit {0}) × Retriever
      → Result RetrieveError (List RetrievedItem) × Retriever
  ask_query embed user query k (failed e, r) = (failed e, r)
  ask_query embed user query k (ok done, r) =
      (take_query (docs_of r.docs user) (r.vectors user) k (embed r.calls (query ∷ [])), called r)

  abbrev pub retrieve_with :
      Option Embedder
      → String
      → Bytes
      → ℤ
      → Retriever
      → Result RetrieveError (List RetrievedItem) × Retriever
  retrieve_with none user query k r = (failed no_embedder, r)
  retrieve_with (some embed) user query k r =
      ask_query embed user query k (ensure_index (some embed) r)

  abbrev pub asks_nothing : List RetrievedItem → Bytes → ℤ → Bool
  asks_nothing docs query k = leb_ℤ k (pos 0) || is_empty docs || is_empty (trim_bytes query)

  unfoldable pub retrieve :
      Option Embedder
      → String
      → Bytes
      → ℤ
      → Retriever
      → Result RetrieveError (List RetrievedItem) × Retriever
  unfolding ensure_index docs_of rank score_all trim_bytes
  retrieve embedder user query k r =
      if asks_nothing (docs_of r.docs user) query k
      then (ok [], r)
      else retrieve_with embedder user query k r

-- ===== src/Memory/Listing.antt =====
-- What a listing of the facts of a user shows (adapters/memory/inmem/store.go, List).
use mathlib.Core.List.{Permᴰ}
use mathlib.Core.List.Permᴰ as PermD
use ia_harness.Base.{
  ℕ, ◌<◌, ◌<ℤ◌, ltb_ℤ, ◌⊎◌, ◌==◌, ◌≡◌, refl, inl, inr, String, true, false, List, [], ◌∷◌, arith,
  Bool-cases,
}
use ia_harness.Core.Config.{Fact}
use ia_harness.Media.Mime.{code_points}
use ia_harness.Route.{points_before}
use ia_harness.Memory.{Store, comes_before, insert, sort_facts, list}

points_before-asym : (a b : List ℕ) → points_before a b ≡ true → points_before b a ≡ false
unfolding points_before
points_before-asym [] [] h = refl
points_before-asym [] (b ∷ bs) h = refl
points_before-asym (a ∷ more) [] h = absurd (ground (arith, h))
points_before-asym (a ∷ more) (b ∷ bs) h = ground (arith, h, points_before-asym more bs)

comes_before-asym : (a b : Fact) → comes_before a b ≡ true → comes_before b a ≡ false
unfolding comes_before
comes_before-asym a b h =
    ground (arith, h, points_before-asym (code_points a.id) (code_points b.id))

-- No fact stands right after one that it comes before.
abbrev pub Follows : Fact → List Fact → Type 0
Follows f [] = Unit
Follows f (g ∷ gs) = comes_before g f ≡ false

unfoldable pub IsOrdered : List Fact → Type 0
IsOrdered [] = Unit
IsOrdered (f ∷ fs) = Follows f fs × IsOrdered fs

insert-Follows :
    (g f : Fact) (gs : List Fact) → comes_before g f ≡ true → Follows g gs → Follows g (insert f gs)
unfolding insert
insert-Follows g f [] before h = comes_before-asym g f before
insert-Follows g f (x ∷ gs) before h = elim (Bool-cases (comes_before x f)) [
  | inl first ↦ rw first h
  | inr later ↦ rw later (comes_before-asym g f before)
]

insert-IsOrdered : (f : Fact) (gs : List Fact) → IsOrdered gs → IsOrdered (insert f gs)
unfolding insert IsOrdered
insert-IsOrdered f [] h = (tt, tt)
insert-IsOrdered f (g ∷ gs) h = elim (Bool-cases (comes_before g f)) [
  | inl first ↦ rw first (insert-Follows g f gs first h.0, insert-IsOrdered f gs h.1)
  | inr later ↦ rw later (later, h)
]

insert-perm : (f : Fact) (gs : List Fact) → Permᴰ (f ∷ gs) (insert f gs)
unfolding insert
insert-perm f [] = PermD.refl (f ∷ [])
insert-perm f (g ∷ gs) = elim (Bool-cases (comes_before g f)) [
  | inl first ↦ rw first (Permᴰ.trans (Permᴰ.swap refl refl) (Permᴰ.cons refl (insert-perm f gs)))
  | inr later ↦ rw later (PermD.refl (f ∷ g ∷ gs))
]

sort-perm : (fs : List Fact) → Permᴰ fs (sort_facts fs)
unfolding sort_facts
sort-perm [] = Permᴰ.nil
sort-perm (f ∷ fs) = Permᴰ.trans (Permᴰ.cons refl (sort-perm fs)) (insert-perm f (sort_facts fs))

sort-IsOrdered : (fs : List Fact) → IsOrdered (sort_facts fs)
unfolding sort_facts IsOrdered
sort-IsOrdered [] = tt
sort-IsOrdered (f ∷ fs) = insert-IsOrdered f (sort_facts fs) (sort-IsOrdered fs)

-- The order of texts by their code points, and the order that a listing promises.
pub data AtMost : List ℕ → List ℕ → Type 0 where
  shorter : {bs : List ℕ} → AtMost [] bs
  less : {a b : ℕ} {more bs : List ℕ} → a < b → AtMost (a ∷ more) (b ∷ bs)
  same : {a b : ℕ} {more bs : List ℕ} → a ≡ b → AtMost more bs → AtMost (a ∷ more) (b ∷ bs)

-- The one that changed later stands first; of two of one instant the one with the smaller id.
abbrev pub IsNewer : Fact → Fact → Type 0
IsNewer f g =
    (g.updated_at <ℤ f.updated_at)
    ⊎ ((g.updated_at ≡ f.updated_at) × AtMost (code_points f.id) (code_points g.id))

abbrev pub NewestFirst : List Fact → Type 0
NewestFirst [] = Unit
NewestFirst (f ∷ []) = Unit
NewestFirst (f ∷ g ∷ gs) = IsNewer f g × NewestFirst (g ∷ gs)

not_before-AtMost : (a b : List ℕ) → points_before b a ≡ false → AtMost a b
unfolding points_before
not_before-AtMost [] b h = shorter
not_before-AtMost (a ∷ more) [] h = absurd (ground (arith, h))
not_before-AtMost (a ∷ more) (b ∷ bs) h = elim (Bool-cases (b == a)) [
  | inl equal ↦ same (ground (arith, equal)) (not_before-AtMost more bs (ground (arith, h, equal)))
  | inr apart ↦ less (ground (arith, h, apart))
]

comes_before-IsNewer : (f g : Fact) → comes_before g f ≡ false → IsNewer f g
unfolding comes_before
comes_before-IsNewer f g h = elim (Bool-cases (ltb_ℤ g.updated_at f.updated_at)) [
  | inl newer ↦ inl (ground (arith, newer))
  | inr not_newer ↦ inr (
    (ground (arith, h, not_newer)),
    not_before-AtMost (code_points f.id) (code_points g.id) (ground (arith, h, not_newer)),
  )
]

IsOrdered-NewestFirst : (fs : List Fact) → IsOrdered fs → NewestFirst fs
unfolding IsOrdered
IsOrdered-NewestFirst [] h = tt
IsOrdered-NewestFirst (f ∷ []) h = tt
IsOrdered-NewestFirst (f ∷ g ∷ gs) h =
    (comes_before-IsNewer f g h.0, IsOrdered-NewestFirst (g ∷ gs) h.1)

-- A listing is the facts of the user in another order: of two neighbours the first one changed later, or both
-- changed at one instant and its id is not the larger by code points.
pub list-IsListing :
    (user : String) (s : Store) → Permᴰ (s.facts user) (list user s) × NewestFirst (list user s)
unfolding list
list-IsListing user s = (
  sort-perm (s.facts user),
  IsOrdered-NewestFirst (sort_facts (s.facts user)) (sort-IsOrdered (s.facts user)),
)

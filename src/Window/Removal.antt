-- ===== src/Window/Removal.antt =====
-- The removal of the oldest blocks in window.go: the least number of them for which the rest fits.
use ia_harness.Base.{
  ℕ, zero, suc, ◌≤◌, ◌<◌, ◌≡◌, refl, ◌∙◌, ◌⊎◌, inl, inr, Bool, true, false, none, some, List, [],
  ◌∷◌, ◌++◌, append-nil, append_assoc, arith, Bool-cases, Option-cases, length,
}
use ia_harness.Core.Message.{Message}
use ia_harness.Window.{
  Block, members, flatten_blocks, context_blocks, is_kept, take_oldest, remove_from,
  remove_oldest_blocks,
}

-- The rest and the first `k` of the blocks that may go: those of the system and the last stay.
unfoldable pub split_at : ℕ → List Block → List Block × List Block
split_at k [] = ([], [])
split_at k (b ∷ []) = (b ∷ [], [])
split_at zero (b ∷ c ∷ bs) = (b ∷ c ∷ bs, [])
split_at (suc k) (b ∷ c ∷ bs) = elim (is_kept b) [
  | true ↦ let (stay, go) = split_at (suc k) (c ∷ bs) in (b ∷ stay, go)
  | false ↦ let (stay, go) = split_at k (c ∷ bs) in (stay, b ∷ go)
]

pub split_at-zero : (bs : List Block) → split_at 0 bs ≡ (bs, [])
unfolding split_at
split_at-zero [] = refl
split_at-zero (b ∷ []) = refl
split_at-zero (b ∷ c ∷ bs) = refl

-- What the scan leaves is not empty, and one shorter.
take_oldest-length :
    (bs : List Block) (d : Block) (rest : List Block)
    → take_oldest bs ≡ some (d, rest)
    → (length bs ≡ suc (length rest)) × (0 < length rest)
unfolding take_oldest
take_oldest-length [] d rest e = cc
take_oldest-length (b ∷ []) d rest e = cc
take_oldest-length (b ∷ c ∷ bs) d rest e = elim (Bool-cases (is_kept b)) [
  | inr goes ↦ ground arith
  | inl stays ↦ elim (Option-cases (take_oldest (c ∷ bs))) [
    | inl nothing ↦ ground arith
    | inr ((x, xs), found) ↦ ground (arith, take_oldest-length (c ∷ bs) x xs found)
  ]
]

split_at-kept :
    (k : ℕ) (b : Block) (rest : List Block)
    → is_kept b ≡ true
    → 0 < length rest
    → split_at k (b ∷ rest) ≡ (b ∷ (split_at k rest).0, (split_at k rest).1)
unfolding split_at
split_at-kept k b [] stays h = absurd (omega arith)
split_at-kept zero b (c ∷ bs) stays h = rw (split_at-zero (c ∷ bs))
split_at-kept (suc k) b (c ∷ bs) stays h = rw (stays, split_at)

pub split_at-take_oldest :
    (k : ℕ) (bs : List Block) (d : Block) (rest : List Block)
    → take_oldest bs ≡ some (d, rest)
    → split_at (suc k) bs ≡ ((split_at k rest).0, d ∷ (split_at k rest).1)
unfolding take_oldest split_at
split_at-take_oldest k [] d rest e = cc
split_at-take_oldest k (b ∷ []) d rest e = cc
split_at-take_oldest k (b ∷ c ∷ bs) d rest e = elim (Bool-cases (is_kept b)) [
  | inr goes ↦ ground arith
  | inl stays ↦ elim (Option-cases (take_oldest (c ∷ bs))) [
    | inl nothing ↦ absurd (ground arith)
    | inr ((x, xs), found) ↦ ground (
      arith,
      split_at-take_oldest k (c ∷ bs) x xs found,
      split_at-kept k b xs stays (take_oldest-length (c ∷ bs) x xs found).1,
    )
  ]
]

-- The loop stopped after `k` removals: none before was enough, and the last was, or no more may go.
pub record IsLeast (fits : List Message → Bool) (bs : List Block) (k : ℕ) : Type 0 where
  pub too_few : (j : ℕ) → j < k → fits (flatten_blocks (split_at j bs).0) ≡ false
  pub stops :
      (fits (flatten_blocks (split_at k bs).0) ≡ true) ⊎ (take_oldest (split_at k bs).0 ≡ none)

-- The removal of so many blocks, the removed ones behind those of before.
abbrev pub removal : List Block → List Message → ℕ → List Message × List Message
removal bs removed k =
    (flatten_blocks (split_at k bs).0, removed ++ flatten_blocks (split_at k bs).1)

abbrev pub IsRemoval :
    (List Message → Bool) → List Block → List Message → List Message × List Message → Type 0
IsRemoval fits bs removed r = (k : ℕ) × IsLeast fits bs k × (r ≡ removal bs removed k)

stop_here :
    (fits : List Message → Bool) (bs : List Block) (removed : List Message)
    → (fits (flatten_blocks bs) ≡ true) ⊎ (take_oldest bs ≡ none)
    → IsRemoval fits bs removed (flatten_blocks bs, removed)
stop_here fits bs removed h = (
  0,
  record { too_few = λ j lt. absurd (omega arith); stops = rw (split_at-zero bs) h },
  rw (split_at-zero bs, append-nil removed),
)

module _ (fits : List Message → Bool) (bs : List Block) (removed : List Message) (d : Block)
    (rest : List Block) (found : take_oldest bs ≡ some (d, rest))
    (over : fits (flatten_blocks bs) ≡ false) where
  go_on-too_few :
      (k : ℕ)
      → IsLeast fits rest k
      → (j : ℕ) → j < suc k
      → fits (flatten_blocks (split_at j bs).0) ≡ false
  go_on-too_few k least zero h = rw (split_at-zero bs) over
  go_on-too_few k least (suc j) h =
      rw (split_at-take_oldest j bs d rest found) (least.too_few j (omega arith))

  go_on :
      {r : List Message × List Message}
      → IsRemoval fits rest (removed ++ members d) r
      → IsRemoval fits bs removed r
  go_on (k, least, e) = (
    suc k,
    record {
      too_few = go_on-too_few k least;
      stops = rw (split_at-take_oldest k bs d rest found) least.stops;
    },
    e ∙ rw (split_at-take_oldest k bs d rest found, append_assoc removed (members d)),
  )

remove_from-IsRemoval :
    (fits : List Message → Bool) (fuel : ℕ) (bs : List Block) (removed : List Message)
    → length bs ≤ fuel
    → IsRemoval fits bs removed (remove_from fits fuel bs removed)
unfolding remove_from
remove_from-IsRemoval fits zero [] removed h =
    stop_here fits [] removed (inr (unfold take_oldest in refl))
remove_from-IsRemoval fits zero (b ∷ bs) removed h = absurd (omega arith)
remove_from-IsRemoval fits (suc fuel) bs removed h = elim (Bool-cases (fits (flatten_blocks bs))) [
  | inl fit ↦ rw (fit, remove_from) (stop_here fits bs removed (inl fit))
  | inr over ↦ elim (Option-cases (take_oldest bs)) [
    | inl nothing ↦ rw (over, nothing, remove_from) (stop_here fits bs removed (inr nothing))
    | inr ((d, rest), found) ↦
        rw (over, found, remove_from)
          (go_on fits bs removed d rest found over (
            remove_from-IsRemoval fits fuel rest (removed ++ members d)
              (omega (arith, take_oldest-length bs d rest found))))
  ]
]

-- The messages that leave are those of the least number of removable blocks, oldest first, for
-- which the rest fits; where no number is enough, every removable block leaves.
pub remove_oldest_blocks-IsRemoval :
    (fits : List Message → Bool) (ms : List Message)
    → IsRemoval fits (context_blocks ms) [] (remove_oldest_blocks fits ms)
unfolding remove_oldest_blocks
remove_oldest_blocks-IsRemoval fits ms =
    remove_from-IsRemoval fits (length (context_blocks ms)) (context_blocks ms) [] (omega arith)

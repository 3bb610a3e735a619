-- ===== src/Window/Order.antt =====
-- What a removal of window.go keeps: the order of the history, the messages of the system, the end.
use ia_harness.Base.{
  ℕ, zero, suc, ◌≡◌, Bool, false, List, [], ◌∷◌, ◌++◌, Bool-cases, inl, inr, All, Option, none,
  some,
}
use ia_harness.Core.Message.{Message}
use ia_harness.Window.{
  Block, members, flatten_blocks, context_blocks, is_kept, remove_oldest_blocks,
}
use ia_harness.Window.Blocks.{flatten-context_blocks}
use ia_harness.Window.Removal.{split_at, remove_oldest_blocks-IsRemoval}

-- The third list is the other two, shuffled, each in its order.
pub data Shuffle {ℓ} {A : Type ℓ} : List A → List A → List A → Type ℓ where
  empty : Shuffle [] [] []
  kept : {x : A} {k r l : List A} → Shuffle k r l → Shuffle (x ∷ k) r (x ∷ l)
  gone : {x : A} {k r l : List A} → Shuffle k r l → Shuffle k (x ∷ r) (x ∷ l)

module _ {ℓ} {A : Type ℓ} where
  all_kept : (xs : List A) → Shuffle xs [] xs
  all_kept [] = empty
  all_kept (x ∷ xs) = kept (all_kept xs)

  keep_all : (xs : List A) {k r l : List A} → Shuffle k r l → Shuffle (xs ++ k) r (xs ++ l)
  keep_all [] s = s
  keep_all (x ∷ xs) s = kept (keep_all xs s)

  drop_all : (xs : List A) {k r l : List A} → Shuffle k r l → Shuffle k (xs ++ r) (xs ++ l)
  drop_all [] s = s
  drop_all (x ∷ xs) s = gone (drop_all xs s)

abbrev pub last_block : List Block → Option Block
last_block [] = none
last_block (b ∷ []) = some b
last_block (b ∷ c ∷ bs) = last_block (c ∷ bs)

split_at-Shuffle : (k : ℕ) (bs : List Block) → Shuffle (split_at k bs).0 (split_at k bs).1 bs
unfolding split_at
split_at-Shuffle k [] = empty
split_at-Shuffle k (b ∷ []) = kept empty
split_at-Shuffle zero (b ∷ c ∷ bs) = all_kept (b ∷ c ∷ bs)
split_at-Shuffle (suc k) (b ∷ c ∷ bs) = elim (Bool-cases (is_kept b)) [
  | inl stays ↦ rw (stays, split_at) (kept (split_at-Shuffle (suc k) (c ∷ bs)))
  | inr goes ↦ rw (goes, split_at) (gone (split_at-Shuffle k (c ∷ bs)))
]

pub Shuffle-flatten :
    {stay go bs : List Block}
    → Shuffle stay go bs
    → Shuffle (flatten_blocks stay) (flatten_blocks go) (flatten_blocks bs)
Shuffle-flatten empty = empty
Shuffle-flatten (kept {x = b} s) = keep_all (members b) (Shuffle-flatten s)
Shuffle-flatten (gone {x = b} s) = drop_all (members b) (Shuffle-flatten s)

split_at-not_kept : (k : ℕ) (bs : List Block) → All (λ b. is_kept b ≡ false) (split_at k bs).1
unfolding split_at
split_at-not_kept k [] = tt
split_at-not_kept k (b ∷ []) = tt
split_at-not_kept zero (b ∷ c ∷ bs) = tt
split_at-not_kept (suc k) (b ∷ c ∷ bs) = elim (Bool-cases (is_kept b)) [
  | inl stays ↦ rw (stays, split_at) (split_at-not_kept (suc k) (c ∷ bs))
  | inr goes ↦ rw (goes, split_at) (goes, split_at-not_kept k (c ∷ bs))
]

last-cons :
    (b : Block) (bs : List Block) (d : Block)
    → last_block bs ≡ some d
    → last_block (b ∷ bs) ≡ some d
last-cons b [] d e = cc
last-cons b (c ∷ bs) d e = e

split_at-last :
    (k : ℕ) (bs : List Block) (d : Block)
    → last_block bs ≡ some d
    → last_block (split_at k bs).0 ≡ some d
unfolding split_at
split_at-last k [] d e = e
split_at-last k (b ∷ []) d e = e
split_at-last zero (b ∷ c ∷ bs) d e = e
split_at-last (suc k) (b ∷ c ∷ bs) d e = elim (Bool-cases (is_kept b)) [
  | inl stays ↦
      rw (stays, split_at)
        (last-cons b (split_at (suc k) (c ∷ bs)).0 d (split_at-last (suc k) (c ∷ bs) d e))
  | inr goes ↦ rw (goes, split_at) (split_at-last k (c ∷ bs) d e)
]

-- Whatever fits, the kept and the removed messages are the history, each in its old order.
pub remove_oldest_blocks-Shuffle :
    (fits : List Message → Bool) (ms : List Message)
    → let (stay, go) = remove_oldest_blocks fits ms in Shuffle stay go ms
remove_oldest_blocks-Shuffle fits ms =
    let (k, least, e) = remove_oldest_blocks-IsRemoval fits ms in
    rw e
      (rw (flatten-context_blocks ms) at (Shuffle-flatten (split_at-Shuffle k (context_blocks ms))))

-- A removal takes whole blocks only, of which none begins with a message of the system, and the
-- last block stays.
pub remove_oldest_blocks-whole :
    (fits : List Message → Bool) (ms : List Message)
    → (stay go : List Block) × (remove_oldest_blocks fits ms
        ≡ (flatten_blocks stay, flatten_blocks go))
      × Shuffle stay go (context_blocks ms)
      × All (λ b. is_kept b ≡ false) go
      × ((d : Block) → last_block (context_blocks ms) ≡ some d → last_block stay ≡ some d)
remove_oldest_blocks-whole fits ms =
    let (k, least, e) = remove_oldest_blocks-IsRemoval fits ms in
    let bs = context_blocks ms in
    (
      (split_at k bs).0,
      (split_at k bs).1,
      e,
      split_at-Shuffle k bs,
      split_at-not_kept k bs,
      split_at-last k bs,
    )

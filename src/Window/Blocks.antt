-- ===== src/Window/Blocks.antt =====
-- The blocks of window.go: they are the history cut into pieces, and no piece of it parts a tool
-- result from the call that it follows.
use ia_harness.Base.{
  ◌≡◌, refl, ap, ◌∙◌, ◌⊎◌, inl, inr, true, false, ◌&&◌, List, [], ◌∷◌, ◌++◌, append_assoc,
  Bool-cases, All, All-append, and-eq-true,
}
use ia_harness.Core.Message.{Message}
use ia_harness.Window.{
  Block, members, alone, flatten_blocks, blocks_from, context_blocks, message_has_tool_call,
  message_has_tool_result,
}

flatten-blocks_from :
    (b : Block) (ms : List Message) → flatten_blocks (blocks_from b ms) ≡ members b ++ ms
unfolding blocks_from
flatten-blocks_from b [] = refl
flatten-blocks_from b (m ∷ ms) =
    elim (Bool-cases (message_has_tool_call b.first && message_has_tool_result m)) [
      | inl joins ↦
          rw (joins, blocks_from)
            (flatten-blocks_from (record b { rest = b.rest ++ m ∷ [] }) ms
              ∙ ap (λ (t : List Message). b.first ∷ t) (append_assoc b.rest (m ∷ []) ms))
      | inr parts ↦
          rw (parts, blocks_from) (ap (λ t. members b ++ t) (flatten-blocks_from (alone m) ms))
    ]

-- The blocks in a row are the history.
pub flatten-context_blocks : (ms : List Message) → flatten_blocks (context_blocks ms) ≡ ms
unfolding context_blocks
flatten-context_blocks [] = refl
flatten-context_blocks (m ∷ ms) = flatten-blocks_from (alone m) ms

-- A call with results only behind it, or a message alone.
abbrev pub IsWhole : Block → Type 0
IsWhole b =
    (b.rest ≡ [])
    ⊎ ((message_has_tool_call b.first ≡ true) × All (λ m. message_has_tool_result m ≡ true) b.rest)

-- No block could take in the first message of the next.
abbrev pub IsMaximal : List Block → Type 0
IsMaximal [] = Unit
IsMaximal (b ∷ []) = Unit
IsMaximal (b ∷ c ∷ bs) =
    ((message_has_tool_call b.first && message_has_tool_result c.first) ≡ false)
    × IsMaximal (c ∷ bs)

snoc-IsWhole :
    (b : Block) (m : Message)
    → IsWhole b
    → (message_has_tool_call b.first && message_has_tool_result m) ≡ true
    → IsWhole (record b { rest = b.rest ++ m ∷ [] })
snoc-IsWhole b m whole joins = inr ((and-eq-true _ _ joins).0, results whole)
  where
    last : All (λ n. message_has_tool_result n ≡ true) (m ∷ [])
    last = ((and-eq-true (message_has_tool_call b.first) (message_has_tool_result m) joins).1, tt)

    results : IsWhole b → All (λ n. message_has_tool_result n ≡ true) (b.rest ++ m ∷ [])
    results (inl e) = rw e last
    results (inr (call, all)) =
        All-append (λ n. message_has_tool_result n ≡ true) b.rest _ (all, last)

blocks_from-IsWhole : (b : Block) (ms : List Message) → IsWhole b → All IsWhole (blocks_from b ms)
unfolding blocks_from
blocks_from-IsWhole b [] w = (w, tt)
blocks_from-IsWhole b (m ∷ ms) w =
    elim (Bool-cases (message_has_tool_call b.first && message_has_tool_result m)) [
      | inl joins ↦
          rw (joins, blocks_from)
            (blocks_from-IsWhole (record b { rest = b.rest ++ m ∷ [] }) ms
              (snoc-IsWhole b m w joins))
      | inr parts ↦ rw (parts, blocks_from) (w, blocks_from-IsWhole (alone m) ms (inl refl))
    ]

-- The block that is built begins with the same message.
IsMaximal-cons :
    (b : Block) (m : Message) (ms : List Message) (rest : List Message)
    → (message_has_tool_call b.first && message_has_tool_result m) ≡ false
    → IsMaximal (blocks_from (record { first = m; rest = rest }) ms)
    → IsMaximal (b ∷ blocks_from (record { first = m; rest = rest }) ms)
unfolding blocks_from
IsMaximal-cons b m [] rest parts h = (parts, tt)
IsMaximal-cons b m (n ∷ ms) rest parts h =
    elim (Bool-cases (message_has_tool_call m && message_has_tool_result n)) [
      | inl joins ↦
          rw (joins, blocks_from)
            (IsMaximal-cons b m ms (rest ++ n ∷ []) parts (rw (joins, blocks_from) at h))
      | inr splits ↦ rw (splits, blocks_from) (parts, rw (splits, blocks_from) at h)
    ]

blocks_from-IsMaximal : (b : Block) (ms : List Message) → IsMaximal (blocks_from b ms)
unfolding blocks_from
blocks_from-IsMaximal b [] = tt
blocks_from-IsMaximal b (m ∷ ms) =
    elim (Bool-cases (message_has_tool_call b.first && message_has_tool_result m)) [
      | inl joins ↦
          rw (joins, blocks_from) (blocks_from-IsMaximal (record b { rest = b.rest ++ m ∷ [] }) ms)
      | inr parts ↦
          rw (parts, blocks_from)
            (IsMaximal-cons b m ms [] parts (blocks_from-IsMaximal (alone m) ms))
    ]

-- The blocks of a history, in a row, are the history; each is a message alone or a call of tools
-- with nothing but results behind it; and none could take in the first message of the next.
pub context_blocks_lem :
    (ms : List Message)
    → (flatten_blocks (context_blocks ms) ≡ ms)
      × All IsWhole (context_blocks ms)
      × IsMaximal (context_blocks ms)
unfolding context_blocks
context_blocks_lem [] = (refl, tt, tt)
context_blocks_lem (m ∷ ms) = (
  flatten-context_blocks (m ∷ ms),
  blocks_from-IsWhole (alone m) ms (inl refl),
  blocks_from-IsMaximal (alone m) ms,
)

-- ===== src/Stderr/Chunks.antt =====
-- Stderr comes in pieces of any size (internal/platform/proc/stderr.go, Write).
use ia_harness.Base.{
  ℕ, zero, suc, ◌≡◌, refl, sym, ap, ◌∙◌, ◌≤◌, ◌<◌, ◌+◌, ltb, inl, inr, true, false, Option, none,
  some, [], ◌∷◌, ◌++◌, length, append-nil, append_assoc, if◌then◌else◌, if-true, if-false, arith,
  Bool-cases, ◌==◌,
}
use ia_harness.Core.Message.{Bytes}
use ia_harness.Stderr.{
  max_total_bytes, Sink, emit_line, split_line, before_byte, buffered, end_line, write_loop, write,
}

-- One byte after the other: a line feed ends the line.
abbrev pub feed : Bytes → Sink → Sink
feed [] s = s
feed (b ∷ bs) s = feed bs (if b == 10 then end_line s else buffered (b ∷ []) s)

feed-append : (p q : Bytes) (s : Sink) → feed (p ++ q) s ≡ feed q (feed p s)
feed-append [] q s = refl
feed-append (b ∷ bs) q s = feed-append bs q (if b == 10 then end_line s else buffered (b ∷ []) s)

buffered-buffered : (p q : Bytes) (s : Sink) → buffered q (buffered p s) ≡ buffered (p ++ q) s
buffered-buffered p q s = ap (λ buffer. record s { buffer = buffer }) (append_assoc s.buffer p q)

-- What the bytes do, by where their first line ends.
abbrev IsSplit : Bytes → Sink → Option (Bytes × Bytes) → Type 0
IsSplit p s none = feed p s ≡ buffered p s
IsSplit p s (some (front, rest)) =
    (feed p s ≡ feed rest (end_line (buffered front s))) × (length rest < length p)

before-IsSplit :
    (b : ℕ) (bs : Bytes) (s : Sink) (o : Option (Bytes × Bytes))
    → feed (b ∷ bs) s ≡ feed bs (buffered (b ∷ []) s)
    → IsSplit bs (buffered (b ∷ []) s) o
    → IsSplit (b ∷ bs) s (before_byte b o)
before-IsSplit b bs s none same h = same ∙ h ∙ buffered-buffered (b ∷ []) bs s
before-IsSplit b bs s (some (front, rest)) same h = (
  same ∙ h.0 ∙ ap (λ s. feed rest (end_line s)) (buffered-buffered (b ∷ []) front s),
  omega (arith, h.1),
)

split_line-IsSplit : (p : Bytes) (s : Sink) → IsSplit p s (split_line p)
unfolding split_line
split_line-IsSplit [] s = ap (λ buffer. record s { buffer = buffer }) (sym (append-nil s.buffer))
split_line-IsSplit (b ∷ bs) s = elim (Bool-cases (b == 10)) [
  | inl ends ↦ rw ends (
    ap (λ t. feed bs (if t then end_line s else buffered (b ∷ []) s)) ends
        ∙ ap (λ buffer. feed bs (end_line (record s { buffer = buffer })))
            (sym (append-nil s.buffer)),
    omega arith,
  )
  | inr other ↦ rw other (
      before-IsSplit b bs s (split_line bs)
        (ap (λ t. feed bs (if t then end_line s else buffered (b ∷ []) s)) other)
        (split_line-IsSplit bs (buffered (b ∷ []) s)))
]

turn-feed :
    (turns : ℕ) (b : ℕ) (bs : Bytes) (s : Sink) (o : Option (Bytes × Bytes))
    → IsSplit (b ∷ bs) s o
    → ((rest : Bytes) (s : Sink) → length rest ≤ turns → write_loop turns rest s ≡ feed rest s)
    → length bs ≤ turns
    → (elim o as (λ _. Sink) [
      | none ↦ buffered (b ∷ bs) s
      | some (front, rest) ↦ write_loop turns rest (end_line (buffered front s))
    ])
      ≡ feed (b ∷ bs) s
turn-feed turns b bs s none h later fits = sym h
turn-feed turns b bs s (some (front, rest)) h later fits =
    later rest (end_line (buffered front s)) (omega (arith, h.1, fits)) ∙ sym h.0

write_loop-feed :
    (turns : ℕ) (p : Bytes) (s : Sink) → length p ≤ turns → write_loop turns p s ≡ feed p s
unfolding write_loop
write_loop-feed turns [] s fits = refl
write_loop-feed zero (b ∷ bs) s fits = absurd (ground (arith, fits))
write_loop-feed (suc turns) (b ∷ bs) s fits =
    turn-feed turns b bs s (split_line (b ∷ bs)) (split_line-IsSplit (b ∷ bs) s)
      (write_loop-feed turns) (omega (arith, fits))

emit_line-logger : (line : Bytes) (s : Sink) → (emit_line line s).has_logger ≡ s.has_logger
unfolding emit_line
emit_line-logger line s = elim (Bool-cases s.truncated) [
  | inl full ↦ ap (λ (t : Sink). t.has_logger) (if-true s.truncated _ _ full)
  | inr more ↦
      ap (λ (t : Sink). t.has_logger) (if-false s.truncated _ _ more)
      ∙ elim (Bool-cases (ltb max_total_bytes (s.total + length line))) [
        | inl past ↦ ap (λ (t : Sink). t.has_logger) (if-true _ _ _ past)
        | inr within ↦ ap (λ (t : Sink). t.has_logger) (if-false _ _ _ within)
      ]
]

feed-logger : (p : Bytes) (s : Sink) → (feed p s).has_logger ≡ s.has_logger
feed-logger [] s = refl
feed-logger (b ∷ bs) s =
    feed-logger bs (if b == 10 then end_line s else buffered (b ∷ []) s)
    ∙ elim (Bool-cases (b == 10)) [
      | inl ends ↦
          ap (λ (t : Sink). t.has_logger) (if-true _ _ _ ends) ∙ emit_line-logger s.buffer s
      | inr other ↦ ap (λ (t : Sink). t.has_logger) (if-false _ _ _ other)
    ]

write-feed : (p : Bytes) (s : Sink) → s.has_logger ≡ true → write p s ≡ feed p s
unfolding write
write-feed p s h = if-true s.has_logger _ _ h ∙ write_loop-feed (length p) p s (omega arith)

write-quiet : (p : Bytes) (s : Sink) → s.has_logger ≡ false → write p s ≡ s
unfolding write
write-quiet p s h = if-false s.has_logger _ _ h

-- Two writes do what one write of all the bytes does: the lines in the log, their cuts, the total and the bytes
-- that wait for the end of their line do not depend on how the output of the child comes in pieces.
pub write-append : (p q : Bytes) (s : Sink) → write (p ++ q) s ≡ write q (write p s)
write-append p q s = elim (Bool-cases s.has_logger) [
  | inl on ↦
      write-feed (p ++ q) s on
      ∙ feed-append p q s
      ∙ sym (write-feed q (feed p s) (feed-logger p s ∙ on))
      ∙ ap (write q) (sym (write-feed p s on))
  | inr off ↦
      write-quiet (p ++ q) s off
      ∙ sym (write-quiet q s off)
      ∙ ap (write q) (sym (write-quiet p s off))
]

-- ===== src/Redaction/Cut.antt =====
-- How long a redacted text is, and where it is cut (internal/engine/telemetry/redact.go).
use mathlib.Core.Path.{subst}
use mathlib.Core.Option.{some_inj}
use ia_harness.Base.{
  ℕ, zero, suc, ◌+◌, ◌-◌, ◌≤◌, ◌<◌, ◌≡◌, refl, sym, ◌∙◌, Bool, true, false, inl, inr, Option, none,
  some, ◌++◌, length, take, drop, length-append, length-take, leb, leb→le, arith, Bool-cases,
  Option-cases, ◌⊎◌,
}
use ia_harness.Core.Message.{Bytes}
use ia_harness.Redaction.{
  Json, Redactor, truncation_marker, starts_rune, back_to_rune, truncate, max_of, redact_string,
  redact_json, redact_value,
}

-- A text that fits is as it was. One that does not is the bytes up to a code point, and a
-- marker after them.
pub data IsCut (max : ℕ) (s : Bytes) : Bytes × Bool → Type 0 where
  whole : length s ≤ max → IsCut max s (s, false)
  cut :
      (n : ℕ)
      → max < length s
      → n + 3 ≤ max
      → (n ≡ 0) ⊎ (starts_rune (drop n s) ≡ true)
      → IsCut max s (take n s ++ truncation_marker, true)

back_to_rune-le : (s : Bytes) (n : ℕ) → back_to_rune s n ≤ n
unfolding back_to_rune
back_to_rune-le s zero = omega arith
back_to_rune-le s (suc n) = ground (arith, back_to_rune-le s n)

back_to_rune-starts :
    (s : Bytes) (n : ℕ) → (back_to_rune s n ≡ 0) ⊎ (starts_rune (drop (back_to_rune s n) s) ≡ true)
unfolding back_to_rune
back_to_rune-starts s zero = inl refl
back_to_rune-starts s (suc n) = elim (Bool-cases (starts_rune (drop (suc n) s))) [
  | inl here ↦ rw here (inr here)
  | inr inside ↦ rw inside (back_to_rune-starts s n)
]

truncate-IsCut : (max : ℕ) (s : Bytes) → 3 ≤ max → IsCut max s (truncate max s)
unfolding truncate
truncate-IsCut max s room = elim (Bool-cases (leb (length s) max)) [
  | inl fits ↦ rw fits (whole (leb→le (length s) max fits))
  | inr long ↦ rw long (
      cut (back_to_rune s (max - 3)) (ground (arith, long))
        (omega (arith, back_to_rune-le s (max - 3), room)) (back_to_rune-starts s (max - 3)))
]

IsCut-length : (max : ℕ) (s : Bytes) (out : Bytes × Bool) → IsCut max s out → length out.0 ≤ max
IsCut-length max s _ (whole h) = h
IsCut-length max s _ (cut n long room at_rune) =
    omega (arith, length-append (take n s) truncation_marker, length-take n s)

-- What the redactor shows of arguments: the text as it came, or the text of the redacted tree, cut.
pub data IsRedacted (lower : ℕ → ℕ) (read : Bytes → Option Json) (write : Json → Option Bytes)
    (r : Redactor) (raw : Bytes) : Bytes × Bool → Type 0 where
  opaque :
      (out : Bytes × Bool)
      → ((doc : Json) → read raw ≡ some doc → write (redact_value lower r doc) ≡ none)
      → IsCut (max_of lower r) raw out
      → IsRedacted lower read write r raw out
  tree :
      (doc : Json) (redacted : Bytes) (out : Bytes × Bool)
      → read raw ≡ some doc
      → write (redact_value lower r doc) ≡ some redacted
      → IsCut (max_of lower r) redacted out
      → IsRedacted lower read write r raw out

module _ (lower : ℕ → ℕ) (read : Bytes → Option Json) (write : Json → Option Bytes)
    (r : Redactor) where
  cut_string : (s : Bytes) → 3 ≤ max_of lower r → IsCut (max_of lower r) s (redact_string lower r s)
  unfolding redact_string
  cut_string s room = truncate-IsCut (max_of lower r) s room

  doc-IsRedacted :
      (raw : Bytes) (doc : Json) (written : Option Bytes)
      → 3 ≤ max_of lower r
      → read raw ≡ some doc
      → write (redact_value lower r doc) ≡ written
      → IsRedacted lower read write r raw
          (elim written [ none ↦ redact_string lower r raw | some out ↦ redact_string lower r out ])
  doc-IsRedacted raw doc none room tree_read fails =
      opaque (redact_string lower r raw)
        (λ doc' same.
          subst (λ d. write (redact_value lower r d) ≡ none) (some_inj.0 (sym tree_read ∙ same))
            fails)
        (cut_string raw room)
  doc-IsRedacted raw doc (some out) room tree_read writes =
      tree doc out (redact_string lower r out) tree_read writes (cut_string out room)

  raw-IsRedacted :
      (raw : Bytes)
      → 3 ≤ max_of lower r
      → IsRedacted lower read write r raw (redact_json lower read write r raw)
  unfolding redact_json
  raw-IsRedacted raw room = elim (Option-cases (read raw)) [
    | inl no_json ↦
        rw (redact_json, no_json)
          (opaque (redact_string lower r raw) (λ doc same. cc) (cut_string raw room))
    | inr (doc, tree_read) ↦
        rw (redact_json, tree_read)
          (doc-IsRedacted raw doc (write (redact_value lower r doc)) room tree_read refl)
  ]

  redacted-length :
      (raw : Bytes) (out : Bytes × Bool)
      → IsRedacted lower read write r raw out
      → length out.0 ≤ max_of lower r
  redacted-length raw _ (opaque out x c) = IsCut-length (max_of lower r) raw out c
  redacted-length raw _ (tree doc s out x y c) = IsCut-length (max_of lower r) s out c

  -- Arguments that are JSON are shown as the redacted tree is written, other arguments as they are.
  -- What is shown is at most as long as the limit on a field, where that is 3 bytes or more: what
  -- fits is whole, what does not is cut before a code point and ends with a marker.
  pub redact_json-IsRedacted :
      (raw : Bytes)
      → 3 ≤ max_of lower r
      → IsRedacted lower read write r raw (redact_json lower read write r raw)
        × (length (redact_json lower read write r raw).0 ≤ max_of lower r)
  redact_json-IsRedacted raw room =
      (raw-IsRedacted raw room, redacted-length raw _ (raw-IsRedacted raw room))

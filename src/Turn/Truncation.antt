-- ===== src/Turn/Truncation.antt =====
-- What truncate_tool_result keeps (internal/engine/tool_result.go).
use native.Mathlib.Decide.{dec_le}
use ia_harness.Base.{
  leb_ℤ, sym, ℕ, ◌+◌, ◌-◌, ◌≤◌, ◌<◌, ℤ, pos, pos_part, ◌<ℤ◌, ◌≡◌, refl, ◌↔◌, inl, inr, true, false,
  List, [], ◌∷◌, arith, leb, length, take, length-take, Bool-cases, leb→le,
}
use ia_harness.Core.Message.{Bytes, ResultContentKind, ResultContent, ToolResult}
use ia_harness.Turn.Results.{
  json_bytes, content_size, content_bytes, copy_bytes, cut_content, keep_from, truncate_tool_result,
}

copy_bytes-length : (b : Bytes) → length (json_bytes (copy_bytes b)) ≡ length b
copy_bytes-length [] = refl
copy_bytes-length (x ∷ b) = refl

cut_content-size : (n : ℕ) (c : ResultContent) → content_size (cut_content n c) ≤ n
unfolding cut_content
cut_content-size n c = go c.kind
  where
    go : (k : ResultContentKind) → content_size (cut_content n (record c { kind = k })) ≤ n
    go ResultContentKind.json =
        omega
          (arith, copy_bytes-length (take n (json_bytes c.json)), length-take n (json_bytes c.json))
    go ResultContentKind.text = omega (arith, length-take n c.text)
    go (ResultContentKind.other k) = omega (arith, length-take n c.text)

keep_from-size :
    (max used : ℕ) (cs : List ResultContent)
    → used ≤ max
    → used + content_bytes (keep_from max used cs).0 ≤ max
unfolding keep_from
keep_from-size max used [] h = omega arith
keep_from-size max used (c ∷ cs) h =
    ground (arith, keep_from-size max (used + content_size c) cs, cut_content-size (max - used) c)

keep_from-fits :
    (max used : ℕ) (cs : List ResultContent)
    → used + content_bytes cs ≤ max
    → keep_from max used cs ≡ (cs, false)
unfolding keep_from
keep_from-fits max used [] h = refl
keep_from-fits max used (c ∷ cs) h =
    ground (arith, keep_from-fits max (used + content_size c) cs (omega arith))

keep_from-cut :
    (max used : ℕ) (cs : List ResultContent)
    → used ≤ max
    → max < used + content_bytes cs
    → (keep_from max used cs).1 ≡ true
unfolding keep_from
keep_from-cut max used [] le h = absurd (omega arith)
keep_from-cut max used (c ∷ cs) le h = elim (Bool-cases (leb (used + content_size c) max)) [
  | inl fits ↦
      ground (arith, keep_from-cut max (used + content_size c) cs (leb→le _ _ fits) (omega arith))
  | inr over ↦ ground arith
]

-- The first parts of a list as they were, then at most one part that was cut.
pub data IsStart : List ResultContent → List ResultContent → Type 0 where
  stop : {cs : List ResultContent} → IsStart [] cs
  cut :
      {c : ResultContent} {cs : List ResultContent} (n : ℕ)
      → IsStart (cut_content n c ∷ []) (c ∷ cs)
  next :
      {c : ResultContent} {out cs : List ResultContent}
      → IsStart out cs
      → IsStart (c ∷ out) (c ∷ cs)

keep_from-IsStart : (max used : ℕ) (cs : List ResultContent) → IsStart (keep_from max used cs).0 cs
unfolding keep_from
keep_from-IsStart max used [] = stop
keep_from-IsStart max used (c ∷ cs) = elim (Bool-cases (leb (used + content_size c) max)) [
  | inl fits ↦ rw fits (next (keep_from-IsStart max (used + content_size c) cs))
  | inr over ↦ elim (Bool-cases (leb max used)) [
    | inl full ↦ rw (over, full) stop
    | inr room ↦ rw (over, room) (cut (max - used))
  ]
]

shortened : ToolResult → ℕ → ToolResult
shortened res max = record res {
  content = (keep_from max 0 res.content).0;
  truncated = (keep_from max 0 res.content).1;
}

truncates :
    (res : ToolResult) (max : ℤ)
    → pos 0 <ℤ max
    → res.truncated ≡ false
    → truncate_tool_result res max ≡ shortened res (pos_part max)
unfolding truncate_tool_result shortened
truncates res max h plain =
    let positive : leb_ℤ max (pos 0) ≡ false = ground arith in rw (positive, plain)

shortened-truncated :
    (res : ToolResult) (max : ℕ)
    → ((shortened res max).truncated ≡ true) ↔ (max < content_bytes res.content)
unfolding shortened
shortened-truncated res max = (
  λ t. elim (dec_le (content_bytes res.content) max) [
    | yes le ↦ cc (keep_from-fits max 0 res.content (omega arith))
    | no more ↦ omega arith
  ],
  λ more. keep_from-cut max 0 res.content (omega arith) (omega arith),
)

shortened-fits :
    (res : ToolResult) (max : ℕ)
    → res.truncated ≡ false
    → content_bytes res.content ≤ max
    → shortened res max ≡ res
unfolding shortened
shortened-fits res max plain le = rw (keep_from-fits max 0 res.content (omega arith), sym plain)

-- A result that is not marked yet is cut to the limit: it holds at most that many bytes, it is
-- marked exactly where it held more, it is returned as it was where it fits, and what is left is
-- its first parts with at most one of them cut. The call and the error flags stay.
pub truncate_tool_result_lem :
    (res : ToolResult) (max : ℤ)
    → pos 0 <ℤ max
    → res.truncated ≡ false
    → let out = truncate_tool_result res max in
      (content_bytes out.content ≤ pos_part max)
      × ((out.truncated ≡ true) ↔ (pos_part max < content_bytes res.content))
      × (content_bytes res.content ≤ pos_part max → out ≡ res)
      × IsStart out.content res.content
      × (out.call_id ≡ res.call_id)
      × (out.is_error ≡ res.is_error)
      × (out.denied ≡ res.denied)
unfolding shortened
truncate_tool_result_lem res max h plain = rw (truncates res max h plain) (
  omega (arith, keep_from-size (pos_part max) 0 res.content (omega arith)),
  shortened-truncated res (pos_part max),
  shortened-fits res (pos_part max) plain,
  keep_from-IsStart (pos_part max) 0 res.content,
  refl,
  refl,
  refl,
)

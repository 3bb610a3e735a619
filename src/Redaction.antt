-- ===== src/Redaction.antt =====
-- internal/engine/telemetry/redact.go: what the audit and the events may show of arguments and
-- texts. JSON is read and written by the standard library, over trees like the ones here; keys are
-- code points, and `lower` is the lower case of a code point in the table of Unicode.
pub mod Cut
pub mod Paths
mod Tests
use ia_harness.Base.{
  ℕ, zero, suc, ◌-◌, ◌*◌, ℤ, pos, pos_part, String, Bool, true, false, not, ◌&&◌, ◌||◌, Option,
  none, some, List, [], ◌∷◌, ◌++◌, map, filter, any, is_empty, length, take, drop, leb, ltb, leb_ℤ,
  if◌then◌else◌,
}
use ia_harness.Core.Message.{Bytes}
use ia_harness.Core.Text.{utf8}
use ia_harness.Media.Mime.{code_points, same_points}

abbrev pub Key : Type 0
Key = List ℕ

mutual
  pub data Json : Type 0 where
    null : Json
    bool : Bool → Json
    -- The digits as they were written.
    number : Bytes → Json
    text : Bytes → Json
    array : Items → Json
    object : Members → Json

  pub data Items : Type 0 where
    no_items : Items
    item : Json → Items → Items

  pub data Members : Type 0 where
    no_members : Members
    member : Key → Json → Members → Members

pub record RedactionConfig : Type 0 where
  pub sensitive_keys : List String
  pub max_field_bytes : ℤ

pub record Redactor : Type 0 where
  pub sensitive : List Key
  pub max_bytes : ℤ

unfoldable pub placeholder : Json
unfolding utf8
placeholder = text (utf8 "[REDACTED]")

abbrev pub sensitive_suffix : String
sensitive_suffix = "_base64"

abbrev pub default_max_field_bytes : ℤ
default_max_field_bytes = pos (16 * 1024)

abbrev pub default_sensitive_keys : List String
default_sensitive_keys =
    "api_key" ∷ "token" ∷ "secret" ∷ "password" ∷ "authorization" ∷ "cookie" ∷ "bytes" ∷ "reference"
    ∷ []

-- The bytes of `…`.
abbrev pub truncation_marker : Bytes
truncation_marker = 0xE2 ∷ 0x80 ∷ 0xA6 ∷ []

unfoldable pub has_suffix : Key → Key → Bool
unfolding same_points
has_suffix suffix k =
    leb (length suffix) (length k) && same_points suffix (drop (length k - length suffix) k)

-- `utf8.RuneStart` of the byte at `n`; what is cut there ends before a code point.
abbrev pub starts_rune : Bytes → Bool
starts_rune [] = true
starts_rune (b ∷ bs) = not (leb 0x80 b && ltb b 0xC0)

unfoldable pub back_to_rune : Bytes → ℕ → ℕ
back_to_rune s zero = 0
back_to_rune s (suc n) =
    let earlier = back_to_rune s n in if starts_rune (drop (suc n) s) then suc n else earlier

unfoldable pub truncate : ℕ → Bytes → Bytes × Bool
unfolding back_to_rune
truncate max s =
    if leb (length s) max
    then (s, false)
    else (take (back_to_rune s (max - length truncation_marker)) s ++ truncation_marker, true)

module _ (lower : ℕ → ℕ) where
  abbrev pub lower_key : Key → Key
  lower_key k = map lower k

  unfoldable pub new_sensitive_set : List String → List Key
  unfolding code_points
  new_sensitive_set keys =
      filter (λ (k : Key). not (is_empty k)) (map (λ (k : String). lower_key (code_points k)) keys)

  unfoldable pub new_redactor : RedactionConfig → Redactor
  unfolding new_sensitive_set
  new_redactor cfg = record {
    sensitive =
        new_sensitive_set
          (if is_empty cfg.sensitive_keys then default_sensitive_keys else cfg.sensitive_keys);
    max_bytes =
        if leb_ℤ cfg.max_field_bytes (pos 0) then default_max_field_bytes else cfg.max_field_bytes;
  }

  unfoldable pub is_sensitive : Redactor → Key → Bool
  unfolding has_suffix code_points
  is_sensitive r k =
      has_suffix (code_points sensitive_suffix) (lower_key k)
      || any (same_points (lower_key k)) r.sensitive

  unfoldable mutual
    pub redact_value : Redactor → Json → Json
    redact_value r (array xs) = array (redact_items r xs)
    redact_value r (object ms) = object (redact_members r ms)
    redact_value r v = v

    pub redact_items : Redactor → Items → Items
    redact_items r no_items = no_items
    redact_items r (item v xs) = item (redact_value r v) (redact_items r xs)

    pub redact_members : Redactor → Members → Members
    redact_members r no_members = no_members
    redact_members r (member k v ms) =
        member k (if is_sensitive r k then placeholder else redact_value r v) (redact_members r ms)

  abbrev pub max_of : Redactor → ℕ
  max_of r = pos_part (if leb_ℤ r.max_bytes (pos 0) then default_max_field_bytes else r.max_bytes)

  unfoldable pub redact_string : Redactor → Bytes → Bytes × Bool
  unfolding truncate
  redact_string r s = truncate (max_of r) s

  -- A text that is no JSON, and a tree that cannot be written, are treated as a plain text.
  unfoldable pub redact_json :
      (Bytes → Option Json) → (Json → Option Bytes) → Redactor → Bytes → Bytes × Bool
  unfolding redact_value redact_string
  redact_json read write r raw = elim (read raw) [
    | none ↦ redact_string r raw
    | some doc ↦ elim (write (redact_value r doc)) [
      | none ↦ redact_string r raw
      | some redacted ↦ redact_string r redacted
    ]
  ]

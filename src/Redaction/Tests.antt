-- ===== src/Redaction/Tests.antt =====
-- Arguments with a secret in them.
use ia_harness.Base.{◌≤◌, arith, pos, Option, none, some, [], ◌∷◌, length}
use ia_harness.Core.Message.{Bytes}
use ia_harness.Media.Mime.{code_points, to_lower}
use ia_harness.Redaction.{
  Json, text, object, no_members, member, Redactor, redact_value, redact_json,
}
use ia_harness.Redaction.Paths.{under, at, IsShown, at-redact_value}
use ia_harness.Redaction.Cut.{IsRedacted, redact_json-IsRedacted}

abbrev redactor : Redactor
unfolding code_points
redactor = record { sensitive = code_points "token" ∷ []; max_bytes = pos 100 }

abbrev arguments : Json
unfolding code_points
arguments = object (
    member (code_points "Token") (text (b'x' ∷ []))
      (member (code_points "city") (text (b'y' ∷ [])) no_members))

at-redact_value_example :
    IsShown to_lower redactor
      (under (code_points "Token") ∷ [])
      arguments
      (at (under (code_points "Token") ∷ []) (redact_value to_lower redactor arguments))
at-redact_value_example =
    at-redact_value to_lower redactor (under (code_points "Token") ∷ []) arguments

abbrev read : Bytes → Option Json
read [] = none
read (b ∷ bs) = some arguments

abbrev write : Json → Option Bytes
write v = some (b'{' ∷ b'}' ∷ [])

redact_json-IsRedacted_example :
    IsRedacted to_lower read write redactor
      (b'x' ∷ [])
      (redact_json to_lower read write redactor (b'x' ∷ []))
    × (length (redact_json to_lower read write redactor (b'x' ∷ [])).0 ≤ 100)
unfolding redactor
redact_json-IsRedacted_example =
    redact_json-IsRedacted to_lower read write redactor (b'x' ∷ []) (omega arith)

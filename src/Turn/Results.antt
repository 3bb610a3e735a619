-- ===== src/Turn/Results.antt =====
-- internal/engine/tool_result.go, and the results that loop.go makes itself.
use ia_harness.Base.{
  ℕ, ◌+◌, ◌-◌, ℤ, pos, pos_part, String, str_eq, Bool, true, false, ◌||◌, Option, none, some, List,
  [], ◌∷◌, leb, leb_ℤ, if◌then◌else◌, length, take, sum_of,
}
use ia_harness.Core.Message.{
  Bytes, Time, Role, PartKind, Message, ResultContentKind, ResultContent, ToolResult,
}
use ia_harness.Core.Text.{utf8}

abbrev pub json_bytes : Option Bytes → Bytes
json_bytes none = []
json_bytes (some b) = b

abbrev pub content_size : ResultContent → ℕ
content_size c = length c.text + length (json_bytes c.json)

abbrev pub content_bytes : List ResultContent → ℕ
content_bytes = sum_of content_size

-- `append([]byte(nil), b...)`: a copy of no bytes is nil.
abbrev pub copy_bytes : Bytes → Option Bytes
copy_bytes [] = none
copy_bytes (b ∷ bs) = some (b ∷ bs)

-- The first `remaining` bytes of the payload that the kind names; the other payload goes.
unfoldable pub cut_content : ℕ → ResultContent → ResultContent
cut_content remaining c = elim c.kind [
  | ResultContentKind.json ↦ record {
    kind = ResultContentKind.json;
    text = [];
    json = copy_bytes (take remaining (json_bytes c.json));
  }
  | k ↦ record { kind = k; text = take remaining c.text; json = none }
]

-- The loop: what is kept, and whether something was cut.
unfoldable pub keep_from : ℕ → ℕ → List ResultContent → List ResultContent × Bool
unfolding cut_content
keep_from max used [] = ([], false)
keep_from max used (c ∷ cs) =
    let rest = keep_from max (used + content_size c) cs in
    if leb (used + content_size c) max
    then (c ∷ rest.0, rest.1)
    else if leb max used
    then ([], true)
    else (cut_content (max - used) c ∷ [], true)

unfoldable pub truncate_tool_result : ToolResult → ℤ → ToolResult
unfolding keep_from
truncate_tool_result res max =
    if leb_ℤ max (pos 0) || res.truncated
    then res
    else let kept = keep_from (pos_part max) 0 res.content in
      record res { content = kept.0; truncated = kept.1 }

abbrev pub text_content : String → List ResultContent
text_content text = record { kind = ResultContentKind.text; text = utf8 text; json = none } ∷ []

unfoldable pub error_result : String → String → ToolResult
error_result call_id message = record {
  call_id = call_id;
  content = text_content message;
  is_error = true;
  denied = false;
  truncated = false;
}

unfoldable pub denied_result : String → String → ToolResult
denied_result call_id reason = record {
  call_id = call_id;
  content =
      text_content (if str_eq reason "" then "operação negada pela política do agente" else reason);
  is_error = true;
  denied = true;
  truncated = false;
}

-- `id` and `now` are what the generator and the clock gave.
unfoldable pub tool_message : String → Time → ℤ → ToolResult → Message
unfolding truncate_tool_result
tool_message id now max res = record {
  id = id;
  role = Role.tool;
  parts =
      record {
        kind = PartKind.tool_result;
        text = [];
        call = none;
        result = some (truncate_tool_result res max);
        media = none;
      }
      ∷ [];
  created_at = now;
}

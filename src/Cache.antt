-- ===== src/Cache.antt =====
-- internal/engine/semcache/cache.go: which turns may use the semantic cache, and under which text.
-- The similarity of two vectors and SHA-256 are computed by the standard library's floats and hash.
pub mod Best
pub mod Bounded
mod Distinct
pub mod Store
mod Tests
use ia_harness.Base.{
  ℕ, ◌/◌, ◌%◌, ◌^◌, ℤ, pos, String, str_eq, Bool, true, false, not, ◌&&◌, ◌||◌, Option, none, some,
  List, [], ◌∷◌, ◌++◌, leb_ℤ, ◌==◌, is_empty, any, all, if◌then◌else◌,
}
use ia_harness.Core.Message.{Bytes, Role, Part, Message, ResultContent, ToolCall, ToolResult}
use ia_harness.Core.Config.{ChatRequest, Score, SemanticCacheConfig, Tool, Vector}
use ia_harness.Core.Text.{utf8, encode}
use ia_harness.Media.Mime.{code_points, trim_space}

-- The bits of 0.9.
abbrev pub default_min_score : Score
default_min_score = pos 0x3FECCCCCCCCCCCCD

abbrev pub default_max_entries : ℤ
default_max_entries = pos 1000

unfoldable pub defaults : SemanticCacheConfig → SemanticCacheConfig
defaults cfg = record cfg {
  min_score = if leb_ℤ cfg.min_score (pos 0) then default_min_score else cfg.min_score;
  max_entries = if leb_ℤ cfg.max_entries (pos 0) then default_max_entries else cfg.max_entries;
}

abbrev pub non_deterministic_params : List String
non_deterministic_params = "temperature" ∷ "top_p" ∷ "top_k" ∷ "seed" ∷ []

unfoldable pub eligible : ChatRequest → List Tool → SemanticCacheConfig → Bool
eligible req tools cfg =
    if not cfg.enabled
    then false
    else if not (is_empty tools) || not (is_empty req.tools)
    then false
    else if not (is_empty req.output_schema)
    then false
    else if is_empty req.messages
    then false
    else not (any (λ p. any (str_eq p) req.params) non_deterministic_params)

abbrev pub role_text : Role → String
role_text Role.system = "system"
role_text Role.user = "user"
role_text Role.assistant = "assistant"
role_text Role.tool = "tool"
role_text (Role.other r) = r

abbrev raw : Option Bytes → Bytes
raw none = []
raw (some b) = b

contents_text : List ResultContent → Bytes
contents_text [] = []
contents_text (c ∷ cs) = (c.text ++ raw c.json) ++ contents_text cs

abbrev result_text : Option ToolResult → Bytes
result_text none = []
result_text (some r) = contents_text r.content

abbrev call_text : Option ToolCall → Bytes → Bytes
call_text none other = other
call_text (some c) other = utf8 c.name ++ b'(' ∷ raw c.args ++ b')' ∷ []

part_text : Part → Bytes
unfolding contents_text utf8
part_text p = if not (is_empty p.text) then p.text else call_text p.call (result_text p.result)

parts_text : List Part → Bytes
unfolding part_text
parts_text [] = []
parts_text (p ∷ ps) = part_text p ++ parts_text ps

unfoldable pub message_text : Message → Bytes
unfolding parts_text
message_text m = parts_text m.parts

messages_text : List Message → Bytes
unfolding message_text utf8
messages_text [] = []
messages_text (m ∷ ms) =
    (b'\n' ∷ utf8 (role_text m.role) ++ b':' ∷ message_text m) ++ messages_text ms

unfoldable pub canonical_text : ChatRequest → Bytes
unfolding messages_text utf8 encode trim_space code_points
canonical_text req =
    (utf8 "system:" ++ encode (trim_space (code_points req.system))) ++ messages_text req.messages

-- `sha` is the hash in hexadecimal digits.
unfoldable pub key : (Bytes → String) → ChatRequest → String → String
unfolding canonical_text utf8
key sha req model = sha (utf8 model ++ 0 ∷ canonical_text req)

-- A NaN and an infinity have all bits of the exponent set.
abbrev pub is_finite : ℕ → Bool
is_finite bits = not (bits / 2 ^ 23 % 256 == 255)

unfoldable pub valid : Vector → Bool
valid vector = not (is_empty vector) && all is_finite vector

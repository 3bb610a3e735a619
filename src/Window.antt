-- ===== src/Window.antt =====
-- internal/engine/window.go: the context that is sent to a model, cut to its budget.
-- The tokenizer and the summarizer are ports of the host, and identifiers are drawn outside: they
-- are parameters. A ratio, a float of the source, is the fraction that it stands for; products and
-- comparisons round as float64 does, and sums of tokens wrap.
pub mod Blocks
pub mod Removal
pub mod Order
pub mod Trigger
pub mod Apply
mod Tests
use Prim.Native.String.{len}
use ia_harness.Base.{
  ℕ, zero, suc, ◌+◌, ◌-◌, ◌*◌, ℤ, pos, pos_part, ◌-ℤ◌, ◌+ℤ◌, String, Bool, true, false, not, ◌&&◌,
  ◌||◌, Option, none, some, List, [], ◌∷◌, ◌++◌, length, any, sum_of, is_empty, leb, ltb, leb_ℤ,
  ltb_ℤ, if◌then◌else◌, Fraction, to_float, wrap64, add64,
}
use ia_harness.Core.Message.{
  Bytes, Time, Role, PartKind, Part, Message, ToolCall, ToolResult, ResultContent, Media, is_system,
  is_tool_call, is_tool_result, text_part,
}
use ia_harness.Core.Config.{Capabilities, CompactionInfo, Tool}
use ia_harness.Cost.{Pricing, Ratio, estimate_tokens}

-- The host's tokenizer, on payloads and on names.
pub record Tokenizer : Type 0 where
  pub count : Bytes → ℕ
  pub count_text : String → ℕ

-- What the window reads of the configuration.
pub record Settings : Type 0 where
  pub max_tokens : ℤ
  pub safety_margin : ℤ
  pub compact_at_ratio : Ratio
  pub pricing : Pricing
  pub tokenizer : Option Tokenizer

unfoldable pub message_has_tool_call : Message → Bool
message_has_tool_call m = any (λ (p : Part). is_tool_call p.kind) m.parts

unfoldable pub message_has_tool_result : Message → Bool
message_has_tool_result m = any (λ (p : Part). is_tool_result p.kind) m.parts

-- A message alone, or a tool call with the results that follow it: never empty.
pub record Block : Type 0 where
  pub first : Message
  pub rest : List Message

abbrev pub alone : Message → Block
alone m = record { first = m; rest = [] }

abbrev pub members : Block → List Message
members b = b.first ∷ b.rest

abbrev pub flatten_blocks : List Block → List Message
flatten_blocks [] = []
flatten_blocks (b ∷ bs) = members b ++ flatten_blocks bs

-- The two loops of `contextBlocks`: a block whose first message calls a tool is open to results.
unfoldable pub blocks_from : Block → List Message → List Block
blocks_from b [] = b ∷ []
blocks_from b (m ∷ ms) = elim (message_has_tool_call b.first && message_has_tool_result m) [
  | true ↦ blocks_from (record b { rest = b.rest ++ m ∷ [] }) ms
  | false ↦ b ∷ blocks_from (alone m) ms
]

unfoldable pub context_blocks : List Message → List Block
context_blocks [] = []
context_blocks (m ∷ ms) = blocks_from (alone m) ms

abbrev pub is_kept : Block → Bool
is_kept b = is_system b.first.role

-- The scan for the oldest block that is neither of the system nor the last.
unfoldable pub take_oldest : List Block → Option (Block × List Block)
take_oldest [] = none
take_oldest (b ∷ []) = none
take_oldest (b ∷ c ∷ bs) = elim (is_kept b) [
  | false ↦ some (b, c ∷ bs)
  | true ↦ elim (take_oldest (c ∷ bs)) [ none ↦ none | some (d, rest) ↦ some (d, b ∷ rest) ]
]

-- The loop of `removeOldestBlocks`; each round removes a block, so their number is enough fuel.
unfoldable pub remove_from :
    (List Message → Bool) → ℕ → List Block → List Message → List Message × List Message
remove_from fits zero blocks removed = (flatten_blocks blocks, removed)
remove_from fits (suc fuel) blocks removed = elim (fits (flatten_blocks blocks)) [
  | true ↦ (flatten_blocks blocks, removed)
  | false ↦ elim (take_oldest blocks) [
    | none ↦ (flatten_blocks blocks, removed)
    | some (b, rest) ↦ remove_from fits fuel rest (removed ++ members b)
  ]
]

unfoldable pub remove_oldest_blocks :
    (List Message → Bool) → List Message → List Message × List Message
remove_oldest_blocks fits messages =
    let blocks = context_blocks messages in remove_from fits (length blocks) blocks []

abbrev pub optional {ℓ} : {A : Type ℓ} → (A → ℕ) → Option A → ℕ
optional f none = 0
optional f (some a) = f a

-- The payload of a raw JSON, empty where it is nil.
abbrev pub or_empty : Option Bytes → Bytes
or_empty none = []
or_empty (some b) = b

abbrev pub content_bytes : ResultContent → ℕ
content_bytes c = length c.text + length (or_empty c.json)

abbrev pub part_bytes : Part → ℕ
part_bytes p =
    length p.text
    + optional (λ (c : ToolCall). length (or_empty c.args)) p.call
    + optional (λ (r : ToolResult). sum_of content_bytes r.content) p.result
    + optional (λ (m : Media). length m.bytes + len m.reference) p.media

unfoldable pub message_bytes : Message → ℕ
message_bytes m = sum_of part_bytes m.parts

abbrev pub part_tokens : Tokenizer → Part → ℕ
part_tokens t p =
    t.count p.text
    + optional (λ (c : ToolCall). t.count (or_empty c.args)) p.call
    + optional
        (λ (r : ToolResult).
          sum_of (λ (c : ResultContent). t.count c.text + t.count (or_empty c.json)) r.content)
        p.result

unfoldable pub tokenize_message : Tokenizer → Message → ℕ
tokenize_message t m = sum_of (part_tokens t) m.parts

unfoldable pub estimate_window_tokens : Settings → List Message → ℕ
estimate_window_tokens s messages = elim s.tokenizer [
  | none ↦ estimate_tokens s.pricing (sum_of message_bytes messages)
  | some t ↦ sum_of (tokenize_message t) messages
]

unfoldable pub estimate_text_tokens : Settings → Bytes → ℕ
estimate_text_tokens s text =
    if is_empty text
    then 0
    else elim s.tokenizer [ none ↦ estimate_tokens s.pricing (length text) | some t ↦ t.count text ]

unfoldable pub estimate_tools_tokens : Settings → List Tool → ℕ
estimate_tools_tokens s tools = if is_empty tools then 0 else elim s.tokenizer [
  | none ↦ estimate_tokens s.pricing (
      sum_of
        (λ (t : Tool). len t.name + len t.description + length t.input_schema + len t.namespace)
        tools)
  | some k ↦
      sum_of
        (λ (t : Tool).
          k.count_text t.name
          + k.count_text t.description
          + k.count t.input_schema
          + k.count_text t.namespace)
        tools
]

-- The budget of a model, and whether the model itself declares it.
unfoldable pub context_budget : Settings → Capabilities → ℤ × Bool
context_budget s caps =
    let budget = wrap64 (caps.max_context_tokens -ℤ add64 caps.max_output_tokens s.safety_margin) in
    if ltb_ℤ (pos 0) caps.max_context_tokens
    then (if ltb_ℤ budget (pos 1) then pos 1 else budget, true)
    else if ltb_ℤ (pos 0) s.max_tokens
    then (s.max_tokens, false)
    else (pos 0, false)

abbrev pub whole : Ratio
whole = record { num = pos 1; den = 1 }

-- The float64 nearest to 0.8.
abbrev pub default_compact_at_ratio : Ratio
default_compact_at_ratio = record { num = pos 3602879701896397; den = 4503599627370496 }

unfoldable pub compaction_ratio : Settings → Bool → Ratio
compaction_ratio s false = whole
compaction_ratio s true =
    if ltb_ℤ (pos 0) s.compact_at_ratio.num then s.compact_at_ratio else default_compact_at_ratio

-- "resumo de histórico: " in UTF-8
abbrev pub summary_provenance : Bytes
summary_provenance =
    0x72 ∷ 0x65 ∷ 0x73 ∷ 0x75 ∷ 0x6d ∷ 0x6f ∷ 0x20 ∷ 0x64 ∷ 0x65 ∷ 0x20 ∷ 0x68 ∷ 0x69 ∷ 0x73 ∷ 0x74
    ∷ 0xc3 ∷ 0xb3 ∷ 0x72 ∷ 0x69 ∷ 0x63 ∷ 0x6f ∷ 0x3a ∷ 0x20 ∷ []

abbrev pub summary_message : String → Time → Bytes → Message
summary_message id now summary = record {
  id = id;
  role = Role.system;
  parts = text_part (summary_provenance ++ summary) ∷ [];
  created_at = now;
}

-- The summary goes right behind the leading messages of the system.
unfoldable pub inject : Message → List Message → List Message
inject message [] = message ∷ []
inject message (m ∷ ms) = elim (is_system m.role) [
  | true ↦ m ∷ inject message ms
  | false ↦ message ∷ m ∷ ms
]

unfoldable pub inject_summary : String → Time → List Message → Bytes → List Message
inject_summary id now messages summary = inject (summary_message id now summary) messages

-- What the summarizer of the host answers: an error, or a text, which may be empty.
abbrev pub Summarizer : Type 0
Summarizer = List Message → ℤ → String → Option Bytes

-- The kept messages with the summary of the removed ones, where there is one.
unfoldable pub summarized :
    Summarizer → String → Time → ℤ → String → List Message × List Message → List Message × Bool
summarized summarizer id now budget model (kept, removed) = elim (summarizer removed budget model) [
  | none ↦ (kept, false)
  | some summary ↦
      if is_empty summary then (kept, false) else (inject_summary id now kept summary, true)
]

-- A ratio that is not positive counts as 1.
abbrev pub or_whole : Ratio → Ratio
or_whole ratio = if leb_ℤ ratio.num (pos 0) then whole else ratio

-- `float64(budget)*ratio`
abbrev pub trigger_of : ℕ → Ratio → Fraction
trigger_of budget ratio =
    let b = to_float budget 1 in to_float (b.num * pos_part ratio.num) (b.den * ratio.den)

-- `float64(before) <= float64(budget)*ratio`, for a budget and a ratio above 0.
unfoldable pub below_trigger : ℤ → ℤ → Ratio → Bool
below_trigger before budget ratio =
    let n = to_float (pos_part before) 1 in
    let trigger = trigger_of (pos_part budget) ratio in
    leb_ℤ before (pos 0) || leb (n.num * trigger.den) (trigger.num * n.den)

module _ (s : Settings) (summarizer : Summarizer) (id : String) (now : Time) where
  -- The sums of tokens are ints and wrap.
  unfoldable pub window_tokens : List Message → ℕ → ℤ
  unfolding wrap64
  window_tokens messages extra = wrap64 (pos (estimate_window_tokens s messages + extra))

  unfoldable pub compacted :
      ℤ → ℕ → ℤ → Bool → String → List Message × List Message → List Message × Option CompactionInfo
  compacted before extra budget allow_summarize model (kept, removed) =
      let (out, has_summary) =
        if allow_summarize
        then summarized summarizer id now budget model (kept, removed)
        else (kept, false) in
      (
        out,
        some (record {
          tokens_before = before;
          tokens_after = window_tokens out extra;
          messages_removed = length removed;
          summarized = has_summary;
        }),
      )

  abbrev pub fits_in : ℕ → ℤ → List Message → Bool
  fits_in extra budget kept = leb_ℤ (window_tokens kept extra) budget

  -- What `applyWindow` does once the trigger is reached.
  unfoldable pub over_trigger :
      List Message → ℕ → ℤ → Bool → String → List Message × Option CompactionInfo
  over_trigger messages extra budget allow_summarize model =
      let split = remove_oldest_blocks (fits_in extra budget) messages in
      if is_empty split.1
      then (messages, none)
      else compacted (window_tokens messages extra) extra budget allow_summarize model split

  unfoldable pub apply_window :
      List Message → ℕ → ℤ → Ratio → Bool → String → List Message × Option CompactionInfo
  apply_window messages extra budget ratio allow_summarize model =
      let before = window_tokens messages extra in
      if leb_ℤ budget (pos 0) || is_empty messages
      then (messages, none)
      else if below_trigger before budget (or_whole ratio)
      then (messages, none)
      else over_trigger messages extra budget allow_summarize model

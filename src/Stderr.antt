-- ===== src/Stderr.antt =====
-- internal/platform/proc/stderr.go: the lines that a child process writes to stderr, in the log. The lock
-- makes each write one step.
pub mod Chunks
mod Tests
use ia_harness.Base.{
  ℕ, zero, suc, ◌+◌, ◌-◌, Bool, true, false, ◌&&◌, ◌==◌, ltb, Option, none, some, List, [], ◌∷◌,
  ◌++◌, length, take, is_empty, if◌then◌else◌,
}
use ia_harness.Core.Message.{Bytes}
use ia_harness.Core.Text.{utf8}

abbrev pub max_line_bytes : ℕ
max_line_bytes = 4096

abbrev pub max_total_bytes : ℕ
max_total_bytes = 65536

-- The sink, and the lines that it gave to the logger.
pub record Sink : Type 0 where
  pub has_logger : Bool
  pub secrets : List Bytes
  pub buffer : Bytes
  pub total : ℕ
  pub truncated : Bool
  pub logged : List Bytes

abbrev pub new_sink : Bool → List Bytes → Sink
new_sink has_logger secrets = record {
  has_logger = has_logger;
  secrets = secrets;
  buffer = [];
  total = 0;
  truncated = false;
  logged = [];
}

abbrev pub starts_with : Bytes → Bytes → Bool
starts_with [] line = true
starts_with (b ∷ bs) [] = false
starts_with (b ∷ bs) (c ∷ cs) = b == c && starts_with bs cs

-- `strings.ReplaceAll`, for a secret that is not empty; the number is what is left of one that was replaced.
unfoldable pub replace_from : Bytes → ℕ → Bytes → Bytes
unfolding utf8
replace_from secret skip [] = []
replace_from secret (suc skip) (b ∷ bs) = replace_from secret skip bs
replace_from secret zero (b ∷ bs) = elim (starts_with secret (b ∷ bs)) [
  | true ↦ utf8 "[REDACTED]" ++ replace_from secret (length secret - 1) bs
  | false ↦ b ∷ replace_from secret 0 bs
]

unfoldable pub redact : List Bytes → Bytes → Bytes
unfolding replace_from
redact [] line = line
redact (secret ∷ secrets) line =
    redact secrets (if is_empty secret then line else replace_from secret 0 line)

abbrev pub debug : Bytes → Sink → Sink
debug line s = record s { logged = s.logged ++ line ∷ [] }

unfoldable pub cut_line : Bytes → Bytes
unfolding utf8
cut_line line =
    if ltb max_line_bytes (length line)
    then take max_line_bytes line ++ utf8 " [TRUNCATED]"
    else line

abbrev pub add_total : Bytes → Sink → Sink
add_total line s = record s { total = s.total + length line }

abbrev pub log_line : Bytes → Sink → Sink
log_line line s = debug (redact s.secrets (cut_line line)) s

unfoldable pub emit_line : Bytes → Sink → Sink
unfolding cut_line redact utf8
emit_line line s =
    if s.truncated
    then s
    else if ltb max_total_bytes (s.total + length line)
    then debug (utf8 "[TOTAL TRUNCATED]") (record (add_total line s) { truncated = true })
    else log_line line (add_total line s)

abbrev pub before_byte : ℕ → Option (Bytes × Bytes) → Option (Bytes × Bytes)
before_byte b none = none
before_byte b (some (front, rest)) = some (b ∷ front, rest)

-- `bytes.IndexByte` and the two slices at it.
unfoldable pub split_line : Bytes → Option (Bytes × Bytes)
split_line [] = none
split_line (b ∷ bs) =
    let later = split_line bs in if b == 10 then some ([], bs) else before_byte b later

abbrev pub buffered : Bytes → Sink → Sink
buffered p s = record s { buffer = s.buffer ++ p }

abbrev pub end_line : Sink → Sink
end_line s = record (emit_line s.buffer s) { buffer = [] }

-- The loop: each turn but the last takes a line feed, so as many turns as there are bytes are enough.
unfoldable pub write_loop : ℕ → Bytes → Sink → Sink
unfolding split_line emit_line
write_loop turns [] s = s
write_loop zero (b ∷ bs) s = s
write_loop (suc turns) (b ∷ bs) s = elim (split_line (b ∷ bs)) [
  | none ↦ buffered (b ∷ bs) s
  | some (front, rest) ↦ write_loop turns rest (end_line (buffered front s))
]

unfoldable pub write : Bytes → Sink → Sink
unfolding write_loop
write p s = if s.has_logger then write_loop (length p) p s else s

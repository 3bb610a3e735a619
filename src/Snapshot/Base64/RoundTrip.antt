-- ===== src/Snapshot/Base64/RoundTrip.antt =====
-- Bytes come back from their base64 text.
use ia_harness.Base.{
  ℕ, ◌+◌, ◌*◌, ◌/◌, ◌%◌, ◌<◌, ◌≡◌, refl, sym, Bool, true, false, not, some, [], ◌∷◌, arith, ◌==◌,
  filter,
}
use ia_harness.Core.Message.{Bytes}
use ia_harness.Snapshot.Base64.{
  pad, digit, value, encode, first_byte, second_byte, third_byte, quantum, decode_quanta,
  is_line_end, decode, IsBytes,
}

value-digit : (i : ℕ) → i < 64 → value (digit i) ≡ some i
unfolding value digit
value-digit i h = ground arith

digit-line_end : (i : ℕ) → i < 64 → (digit i == pad ≡ false) × (is_line_end (digit i) ≡ false)
unfolding digit is_line_end
digit-line_end i h = (ground arith, ground arith)

first : (a b : ℕ) → b < 256 → first_byte (a / 4) (a % 4 * 16 + b / 16) ≡ a
unfolding first_byte
first a b h = omega arith

second :
    (a b c : ℕ) → b < 256 → c < 256 → second_byte (a % 4 * 16 + b / 16) (b % 16 * 4 + c / 64) ≡ b
unfolding second_byte
second a b c hb hc = omega arith

third : (b c : ℕ) → c < 256 → third_byte (b % 16 * 4 + c / 64) (c % 64) ≡ c
unfolding third_byte
third b c hc = omega arith

-- Four digits of three bytes, three of two and two of one read back as these.
three_bytes :
    (last : Bool) (a b c : ℕ)
    → a < 256
    → b < 256
    → c < 256
    → quantum last
        (digit (a / 4))
        (digit (a % 4 * 16 + b / 16))
        (digit (b % 16 * 4 + c / 64))
        (digit (c % 64))
      ≡ some (a ∷ b ∷ c ∷ [])
unfolding quantum
three_bytes last a b c ha hb hc = rw (
  (digit-line_end (c % 64) (omega arith)).0,
  value-digit (a / 4) (omega arith),
  value-digit (a % 4 * 16 + b / 16) (omega arith),
  value-digit (b % 16 * 4 + c / 64) (omega arith),
  value-digit (c % 64) (omega arith),
  first a b hb,
  second a b c hb hc,
  third b c hc,
)

two_bytes :
    (a b : ℕ)
    → a < 256
    → b < 256
    → quantum true (digit (a / 4)) (digit (a % 4 * 16 + b / 16)) (digit (b % 16 * 4)) pad
      ≡ some (a ∷ b ∷ [])
unfolding quantum second_byte
two_bytes a b ha hb =
    let back : b ≡ (a % 4 * 16 + b / 16) % 16 * 16 + b % 16 * 4 / 4 = omega arith in
    rw (
      (digit-line_end (b % 16 * 4) (omega arith)).0,
      value-digit (a / 4) (omega arith),
      value-digit (a % 4 * 16 + b / 16) (omega arith),
      value-digit (b % 16 * 4) (omega arith),
      first a b hb,
      sym back,
    )

one_byte :
    (a : ℕ) → a < 256 → quantum true (digit (a / 4)) (digit (a % 4 * 16)) pad pad ≡ some (a ∷ [])
unfolding quantum first_byte
one_byte a ha =
    let back : a ≡ a / 4 * 4 + a % 4 * 16 / 16 = omega arith in
    rw (value-digit (a / 4) (omega arith), value-digit (a % 4 * 16) (omega arith), sym back)

-- The text that `encode` writes has no line ends.
kept :
    (i : ℕ) (rest : Bytes)
    → i < 64
    → filter (λ c. not (is_line_end c)) (digit i ∷ rest)
      ≡ digit i ∷ filter (λ c. not (is_line_end c)) rest
kept i rest h = rw ((digit-line_end i h).1)

pads :
    (filter (λ c. not (is_line_end c)) (pad ∷ pad ∷ []) ≡ pad ∷ pad ∷ [])
    × (filter (λ c. not (is_line_end c)) (pad ∷ []) ≡ pad ∷ [])
unfolding is_line_end
pads = (refl, refl)

no_line_ends : (b : Bytes) → IsBytes b → filter (λ c. not (is_line_end c)) (encode b) ≡ encode b
unfolding encode
no_line_ends [] h = refl
no_line_ends (a ∷ []) h =
    let h_a = h.0 in rw (kept (a / 4) _ (omega arith), kept (a % 4 * 16) _ (omega arith), pads.0)
no_line_ends (a ∷ b ∷ []) h =
    let h_a = h.0 in
    let h_b = h.1.0 in
    rw (
      kept (a / 4) _ (omega arith),
      kept (a % 4 * 16 + b / 16) _ (omega arith),
      kept (b % 16 * 4) _ (omega arith),
      pads.1,
    )
no_line_ends (a ∷ b ∷ c ∷ rest) h =
    let h_a = h.0 in
    let h_b = h.1.0 in
    let h_c = h.1.1.0 in
    rw (
      kept (a / 4) _ (omega arith),
      kept (a % 4 * 16 + b / 16) _ (omega arith),
      kept (b % 16 * 4 + c / 64) _ (omega arith),
      kept (c % 64) _ (omega arith),
      no_line_ends rest h.1.1.1,
    )

decode_quanta-encode : (b : Bytes) → IsBytes b → decode_quanta (encode b) ≡ some b
unfolding decode_quanta encode
decode_quanta-encode [] h = refl
decode_quanta-encode (a ∷ []) h = rw (one_byte a h.0)
decode_quanta-encode (a ∷ b ∷ []) h = rw (two_bytes a b h.0 h.1.0)
decode_quanta-encode (a ∷ b ∷ c ∷ rest) h =
    rw (three_bytes _ a b c h.0 h.1.0 h.1.1.0, decode_quanta-encode rest h.1.1.1)

-- Bytes come back from their base64 text.
pub decode-encode : (b : Bytes) → IsBytes b → decode (encode b) ≡ some b
unfolding decode
decode-encode b h = rw (no_line_ends b h, decode_quanta-encode b h)

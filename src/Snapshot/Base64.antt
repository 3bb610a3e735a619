-- ===== src/Snapshot/Base64.antt =====
-- `base64.StdEncoding` of Go's standard library: with padding, and without regard to line ends.
pub mod RoundTrip
use ia_harness.Base.{
  ℕ, ◌+◌, ◌-◌, ◌*◌, ◌/◌, ◌%◌, ◌<◌, ◌≡◌, refl, sym, ap, Bool, true, false, not, ◌&&◌, ◌||◌, Option,
  none, some, List, [], ◌∷◌, ◌++◌, arith, ltb, leb, ◌==◌, if◌then◌else◌, is_empty, filter, All,
}
use ia_harness.Core.Message.{Bytes}

abbrev pub pad : ℕ
pad = b'='

unfoldable pub digit : ℕ → ℕ
digit i =
    if ltb i 26
    then i + 65
    else if ltb i 52
    then i + 71
    else if ltb i 62
    then i - 4
    else if i == 62
    then 43
    else 47

unfoldable pub value : ℕ → Option ℕ
value c =
    if leb 65 c && leb c 90
    then some (c - 65)
    else if leb 97 c && leb c 122
    then some (c - 71)
    else if leb 48 c && leb c 57
    then some (c + 4)
    else if c == 43
    then some 62
    else if c == 47
    then some 63
    else none

unfoldable pub encode : Bytes → Bytes
encode [] = []
encode (a ∷ []) = digit (a / 4) ∷ digit (a % 4 * 16) ∷ pad ∷ pad ∷ []
encode (a ∷ b ∷ []) = digit (a / 4) ∷ digit (a % 4 * 16 + b / 16) ∷ digit (b % 16 * 4) ∷ pad ∷ []
encode (a ∷ b ∷ c ∷ rest) =
    digit (a / 4)
    ∷ digit (a % 4 * 16 + b / 16)
    ∷ digit (b % 16 * 4 + c / 64)
    ∷ digit (c % 64)
    ∷ encode rest

infixl 5 ◌>>=◌
abbrev pub ◌>>=◌ : {A B : Type 0} → Option A → (A → Option B) → Option B
none >>= k = none
some a >>= k = k a

abbrev pub pure : {A : Type 0} → A → Option A
pure = some

unfoldable pub first_byte : ℕ → ℕ → ℕ
first_byte i j = i * 4 + j / 16

unfoldable pub second_byte : ℕ → ℕ → ℕ
second_byte j k = j % 16 * 16 + k / 4

unfoldable pub third_byte : ℕ → ℕ → ℕ
third_byte k l = k % 4 * 64 + l

-- Four characters; only the last four may be padded.
unfoldable pub quantum : Bool → ℕ → ℕ → ℕ → ℕ → Option Bytes
unfolding first_byte second_byte third_byte
quantum last a b c d =
    if d == pad
    then (if last
        then (if c == pad then (do i ← value a; j ← value b; pure (first_byte i j ∷ [])) else (do
          i ← value a
          j ← value b
          k ← value c
          pure (first_byte i j ∷ second_byte j k ∷ [])))
        else none)
    else (do
      i ← value a
      j ← value b
      k ← value c
      l ← value d
      pure (first_byte i j ∷ second_byte j k ∷ third_byte k l ∷ []))

unfoldable pub decode_quanta : Bytes → Option Bytes
unfolding quantum
decode_quanta [] = some []
decode_quanta (a ∷ b ∷ c ∷ d ∷ rest) = do
  bytes ← quantum (is_empty rest) a b c d
  more ← decode_quanta rest
  pure (bytes ++ more)
decode_quanta _ = none

unfoldable pub is_line_end : ℕ → Bool
is_line_end c = c == 10 || c == 13

unfoldable pub decode : Bytes → Option Bytes
unfolding decode_quanta is_line_end
decode text = decode_quanta (filter (λ c. not (is_line_end c)) text)

abbrev pub IsBytes : Bytes → Type 0
IsBytes = All (λ b. b < 256)

-- ===== src/Core/Text.antt =====
-- The UTF-8 bytes of a text constant, which a payload counts and cuts.
use Prim.Native.Char.{code}
use ia_harness.Base.{
  ℕ, zero, suc, String, Bool, ◌&&◌, ◌||◌, List, [], ◌∷◌, ◌++◌, ltb, leb, ◌==◌, if◌then◌else◌,
  is_empty, ◌+◌, ◌-◌, ◌/◌, ◌%◌,
}
use ia_harness.Core.Message.{Bytes}

char_bytes : ℕ → Bytes
char_bytes c =
    if ltb c 128
    then c ∷ []
    else if ltb c 2048
    then (192 + c / 64) ∷ (128 + c % 64) ∷ []
    else if ltb c 65536
    then (224 + c / 4096) ∷ (128 + c / 64 % 64) ∷ (128 + c % 64) ∷ []
    else (240 + c / 262144) ∷ (128 + c / 4096 % 64) ∷ (128 + c / 64 % 64) ∷ (128 + c % 64) ∷ []

unfoldable pub utf8 : String → Bytes
unfolding char_bytes
utf8 String.[] = []
utf8 (String.◌∷◌ c s) = char_bytes (code c) ++ utf8 s

-- The same for code points.
unfoldable pub encode : List ℕ → Bytes
unfolding char_bytes
encode [] = []
encode (c ∷ cs) = char_bytes c ++ encode cs

-- How many bytes the white space at the start takes: 0 where there is none.
two_byte_space : Bytes → ℕ
two_byte_space [] = 0
two_byte_space (b ∷ bs) = if b == 0x85 || b == 0xA0 then 2 else 0

abbrev is_wide_space : ℕ → ℕ → ℕ → Bool
is_wide_space a b c =
    (a == 0xE1 && b == 0x9A && c == 0x80)
    || (a == 0xE2
        && b == 0x80
        && ((leb 0x80 c && leb c 0x8A) || c == 0xA8 || c == 0xA9 || c == 0xAF))
    || (a == 0xE2 && b == 0x81 && c == 0x9F)
    || (a == 0xE3 && b == 0x80 && c == 0x80)

three_byte_space : ℕ → Bytes → ℕ
three_byte_space a (b ∷ c ∷ bs) = if is_wide_space a b c then 3 else 0
three_byte_space a _ = 0

space_width : Bytes → ℕ
unfolding two_byte_space three_byte_space
space_width [] = 0
space_width (a ∷ bs) =
    if (leb 9 a && leb a 13) || a == 32
    then 1
    else if a == 0xC2
    then two_byte_space bs
    else three_byte_space a bs

trim_front : ℕ → Bytes → Bytes
unfolding space_width
trim_front skip [] = []
trim_front (suc skip) (b ∷ bs) = trim_front skip bs
trim_front zero (b ∷ bs) =
    let rest = trim_front (space_width (b ∷ bs) - 1) bs in
    if space_width (b ∷ bs) == 0 then b ∷ bs else rest

trim_back : Bytes → Bytes
unfolding trim_front
trim_back [] = []
trim_back (b ∷ bs) =
    let rest = trim_back bs in if is_empty (trim_front 0 (b ∷ bs)) then [] else b ∷ rest

-- `strings.TrimSpace`
unfoldable pub trim_bytes : Bytes → Bytes
unfolding trim_front trim_back
trim_bytes text = trim_back (trim_front 0 text)

-- ===== src/Snapshot/Fields.antt =====
-- What an omitted field reads back as.
use ia_harness.Base.{
  ℤ, pos, String, ◌≡◌, refl, eq_iff, Bool, true, false, Option, none, some, [], ◌∷◌, arith, ◌≤ℤ◌,
  IsInt64, ok,
}
use ia_harness.Core.Message.{Bytes}
use ia_harness.Snapshot.Types.{
  optional_string, optional_text, string_value, text_value, optional_bool, bool_value, optional_int,
  int64_value, int64_to_int, copy_raw, raw_to_any, any_to_raw,
}

pub string_value-optional_string : (v : String) → string_value (optional_string v) ≡ v
unfolding string_value optional_string
string_value-optional_string v = ground (arith, eq_iff v "")

pub text_value-optional_text : (v : Bytes) → text_value (optional_text v) ≡ v
unfolding text_value optional_text
text_value-optional_text [] = refl
text_value-optional_text (b ∷ v) = refl

pub bool_value-optional_bool : (v : Bool) → bool_value (optional_bool v) ≡ v
unfolding bool_value optional_bool
bool_value-optional_bool true = refl
bool_value-optional_bool false = refl

pub int64_value-optional_int : (v : ℤ) → pos 0 ≤ℤ v → IsInt64 v → int64_value (optional_int v) ≡ v
unfolding int64_value optional_int
int64_value-optional_int v nonneg range = ground arith

pub int64_to_int-ok : (field : String) (v : ℤ) → IsInt64 v → int64_to_int field v ≡ ok v
unfolding int64_to_int
int64_to_int-ok field v range = ground arith

-- Raw bytes that a copy keeps: nil, or at least one byte.
abbrev pub IsKept : Option Bytes → Type 0
IsKept none = Unit
IsKept (some []) = ⊥
IsKept (some (b ∷ bs)) = Unit

pub any_to_raw-raw_to_any :
    {J : Type 0} (marshal : J → Option Bytes) (raw : Option Bytes)
    → IsKept raw
    → any_to_raw marshal (raw_to_any raw) ≡ ok raw
unfolding any_to_raw raw_to_any copy_raw
any_to_raw-raw_to_any marshal none h = refl
any_to_raw-raw_to_any marshal (some []) h = absurd h
any_to_raw-raw_to_any marshal (some (b ∷ bs)) h = refl

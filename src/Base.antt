-- ===== src/Base.antt =====
-- The names that the modules of the development share: the libraries', passed on, and those of
-- three children.
mod Tests
mod Lists
mod Int
mod Fallible
mod Float
pub use Tests.*
pub use Lists.{
  length, take, drop, is_empty, any, all, filter, sum_of, length-append, length-take, sum_of-append,
  All, All-append, Assoc, lookup-put,
}
unfoldable pub use Lists.{lookup, put}
pub use Int.{
  ℤ, pos, negsuc, pos_part, neg_part, sub_ℕ, ◌≤ℤ◌, ◌<ℤ◌, ltb_ℤ, leb_ℤ, +ℤ_parts, -ℤ_parts,
  eq_of_parts, int_laws, to_word, of_word, max_int64, IsInt64, wrap64_id, add64_exact,
  wrap64-IsInt64,
}
pub use Fallible.*
pub use Float.{Fraction, to_float-den, to_float-most, to_float-least, to_float-large}
unfoldable pub use Float.{to_float}
unfoldable pub use Int.{◌+ℤ◌, ◌-ℤ◌, wrap64, add64}
pub use Prim.Native.Nat.{ℕ, zero, suc, ◌+◌, ◌-◌, ◌*◌, ◌/◌, ◌%◌, ◌^◌, ◌≤◌, ◌<◌, min}
pub use Prim.Native.String.{String}
pub use text.Mathlib.Text.{◌==◌ as str_eq}
pub use text.Mathlib.TextEquality.{eq_iff}
pub use text.Mathlib.TextPositions.{eq_refl}
pub use mathlib.Core.Path.{◌≡◌, refl, sym, ap, ◌∙◌}
pub use mathlib.Core.Logic.{◌≢◌, ◌↔◌, ◌⊎◌, inl, inr}
pub use mathlib.Core.Bool.{Bool, true, false, not, ◌&&◌, ◌||◌}
pub use mathlib.Core.Option.{Option, none, some}
pub use mathlib.Core.List.{List, [], ◌∷◌, ◌++◌, map, append-nil, append_assoc}
pub use native.Mathlib.Omega.{arith}

-- ===== src/Base/Float.antt =====
-- The float64 of a positive fraction, to nearest and to even where two are as near: 53 bits, with
-- at least the exponent -1074. Overflow does not arise below the sizes that are compared.
use native.Mathlib.Nat.{
  div-add-mod', le_of_mul-le-mul_right, lt_of_mul-lt-mul_right, le-div_iff_mul-le, mul-le-mul_right,
  mul-le-mul,
}
use Prim.Native.Nat.{ℕ, zero, suc, ◌+◌, ◌*◌, ◌/◌, ◌%◌, ◌^◌, ◌≤◌, ◌<◌}
use mathlib.Core.Path.{◌≡◌, ap}
use mathlib.Core.Logic.{inl, inr}
use mathlib.Core.Bool.{true, false}
use native.Mathlib.Omega.{arith}
use ia_harness.Base.Tests.{if◌then◌else◌, ltb, leb, Bool-cases}

-- A fraction, with a denominator above 0.
pub record Fraction : Type 0 where
  pub num : ℕ
  pub den : ℕ

unfoldable pub nearest : ℕ → ℕ → ℕ
nearest a b =
    let q = a / b in
    let twice = 2 * (a % b) in if ltb twice b then q else if ltb b twice then q + 1 else q + q % 2

-- How often `a` is doubled until the fraction has 53 bits before the point.
unfoldable pub doublings : ℕ → ℕ → ℕ → ℕ
doublings zero a b = 0
doublings (suc fuel) a b = elim (leb (2 ^ 52 * b) a) [
  | true ↦ 0
  | false ↦ suc (doublings fuel (2 * a) b)
]

unfoldable pub halvings : ℕ → ℕ → ℕ → ℕ
halvings zero a b = 0
halvings (suc fuel) a b = elim (ltb a (2 ^ 53 * b)) [
  | true ↦ 0
  | false ↦ suc (halvings fuel a (2 * b))
]

abbrev pub fine : ℕ → ℕ → Fraction
fine a b = let scale = 2 ^ doublings 1074 a b in record { num = nearest (a * scale) b; den = scale }

abbrev pub coarse : ℕ → ℕ → Fraction
coarse a b =
    let scale = 2 ^ halvings 971 a b in record { num = nearest a (b * scale) * scale; den = 1 }

unfoldable pub to_float : ℕ → ℕ → Fraction
unfolding nearest doublings
to_float a b = if ltb a (2 ^ 53 * b) then fine a b else coarse a b

ltb-of : (a b : ℕ) → a < b → ltb a b ≡ true
ltb-of a b h = ground arith

not-ltb : (a b : ℕ) → b ≤ a → ltb a b ≡ false
not-ltb a b h = ground arith

pub nearest-most : (a b n : ℕ) → 0 < b → a ≤ n * b → nearest a b ≤ n
unfolding nearest
nearest-most a b n h le =
    let split : a / b * b + a % b ≡ a = div-add-mod' a b in
    let whole : a / b ≤ n = le_of_mul-le-mul_right (omega (arith, split)) h in
    elim (Bool-cases (ltb (2 * (a % b)) b)) [
      | inl low ↦ rw low whole
      | inr high ↦
          let short : a / b < n = lt_of_mul-lt-mul_right b (ground (arith, split, high)) in
          ground (arith, short)
    ]

pub nearest-least : (a b n : ℕ) → 0 < b → n * b ≤ a → n ≤ nearest a b
unfolding nearest
nearest-least a b n h le = ground (arith, (le-div_iff_mul-le {x = n} {y = a} h).1 le)

two_pow-pos : (k : ℕ) → 0 < 2 ^ k
two_pow-pos zero = omega arith
two_pow-pos (suc k) = omega (arith, two_pow-pos k)

pub to_float-den : (a b : ℕ) → 0 < (to_float a b).den
unfolding to_float
to_float-den a b = elim (Bool-cases (ltb a (2 ^ 53 * b))) [
  | inl small ↦ rw small (two_pow-pos (doublings 1074 a b))
  | inr large ↦ rw large (omega arith)
]

-- Below 2 ^ 53 a whole number on one side of the fraction is on that side of its float.
pub to_float-most :
    (a b n : ℕ) → 0 < b → a < 2 ^ 53 * b → a ≤ n * b → (to_float a b).num ≤ n * (to_float a b).den
unfolding to_float
to_float-most a b n h small le =
    let scale = 2 ^ doublings 1074 a b in
    rw (ltb-of a (2 ^ 53 * b) small)
      (nearest-most (a * scale) b (n * scale) h (omega (arith, mul-le-mul_right scale le)))

pub to_float-least :
    (a b n : ℕ) → 0 < b → a < 2 ^ 53 * b → n * b ≤ a → n * (to_float a b).den ≤ (to_float a b).num
unfolding to_float
to_float-least a b n h small le =
    let scale = 2 ^ doublings 1074 a b in
    rw (ltb-of a (2 ^ 53 * b) small)
      (nearest-least (a * scale) b (n * scale) h (omega (arith, mul-le-mul_right scale le)))

pow_suc : (k : ℕ) → 2 ^ suc k ≡ 2 * 2 ^ k
pow_suc k = omega arith

halvings-two : (fuel a b : ℕ) → 2 ^ 53 * b ≤ a → 2 ≤ 2 ^ halvings (suc fuel) a b
unfolding halvings
halvings-two fuel a b h =
    rw (not-ltb a (2 ^ 53 * b) h, halvings)
      (omega (arith, pow_suc (halvings fuel a (2 * b)), two_pow-pos (halvings fuel a (2 * b))))

halvings-least : (fuel a b : ℕ) → 2 ^ 52 * b ≤ a → 2 ^ 52 * (b * 2 ^ halvings fuel a b) ≤ a
unfolding halvings
halvings-least zero a b h = omega (arith, h)
halvings-least (suc fuel) a b h = elim (Bool-cases (ltb a (2 ^ 53 * b))) [
  | inl small ↦ rw (small, halvings) (omega (arith, h))
  | inr large ↦
      rw (large, halvings)
        (omega (
          arith,
          halvings-least fuel a (2 * b) (ground (arith, large)),
          ap (λ x. b * x) (pow_suc (halvings fuel a (2 * b))),
        ))
]

coarse-large :
    (n : ℕ) → 2 ^ 53 ≤ n → 2 ^ 53 * 1 ≤ nearest n (1 * 2 ^ halvings 971 n 1) * 2 ^ halvings 971 n 1
coarse-large n h =
    let scale = 2 ^ halvings 971 n 1 in
    let two = halvings-two 970 n 1 (omega (arith, h)) in
    let most =
      nearest-least n (1 * scale) (2 ^ 52) (omega (arith, two))
        (halvings-least 971 n 1 (omega (arith, h))) in
    omega
      (arith, mul-le-mul {n₁ = 2 ^ 52} {m₁ = 2} {n₂ = nearest n (1 * scale)} {m₂ = scale} most two)

-- A whole number from 2 ^ 53 on has a float from there on.
pub to_float-large : (n : ℕ) → 2 ^ 53 ≤ n → 2 ^ 53 * (to_float n 1).den ≤ (to_float n 1).num
unfolding to_float
to_float-large n h = rw (not-ltb n (2 ^ 53 * 1) (omega (arith, h))) (coarse-large n h)

-- ===== src/Window/Trigger.antt =====
-- The trigger of a compaction compares floats (window.go, applyWindow).
use native.Mathlib.Nat.{mul-le-mul, mul-le-mul_right, mul-le-mul_left, le_of_mul-le-mul_right}
use ia_harness.Base.{
  ℕ, suc, ◌*◌, ◌^◌, ◌≤◌, ◌<◌, ℤ, pos, pos_part, ◌<ℤ◌, ◌≡◌, ap, refl, ◌⊎◌, Bool, ◌||◌, inl, inr,
  true, false, arith, leb→le, leb, leb_ℤ, ltb, Bool-cases, to_float, to_float-den, to_float-most,
  to_float-least, to_float-large,
}
use ia_harness.Cost.{Ratio}
use ia_harness.Window.{whole, trigger_of, below_trigger}

-- A number below 2 ^ 53 is its own float.
float_exact : (n : ℕ) → n < 2 ^ 53 → (to_float n 1).num ≡ n * (to_float n 1).den
float_exact n h = omega (
  arith,
  to_float-most n 1 n (omega arith) (omega (arith, h)) (omega arith),
  to_float-least n 1 n (omega arith) (omega (arith, h)) (omega arith),
)

-- A float that a small number bounds is that of a number that it bounds.
float_below :
    (n budget : ℕ) → budget < 2 ^ 53 → (to_float n 1).num ≤ budget * (to_float n 1).den → n ≤ budget
float_below n budget small le = elim (Bool-cases (ltb n (2 ^ 53))) [
  | inl few ↦
      let fits : n < 2 ^ 53 = ground (arith, few) in
      le_of_mul-le-mul_right {k = (to_float n 1).den} (omega (arith, float_exact n fits, le))
        (to_float-den n 1)
  | inr many ↦
      let large : 2 ^ 53 ≤ n = ground (arith, many) in
      absurd (
        omega (
          arith,
          to_float-large n large,
          mul-le-mul_right {m = suc budget} {n = 2 ^ 53} (to_float n 1).den small,
          to_float-den n 1,
          le,
        ))
]

module _ (budget num den : ℕ) (small : budget < 2 ^ 53) (pos_den : 0 < den) where
  abbrev scale : ℕ
  scale = (to_float budget 1).den

  divisor_pos : 0 < scale * den
  divisor_pos =
      omega (
        arith,
        mul-le-mul {n₁ = 1} {m₁ = 1} {n₂ = scale} {m₂ = den} (to_float-den budget 1) pos_den,
      )

  product : (to_float budget 1).num * num ≡ budget * scale * num
  product = ap (λ x. x * num) (float_exact budget small)

  below_product : num ≤ den → (to_float budget 1).num * num ≤ budget * (scale * den)
  below_product le = omega (arith, product, mul-le-mul_left (budget * scale) le)

  within : num ≤ den → (to_float budget 1).num * num < 2 ^ 53 * (scale * den)
  within le = omega (
    arith,
    below_product le,
    mul-le-mul_right {m = suc budget} {n = 2 ^ 53} (scale * den) small,
    divisor_pos,
  )

  -- The product with a ratio of 1 or less is not above the budget, and with 1 not below it.
  product-most :
      num ≤ den
      → (to_float ((to_float budget 1).num * num) (scale * den)).num
        ≤ budget * (to_float ((to_float budget 1).num * num) (scale * den)).den
  product-most le =
      to_float-most ((to_float budget 1).num * num) (scale * den) budget divisor_pos (within le)
        (below_product le)

  product-least :
      num ≡ den
      → budget * (to_float ((to_float budget 1).num * num) (scale * den)).den
        ≤ (to_float ((to_float budget 1).num * num) (scale * den)).num
  product-least same =
      to_float-least ((to_float budget 1).num * num) (scale * den) budget divisor_pos
        (within (omega (arith, same))) (omega (arith, product, ap (λ x. budget * scale * x) same))

second : (a b : Bool) → a ≡ false → (a || b) ≡ true → b ≡ true
second a b h e = ground (arith, h, e)

either_true : (a b : Bool) → (a ≡ true) ⊎ (b ≡ true) → (a || b) ≡ true
either_true a b (inl h) = ground (arith, h)
either_true true b (inr h) = refl
either_true false b (inr h) = h

le→leb : (a b : ℕ) → a ≤ b → leb a b ≡ true
le→leb a b h = ground arith

cancel : (x d y e b : ℕ) → 0 < d → x * d ≤ y * e → y ≤ b * d → x ≤ b * e
cancel x d y e b h le most =
    le_of_mul-le-mul_right {k = d} (omega (arith, le, mul-le-mul_right e most)) h

raise : (x d y e b : ℕ) → x ≤ b * e → b * d ≤ y → x * d ≤ y * e
raise x d y e b le least = omega (arith, mul-le-mul_right d le, mul-le-mul_right e least)

-- Below the trigger of a ratio of 1 or less the estimate is within the budget.
pub below_trigger-fits :
    (before budget : ℤ) (ratio : Ratio)
    → pos_part budget < 2 ^ 53
    → pos 0 <ℤ budget
    → pos 0 <ℤ ratio.num
    → pos_part ratio.num ≤ ratio.den
    → below_trigger before budget ratio ≡ true
    → leb_ℤ before budget ≡ true
unfolding below_trigger
below_trigger-fits before budget ratio small is_pos up le h =
    let n = pos_part before in
    let b = pos_part budget in
    let num = pos_part ratio.num in
    let t = trigger_of b ratio in
    let above : 0 < ratio.den = ground (arith, up, le) in
    elim (Bool-cases (leb_ℤ before (pos 0))) [
      | inl negative ↦ ground (arith, negative, is_pos)
      | inr positive ↦
          let cross : (to_float n 1).num * t.den ≤ t.num * (to_float n 1).den =
            leb→le _ _ (second _ _ positive h) in
          let fits : n ≤ b = float_below n b small (
            cancel (to_float n 1).num t.den t.num (to_float n 1).den b
              (to_float-den ((to_float b 1).num * num) ((to_float b 1).den * ratio.den)) cross
              (product-most b num ratio.den small above le)) in
          ground (arith, fits, positive, is_pos)
    ]

-- An estimate within the budget is below the trigger of the ratio 1.
pub fits-below_trigger :
    (before budget : ℤ)
    → pos_part budget < 2 ^ 53
    → pos 0 <ℤ budget
    → leb_ℤ before budget ≡ true
    → below_trigger before budget whole ≡ true
unfolding below_trigger
fits-below_trigger before budget small is_pos h =
    let n = pos_part before in
    let b = pos_part budget in
    let t = trigger_of b whole in
    elim (Bool-cases (leb_ℤ before (pos 0))) [
      | inl negative ↦ either_true _ _ (inl negative)
      | inr positive ↦
          let fits : n ≤ b = ground (arith, h, positive, is_pos) in
          let exact : (to_float n 1).num ≤ b * (to_float n 1).den = omega (
            arith,
            float_exact n (omega (arith, fits, small)),
            mul-le-mul_right (to_float n 1).den fits,
          ) in
          either_true _ _ (
            inr (
              le→leb _ _ (
                raise (to_float n 1).num t.den t.num (to_float n 1).den b exact
                  (product-least b 1 1 small (omega arith) (omega arith)))))
    ]

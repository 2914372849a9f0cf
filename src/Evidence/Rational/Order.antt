-- ===== src/Evidence/Rational/Order.antt =====
-- `compare` of packages/evidence/src/rational.ts orders ratios with positive denominators by value.
use tr4ce_app.Prelude.{
  ℕ, zero, suc, ◌<◌, ◌≡◌, ◌≢◌, ◌↔◌, ◌⊎◌, inl, inr, refl, ap, arith, if◌then◌else◌,
}
use tr4ce_app.Prelude.Int.{
  ℤ, pos, negsuc, pos_part, neg_part, ◌-ℤ◌, ◌*ℤ◌, ◌≤ℤ◌, ◌<ℤ◌, -ℤ_parts, sums, products, ltb_ℤ,
}
use tr4ce_app.Evidence.Rational.{Ratio, compare}
use tr4ce_app.Evidence.Rational.Points.{≤ℤ_scale, ≤ℤ_unscale}

sign : ℤ → ℤ
sign d = if ltb_ℤ d (pos 0) then negsuc 0 else if ltb_ℤ (pos 0) d then pos 1 else pos 0

sign_cases :
    (d : ℤ)
    → ((sign d ≡ negsuc 0) × (d <ℤ pos 0))
      ⊎ (((sign d ≡ pos 0) × (d ≡ pos 0)) ⊎ ((sign d ≡ pos 1) × (pos 0 <ℤ d)))
unfolding sign
sign_cases (pos zero) = inr (inl (refl, refl))
sign_cases (pos (suc n)) = inr (inr (ground arith, omega arith))
sign_cases (negsuc n) = inl (ground arith, omega arith)

module _ (l r : Ratio) where
  abbrev left : ℤ
  left = l.numerator *ℤ r.denominator

  abbrev right : ℤ
  right = r.numerator *ℤ l.denominator

  -- The answer is the order of the cross products.
  compare_cases :
      ((compare l r ≡ negsuc 0) × (left <ℤ right))
      ⊎ (((compare l r ≡ pos 0) × (left ≡ right)) ⊎ ((compare l r ≡ pos 1) × (right <ℤ left)))
  unfolding compare sign
  compare_cases = elim (sign_cases (left -ℤ right)) [
    | inl (e, h) ↦ inl (e, omega (sums, -ℤ_parts left right))
    | inr (inl (e, h)) ↦
        inr (inl (e, omega (sums, -ℤ_parts left right, ap pos_part h, ap neg_part h)))
    | inr (inr (e, h)) ↦ inr (inr (e, omega (sums, -ℤ_parts left right)))
  ]

-- The answer turns round with the arguments.
pub compare_swap :
    (l r : Ratio)
    → ((compare l r ≡ negsuc 0) ↔ (compare r l ≡ pos 1))
      × ((compare l r ≡ pos 0) ↔ (compare r l ≡ pos 0))
compare_swap l r = ground (arith, compare_cases l r, compare_cases r l)

chain :
    (a b c : ℤ) (x y z : ℕ)
    → 0 < y
    → a *ℤ pos y ≤ℤ b *ℤ pos x
    → b *ℤ pos z ≤ℤ c *ℤ pos y
    → a *ℤ pos z ≤ℤ c *ℤ pos x
chain a b c x y z p h k = ≤ℤ_unscale (a *ℤ pos z) (c *ℤ pos x) y p (
    simp products (
      omega (
        arith,
        simp products at (≤ℤ_scale (a *ℤ pos y) (b *ℤ pos x) z h),
        simp products at (≤ℤ_scale (b *ℤ pos z) (c *ℤ pos y) x k),
      )))

chain_of_positive :
    (a b c x y z : ℤ)
    → pos 0 <ℤ x
    → pos 0 <ℤ y
    → pos 0 <ℤ z
    → a *ℤ y ≤ℤ b *ℤ x
    → b *ℤ z ≤ℤ c *ℤ y
    → a *ℤ z ≤ℤ c *ℤ x
chain_of_positive a b c (pos x) (pos y) (pos z) p q r h k = chain a b c x y z (omega arith) h k
chain_of_positive a b c (negsuc x) y z p q r h k = absurd (omega arith)
chain_of_positive a b c (pos x) (negsuc y) z p q r h k = absurd (omega arith)
chain_of_positive a b c (pos x) (pos y) (negsuc z) p q r h k = absurd (omega arith)

not_greater_iff :
    (l r : Ratio)
    → (compare l r ≢ pos 1) ↔ (l.numerator *ℤ r.denominator ≤ℤ r.numerator *ℤ l.denominator)
not_greater_iff l r = (forth (compare_cases l r), back (compare_cases l r))
  where
    forth :
        ((compare l r ≡ negsuc 0) × (left l r <ℤ right l r))
          ⊎ (((compare l r ≡ pos 0) × (left l r ≡ right l r))
              ⊎ ((compare l r ≡ pos 1) × (right l r <ℤ left l r)))
        → compare l r ≢ pos 1
        → left l r ≤ℤ right l r
    forth (inl (e, h)) n = omega arith
    forth (inr (inl (e, h))) n = omega (arith, ap pos_part h, ap neg_part h)
    forth (inr (inr (e, h))) n = absurd (n e)

    back :
        ((compare l r ≡ negsuc 0) × (left l r <ℤ right l r))
          ⊎ (((compare l r ≡ pos 0) × (left l r ≡ right l r))
              ⊎ ((compare l r ≡ pos 1) × (right l r <ℤ left l r)))
        → left l r ≤ℤ right l r
        → compare l r ≢ pos 1
    back (inl (e, h)) n = λ f. cc
    back (inr (inl (e, h))) n = λ f. cc
    back (inr (inr (e, h))) n = λ f. omega arith

-- Ratios with positive denominators: "not greater" is transitive.
pub compare_trans :
    (l m r : Ratio)
    → pos 0 <ℤ l.denominator
    → pos 0 <ℤ m.denominator
    → pos 0 <ℤ r.denominator
    → compare l m ≢ pos 1
    → compare m r ≢ pos 1
    → compare l r ≢ pos 1
compare_trans l m r p q s h k = (not_greater_iff l r).1 (
    chain_of_positive l.numerator m.numerator r.numerator l.denominator m.denominator r.denominator
      p q s ((not_greater_iff l m).0 h) ((not_greater_iff m r).0 k))

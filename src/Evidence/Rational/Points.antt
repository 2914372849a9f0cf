-- ===== src/Evidence/Rational/Points.antt =====
-- `toBasisPoints` of packages/evidence/src/rational.ts floors, and depends on the ratio's value
-- alone.
use native.Mathlib.Nat.{
  mul-le-mul_right, mul-lt-mul_of_pos_right, le_of_mul-le-mul_right, lt_of_mul-lt-mul_right,
}
use tr4ce_app.Prelude.{
  ℕ, ◌<◌, ◌≡◌, ◌≢◌, inl, inr, refl, arith, subst, Result, ok, err, Returns, Bool-cases, ◌||◌, true,
  false,
}
use tr4ce_app.Prelude.Int.{ℤ, pos, negsuc, ◌+ℤ◌, ◌*ℤ◌, ◌≤ℤ◌, ◌<ℤ◌, ltb_ℤ, products, *ℤ_right_comm}
use tr4ce_app.Evidence.Failure.{Failure, out_of_range}
use tr4ce_app.Evidence.Rational.{
  Ratio, BasisPoints, floor_div, to_basis_points, max_safe_integer, min_safe_integer,
}
use tr4ce_app.Evidence.Rational.Floor.{IsFloor, floor_div-IsFloor}

module _ (a b : ℤ) (k : ℕ) where
  pub ≤ℤ_scale : a ≤ℤ b → a *ℤ pos k ≤ℤ b *ℤ pos k
  ≤ℤ_scale h = simp products (omega (arith, mul-le-mul_right k h))

  <ℤ_scale : 0 < k → a <ℤ b → a *ℤ pos k <ℤ b *ℤ pos k
  <ℤ_scale p h = simp products (omega (arith, mul-lt-mul_of_pos_right h p))

  pub ≤ℤ_unscale : 0 < k → a *ℤ pos k ≤ℤ b *ℤ pos k → a ≤ℤ b
  ≤ℤ_unscale p h = le_of_mul-le-mul_right {k = k} (omega (arith, simp products at h)) p

  pub <ℤ_unscale : a *ℤ pos k <ℤ b *ℤ pos k → a <ℤ b
  <ℤ_unscale h = lt_of_mul-lt-mul_right k (omega (arith, simp products at h))

-- Two fractions of one value have the same floor.
pub IsFloor-rescale :
    (n n' q : ℤ) (m m' : ℕ)
    → 0 < m
    → 0 < m'
    → n *ℤ pos m' ≡ n' *ℤ pos m
    → IsFloor n (pos m) q
    → IsFloor n' (pos m') q
IsFloor-rescale n n' q m m' p p' e (low, high) = (
  ≤ℤ_unscale (q *ℤ pos m') n' m p (
      subst (λ t. t ≤ℤ n' *ℤ pos m) (*ℤ_right_comm q (pos m) (pos m'))
        (subst (λ t. q *ℤ pos m *ℤ pos m' ≤ℤ t) e (≤ℤ_scale (q *ℤ pos m) n m' low))),
  <ℤ_unscale n' ((q +ℤ pos 1) *ℤ pos m') m (
      subst (λ t. n' *ℤ pos m <ℤ t) (*ℤ_right_comm (q +ℤ pos 1) (pos m) (pos m'))
        (subst (λ t. t <ℤ (q +ℤ pos 1) *ℤ pos m *ℤ pos m') e
          (<ℤ_scale n ((q +ℤ pos 1) *ℤ pos m) m' p' high))),
)

abbrev pub IsSafe : ℤ → Type 0
IsSafe q = (min_safe_integer ≤ℤ q) × (q ≤ℤ max_safe_integer)

-- What the conversion answers for the floor `q`: `q` where a number represents it exactly, else the
-- range error.
abbrev pub IsPoints : Ratio → ℤ → Result Failure BasisPoints → Type 0
IsPoints r q (ok b) =
    IsSafe q × (b.value ≡ q) × (b.numerator ≡ r.numerator) × (b.denominator ≡ r.denominator)
IsPoints r q (err e) = (e ≡ out_of_range) × ¬ IsSafe q

safe : (q : ℤ) → (ltb_ℤ max_safe_integer q || ltb_ℤ q min_safe_integer) ≡ false → IsSafe q
safe (pos n) h = ground arith
safe (negsuc n) h = ground arith

unsafe : (q : ℤ) → (ltb_ℤ max_safe_integer q || ltb_ℤ q min_safe_integer) ≡ true → ¬ IsSafe q
unsafe (pos n) h s = ground arith
unsafe (negsuc n) h s = ground arith

-- A ratio over a denominator that is not zero: the answer is the floor of 10000 times the ratio, or
-- the range error where that floor lies outside the safe integers.
pub to_basis_points-IsPoints :
    (r : Ratio)
    → r.denominator ≢ pos 0
    → (q : ℤ) × IsFloor (r.numerator *ℤ pos 10000) r.denominator q
      × IsPoints r q (to_basis_points r)
unfolding to_basis_points
to_basis_points-IsPoints r h =
    answer (floor_div (r.numerator *ℤ pos 10000) r.denominator) refl
      (floor_div-IsFloor (r.numerator *ℤ pos 10000) r.denominator h)
  where
    answer :
        (d : Result Failure ℤ)
        → floor_div (r.numerator *ℤ pos 10000) r.denominator ≡ d
        → Returns (IsFloor (r.numerator *ℤ pos 10000) r.denominator) d
        → (q : ℤ) × IsFloor (r.numerator *ℤ pos 10000) r.denominator q
          × IsPoints r q (to_basis_points r)
    answer (ok q) e f = (
      q,
      f,
      elim (Bool-cases (ltb_ℤ max_safe_integer q || ltb_ℤ q min_safe_integer)) [
        | inl out ↦ rw (e, out) (refl, λ safe. unsafe q out safe)
        | inr within ↦ rw (e, within) (safe q within, refl, refl, refl)
      ],
    )
    answer (err x) e f = absurd f

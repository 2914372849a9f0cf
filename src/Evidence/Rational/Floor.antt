-- ===== src/Evidence/Rational/Floor.antt =====
-- `floorDiv` of packages/evidence/src/rational.ts rounds toward negative infinity.
use tr4ce_app.Prelude.{
  ℕ, zero, suc, ◌+◌, ◌*◌, ◌/◌, ◌≤◌, ◌<◌, ◌≡◌, ◌≢◌, refl, arith, Returns, Bool, true, false, not,
  ◌&&◌, if◌then◌else◌, ◌⊎◌, inl, inr, ◌%◌, subst, sym,
}
use tr4ce_app.Prelude.Int.{
  ℤ, pos, negsuc, neg_ℕ, ◌+ℤ◌, ◌*ℤ◌, ◌≤ℤ◌, ◌<ℤ◌, pos_part, neg_part, +ℤ_parts, products, suc-*ℤ,
  ◌-ℤ◌, eqb_ℤ, neg_ℕ_pred, nat_abs, nat_abs-neg_ℕ, pos_part-neg_ℕ, neg_part-neg_ℕ, eqb_ℤ_of_ne,
}
use tr4ce_app.Evidence.Rational.{floor_quotient, floor_div}

-- `q` is the floor of `n / d`, stated by products. The order turns round with the sign of `d`.
abbrev pub IsFloor : ℤ → ℤ → ℤ → Type 0
IsFloor n (pos m) q = (q *ℤ pos m ≤ℤ n) × (n <ℤ (q +ℤ pos 1) *ℤ pos m)
IsFloor n (negsuc m) q = (n ≤ℤ q *ℤ negsuc m) × ((q +ℤ pos 1) *ℤ negsuc m <ℤ n)

IsFloor-of_parts :
    (n q : ℤ) (m : ℕ)
    → pos_part q * m + neg_part n ≤ pos_part n + neg_part q * m
    → pos_part n + neg_part q * m < neg_part n + pos_part q * m + m
    → IsFloor n (pos m) q
IsFloor-of_parts n q m low high = (
  simp products (omega arith),
  rw suc-*ℤ (omega (arith, simp products at (+ℤ_parts (q *ℤ pos m) (pos m)))),
)

IsFloor-of_parts_neg :
    (n q : ℤ) (m : ℕ)
    → pos_part n + pos_part q * suc m ≤ neg_part n + neg_part q * suc m
    → neg_part n + neg_part q * suc m < pos_part n + pos_part q * suc m + suc m
    → IsFloor n (negsuc m) q
IsFloor-of_parts_neg n q m low high = (
  simp products (omega arith),
  rw suc-*ℤ (omega (arith, simp products at (+ℤ_parts (q *ℤ negsuc m) (negsuc m)))),
)

-- Where the signs agree the quotient stands; where they differ it stands only if it is exact.
signs_agree : (exact : Bool) (q : ℤ) → (if not exact && false then q -ℤ pos 1 else q) ≡ q
signs_agree true q = refl
signs_agree false q = refl

signs_differ :
    (x : ℤ) (k : ℕ)
    → ((nat_abs x ≡ 0)
        × ((if not (eqb_ℤ x (pos 0)) && true then neg_ℕ k -ℤ pos 1 else neg_ℕ k) ≡ neg_ℕ k))
      ⊎ ((0 < nat_abs x)
          × ((if not (eqb_ℤ x (pos 0)) && true then neg_ℕ k -ℤ pos 1 else neg_ℕ k) ≡ negsuc k))
signs_differ (pos zero) k = inl (refl, refl)
signs_differ (pos (suc r)) k =
    inr (omega arith, rw (eqb_ℤ_of_ne {a = pos (suc r)} {b = pos 0} (λ e. cc)) (neg_ℕ_pred k))
signs_differ (negsuc r) k =
    inr (omega arith, rw (eqb_ℤ_of_ne {a = negsuc r} {b = pos 0} (λ e. cc)) (neg_ℕ_pred k))

ruleset signs = (pos_part-neg_ℕ, neg_part-neg_ℕ)

ruleset parts = (arith, pos_part-neg_ℕ, neg_part-neg_ℕ, nat_abs-neg_ℕ)

floor_quotient-IsFloor : (n d : ℤ) → d ≢ pos 0 → IsFloor n d (floor_quotient n d)
unfolding floor_quotient
floor_quotient-IsFloor (pos n) (pos zero) h = absurd (h refl)
floor_quotient-IsFloor (negsuc n) (pos zero) h = absurd (h refl)
floor_quotient-IsFloor (pos n) (pos (suc m)) h =
    subst (IsFloor (pos n) (pos (suc m))) (sym (signs_agree _ (pos (n / suc m))))
      (IsFloor-of_parts (pos n) (pos (n / suc m)) (suc m) (omega arith) (omega arith))
floor_quotient-IsFloor (negsuc n) (pos (suc m)) h =
    elim (signs_differ (neg_ℕ (suc n % suc m)) (suc n / suc m)) [
      | inl (exact, e) ↦ subst (IsFloor (negsuc n) (pos (suc m))) (sym e) (
          IsFloor-of_parts (negsuc n) (neg_ℕ (suc n / suc m)) (suc m) (simp signs (omega parts))
            (simp signs (omega parts)))
      | inr (inexact, e) ↦
          subst (IsFloor (negsuc n) (pos (suc m))) (sym e) (
            IsFloor-of_parts (negsuc n) (negsuc (suc n / suc m)) (suc m) (omega parts)
              (omega parts))
    ]
floor_quotient-IsFloor (pos n) (negsuc m) h = elim (signs_differ (pos (n % suc m)) (n / suc m)) [
  | inl (exact, e) ↦ subst (IsFloor (pos n) (negsuc m)) (sym e) (
      IsFloor-of_parts_neg (pos n) (neg_ℕ (n / suc m)) m (simp signs (omega parts))
        (simp signs (omega parts)))
  | inr (inexact, e) ↦
      subst (IsFloor (pos n) (negsuc m)) (sym e)
        (IsFloor-of_parts_neg (pos n) (negsuc (n / suc m)) m (omega parts) (omega parts))
]
floor_quotient-IsFloor (negsuc n) (negsuc m) h =
    subst (IsFloor (negsuc n) (negsuc m)) (sym (signs_agree _ (pos (suc n / suc m))))
      (IsFloor-of_parts_neg (negsuc n) (pos (suc n / suc m)) m (omega arith) (omega arith))

-- Division by a divisor that is not zero returns, and what it returns is the floor of the exact
-- quotient, for each of the four combinations of signs.
pub floor_div-IsFloor : (n d : ℤ) → d ≢ pos 0 → Returns (IsFloor n d) (floor_div n d)
unfolding floor_div
floor_div-IsFloor n d h = rw (eqb_ℤ_of_ne h) (floor_quotient-IsFloor n d h)

-- ===== src/Evidence/Rational/Lowest.antt =====
-- `reduce` of packages/evidence/src/rational.ts gives lowest terms with a positive denominator.
use Prim.Native.Nat.{◌∣◌}
use native.Mathlib.Decide.{dec_lt}
use mathlib.Core.Path.{◌≡⟨◌⟩◌, ◌∎}
use native.Mathlib.Nat.{div-mul_cancel}
use tr4ce_app.Prelude.{ℕ, zero, suc, ◌*◌, ◌/◌, ◌<◌, ◌≡◌, ◌≢◌, refl, ap, sym, ◌∙◌, arith, Returns}
use tr4ce_app.Prelude.Int.{
  ℤ, pos, negsuc, nat_abs, pos_part, ◌*ℤ◌, ◌<ℤ◌, tdiv, eqb_ℤ_of_ne, *ℤ-pos_cancel, *ℤ_right_comm,
  *ℤ_assoc, *ℤ_comm, products, eq_of_parts, nat_abs-neg_ℕ, pos_part-neg_ℕ, neg_part-neg_ℕ,
}
use tr4ce_app.Evidence.Rational.{Ratio, gcd, sign_of, reduce}
use tr4ce_app.Evidence.Rational.Gcd.{gcd-dvd, gcd_pos, quotients_coprime}

-- `r` is `n / d` in lowest terms, with the sign on the numerator.
pub record IsLowest (n d : ℤ) (r : Ratio) : Type 0 where
  pub positive : pos 0 <ℤ r.denominator
  pub same_value : r.numerator *ℤ d ≡ n *ℤ r.denominator
  pub coprime : (k : ℕ) → k ∣ nat_abs r.numerator → k ∣ nat_abs r.denominator → k ≡ 1

nat_abs-tdiv : (x : ℤ) (g : ℕ) → nat_abs (tdiv x (pos g)) ≡ nat_abs x / g
unfolding tdiv
nat_abs-tdiv (pos n) g = refl
nat_abs-tdiv (negsuc n) g = nat_abs-neg_ℕ (suc n / g)

tdiv-*ℤ : (x : ℤ) (g : ℕ) → g ∣ nat_abs x → tdiv x (pos g) *ℤ pos g ≡ x
unfolding tdiv
tdiv-*ℤ (pos n) g h = eq_of_parts _ _ (simp products (omega (arith, div-mul_cancel g h)))
tdiv-*ℤ (negsuc n) g h =
    eq_of_parts _ _
      (simp products (simp (pos_part-neg_ℕ, neg_part-neg_ℕ) (omega (arith, div-mul_cancel g h))))

*ℤ-sign : (d : ℤ) → d *ℤ sign_of d ≡ pos (nat_abs d)
unfolding ◌*ℤ◌
*ℤ-sign (pos n) = ground arith
*ℤ-sign (negsuc n) = ground arith

nat_abs_pos : (d : ℤ) → d ≢ pos 0 → 0 < nat_abs d
nat_abs_pos (pos zero) h = absurd (h refl)
nat_abs_pos (pos (suc n)) h = omega arith
nat_abs_pos (negsuc n) h = omega arith

quotient_pos : (b g : ℕ) → 0 < b → g ∣ b → pos 0 <ℤ pos (b / g)
quotient_pos b g h d = elim (dec_lt 0 (b / g)) [
  | yes p ↦ omega arith
  | no p ↦
      let q : b / g ≡ 0 = omega arith in
      absurd (omega (arith, div-mul_cancel g d, ap (λ (t : ℕ). t * g) q))
]

-- The quotients of both parts by their greatest common divisor, for a denominator made positive.
module _ (n d : ℤ) (b : ℕ) (e : d *ℤ sign_of d ≡ pos b) (h : 0 < b) where
  x : ℤ
  x = n *ℤ sign_of d

  g : ℕ
  g = gcd x (pos b)

  g_pos : 0 < g
  unfolding g
  g_pos = gcd_pos x (pos b) h

  x-*ℤ : x *ℤ d ≡ n *ℤ pos b
  unfolding x
  x-*ℤ = *ℤ_assoc n (sign_of d) d ∙ ap (λ t. n *ℤ t) (*ℤ_comm (sign_of d) d ∙ e)

  denominator_pos : pos 0 <ℤ tdiv (pos b) (pos g)
  unfolding g tdiv
  denominator_pos = quotient_pos b g h (gcd-dvd x (pos b)).1

  same_value_scaled : tdiv x (pos g) *ℤ d *ℤ pos g ≡ n *ℤ tdiv (pos b) (pos g) *ℤ pos g
  unfolding g
  same_value_scaled =
      tdiv x (pos g) *ℤ d *ℤ pos g
      ≡⟨ *ℤ_right_comm (tdiv x (pos g)) d (pos g) ⟩ tdiv x (pos g) *ℤ pos g *ℤ d
      ≡⟨ ap (λ t. t *ℤ d) (tdiv-*ℤ x g (gcd-dvd x (pos b)).0) ⟩ x *ℤ d
      ≡⟨ x-*ℤ ⟩ n *ℤ pos b
      ≡⟨ ap (λ t. n *ℤ t) (sym (tdiv-*ℤ (pos b) g (gcd-dvd x (pos b)).1)) ⟩
        n *ℤ (tdiv (pos b) (pos g) *ℤ pos g)
      ≡⟨ sym (*ℤ_assoc n (tdiv (pos b) (pos g)) (pos g)) ⟩ n *ℤ tdiv (pos b) (pos g) *ℤ pos g ∎

  divided-IsLowest :
      IsLowest n d (record { numerator = tdiv x (pos g); denominator = tdiv (pos b) (pos g) })
  unfolding g
  divided-IsLowest = record {
    positive = denominator_pos;
    same_value = *ℤ-pos_cancel _ _ g g_pos same_value_scaled;
    coprime =
        λ k p q. quotients_coprime k x (pos b) h (rw nat_abs-tdiv at p) (rw nat_abs-tdiv at q);
  }

-- A denominator that is not zero is accepted, and the result has the same value, a positive
-- denominator, and no common divisor but 1.
pub reduce-IsLowest : (n d : ℤ) → d ≢ pos 0 → Returns (IsLowest n d) (reduce n d)
unfolding reduce x g
reduce-IsLowest n d h =
    rw (eqb_ℤ_of_ne h, *ℤ-sign d, eqb_ℤ_of_ne divisor_ne)
      (divided-IsLowest n d (nat_abs d) (*ℤ-sign d) (nat_abs_pos d h))
  where
    divisor_ne : pos (gcd (n *ℤ sign_of d) (pos (nat_abs d))) ≢ pos 0
    divisor_ne z =
        absurd (omega (arith, ap pos_part z, g_pos n d (nat_abs d) (*ℤ-sign d) (nat_abs_pos d h)))

-- ===== src/Evidence/Rational/Gcd.antt =====
-- The loop of `gcd` in packages/evidence/src/rational.ts computes the greatest common divisor.
use Prim.Native.Nat.{◌∣◌}
use mathlib.Core.WellFounded.{Acc}
use native.Mathlib.Nat.{
  dvd_refl, dvd-zero, dvd-mod_iff, pos_of_dvd_of_pos, mul-dvd-mul_right, div-mul_cancel,
  dvd_of_mul-dvd-mul_right, eq-one_of_dvd-one, one-mul,
}
use tr4ce_app.Prelude.{ℕ, zero, suc, ◌*◌, ◌/◌, ◌%◌, ◌<◌, ◌≡◌, subst}
use tr4ce_app.Prelude.Int.{ℤ, nat_abs}
use tr4ce_app.Evidence.Rational.{gcd_loop, gcd, below, mod-lt-suc}

gcd_loop-dvd : (a b : ℕ) (w : Acc ◌<◌ b) → (gcd_loop a b w ∣ a) × (gcd_loop a b w ∣ b)
unfolding gcd_loop
gcd_loop-dvd a zero (Acc.intro _ smaller) = (dvd_refl a, dvd-zero a)
gcd_loop-dvd a (suc b) (Acc.intro _ smaller) =
    let (divisor, remainder) = gcd_loop-dvd (suc b) (a % suc b) (smaller _ (mod-lt-suc a b)) in
    ((dvd-mod_iff _ divisor).0 remainder, divisor)

dvd-gcd_loop : (k a b : ℕ) (w : Acc ◌<◌ b) → k ∣ a → k ∣ b → k ∣ gcd_loop a b w
unfolding gcd_loop
dvd-gcd_loop k a zero (Acc.intro _ smaller) p q = p
dvd-gcd_loop k a (suc b) (Acc.intro _ smaller) p q =
    dvd-gcd_loop k (suc b) (a % suc b) (smaller _ (mod-lt-suc a b)) q ((dvd-mod_iff k q).1 p)

-- The result divides both arguments.
pub gcd-dvd : (x y : ℤ) → (gcd x y ∣ nat_abs x) × (gcd x y ∣ nat_abs y)
unfolding gcd
gcd-dvd x y = gcd_loop-dvd (nat_abs x) (nat_abs y) (below (nat_abs y))

-- Every common divisor divides the result.
pub dvd-gcd : (k : ℕ) (x y : ℤ) → k ∣ nat_abs x → k ∣ nat_abs y → k ∣ gcd x y
unfolding gcd
dvd-gcd k x y = dvd-gcd_loop k (nat_abs x) (nat_abs y) (below (nat_abs y))

pub gcd_pos : (x y : ℤ) → 0 < nat_abs y → 0 < gcd x y
gcd_pos x y h = pos_of_dvd_of_pos (gcd-dvd x y).1 h

-- What is left of both arguments after division by the result has no common divisor but 1.
pub quotients_coprime :
    (k : ℕ) (x y : ℤ) → 0 < nat_abs y → k ∣ nat_abs x / gcd x y → k ∣ nat_abs y / gcd x y → k ≡ 1
quotients_coprime k x y h p q =
    eq-one_of_dvd-one (dvd_of_mul-dvd-mul_right k (gcd_pos x y h) scaled)
  where
    up : (n : ℕ) → gcd x y ∣ n → k ∣ n / gcd x y → k * gcd x y ∣ n
    up n d e = subst (◌∣◌ (k * gcd x y)) (div-mul_cancel _ d) (mul-dvd-mul_right k e (gcd x y))

    common : k * gcd x y ∣ gcd x y
    common = dvd-gcd _ x y (up _ (gcd-dvd x y).0 p) (up _ (gcd-dvd x y).1 q)

    scaled : k * gcd x y ∣ 1 * gcd x y
    scaled = rw one-mul common

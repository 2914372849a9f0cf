-- ===== src/Prelude/Int.antt =====
-- The integers of `bigint`, over the native numbers: sums, products, orders, and the division and
-- remainder of the language, which round towards zero.
use Prim.Native.Nat.{ℕ, zero, suc, ◌+◌, ◌-◌, ◌*◌, ◌/◌, ◌%◌, ◌≤◌, ◌<◌}
use mathlib.Core.Path.{◌≡◌, refl, ap}
use mathlib.Core.Logic.{◌↔◌, ◌≢◌}
use mathlib.Core.Bool.{Bool, true, false}
use native.Mathlib.Omega.{arith}
use native.Mathlib.Nat.{eq_of_mul-eq-mul_right}
use tr4ce_app.Prelude.Tests.{ltb, leb, ◌==◌, if◌then◌else◌}

-- `negsuc n` is -(n + 1).
pub data ℤ : Type 0 where
  pos : ℕ → ℤ
  negsuc : ℕ → ℤ

abbrev pub pos_part : ℤ → ℕ
pos_part (pos n) = n
pos_part (negsuc n) = 0

abbrev pub neg_part : ℤ → ℕ
neg_part (pos n) = 0
neg_part (negsuc n) = suc n

abbrev pub nat_abs : ℤ → ℕ
nat_abs (pos n) = n
nat_abs (negsuc n) = suc n

-- a - b, as an integer.
abbrev pub sub_ℕ : ℕ → ℕ → ℤ
sub_ℕ a b = if leb b a then pos (a - b) else negsuc (b - a - 1)

-- -n, as an integer.
abbrev pub neg_ℕ : ℕ → ℤ
neg_ℕ zero = pos 0
neg_ℕ (suc n) = negsuc n

infixl 65 ◌+ℤ◌ ◌-ℤ◌
infixl 70 ◌*ℤ◌
infix 50 ◌≤ℤ◌ ◌<ℤ◌
unfoldable pub ◌+ℤ◌ : ℤ → ℤ → ℤ
a +ℤ b = sub_ℕ (pos_part a + pos_part b) (neg_part a + neg_part b)

unfoldable pub ◌-ℤ◌ : ℤ → ℤ → ℤ
a -ℤ b = sub_ℕ (pos_part a + neg_part b) (neg_part a + pos_part b)

unfoldable pub ◌*ℤ◌ : ℤ → ℤ → ℤ
pos m *ℤ pos n = pos (m * n)
pos m *ℤ negsuc n = neg_ℕ (m * suc n)
negsuc m *ℤ pos n = neg_ℕ (suc m * n)
negsuc m *ℤ negsuc n = pos (suc m * suc n)

abbrev pub ◌≤ℤ◌ : ℤ → ℤ → Type 0
a ≤ℤ b = pos_part a + neg_part b ≤ pos_part b + neg_part a

abbrev pub ◌<ℤ◌ : ℤ → ℤ → Type 0
a <ℤ b = pos_part a + neg_part b < pos_part b + neg_part a

abbrev pub ltb_ℤ : ℤ → ℤ → Bool
ltb_ℤ a b = ltb (pos_part a + neg_part b) (pos_part b + neg_part a)

abbrev pub leb_ℤ : ℤ → ℤ → Bool
leb_ℤ a b = leb (pos_part a + neg_part b) (pos_part b + neg_part a)

abbrev pub eqb_ℤ : ℤ → ℤ → Bool
eqb_ℤ a b = pos_part a + neg_part b == pos_part b + neg_part a

abbrev pub is_negative : ℤ → Bool
is_negative (pos n) = false
is_negative (negsuc n) = true

-- `a / b`, for b that is not zero.
unfoldable pub tdiv : ℤ → ℤ → ℤ
tdiv (pos n) (pos m) = pos (n / m)
tdiv (pos n) (negsuc m) = neg_ℕ (n / suc m)
tdiv (negsuc n) (pos m) = neg_ℕ (suc n / m)
tdiv (negsuc n) (negsuc m) = pos (suc n / suc m)

-- `a % b`, for b that is not zero: it has the sign of a.
unfoldable pub tmod : ℤ → ℤ → ℤ
tmod (pos n) b = pos (n % nat_abs b)
tmod (negsuc n) b = neg_ℕ (suc n % nat_abs b)

pub ℤ-discrete : Discrete ℤ
ℤ-discrete = hlevel native.Mathlib.Decide.ℕ_discrete

pub eq_of_parts : (a b : ℤ) → pos_part a + neg_part b ≡ pos_part b + neg_part a → a ≡ b
eq_of_parts a b h = ground arith

pub eqb_ℤ_iff : (a b : ℤ) → (eqb_ℤ a b ≡ true) ↔ (a ≡ b)
eqb_ℤ_iff a b = ground arith

pub eqb_ℤ_of_ne : {a b : ℤ} → a ≢ b → eqb_ℤ a b ≡ false
eqb_ℤ_of_ne {a} {b} h = ground (arith, eqb_ℤ_iff a b)

pub +ℤ_parts :
    (a b : ℤ)
    → pos_part (a +ℤ b) + neg_part a + neg_part b ≡ neg_part (a +ℤ b) + pos_part a + pos_part b
unfolding ◌+ℤ◌
+ℤ_parts a b = ground arith

pub -ℤ_parts :
    (a b : ℤ)
    → pos_part (a -ℤ b) + neg_part a + pos_part b ≡ neg_part (a -ℤ b) + pos_part a + neg_part b
unfolding ◌-ℤ◌
-ℤ_parts a b = ground arith

pub pos_part-*ℤ : (a b : ℤ) → pos_part (a *ℤ b) ≡ pos_part a * pos_part b + neg_part a * neg_part b
unfolding ◌*ℤ◌
pos_part-*ℤ a b = ground arith

pub neg_part-*ℤ : (a b : ℤ) → neg_part (a *ℤ b) ≡ pos_part a * neg_part b + neg_part a * pos_part b
unfolding ◌*ℤ◌
neg_part-*ℤ a b = ground arith

pub ruleset sums = (arith, +ℤ_parts, -ℤ_parts, eq_of_parts)

pub ruleset products = (pos_part-*ℤ, neg_part-*ℤ)

pub +ℤ_comm : (a b : ℤ) → a +ℤ b ≡ b +ℤ a
+ℤ_comm a b = omega sums

pub +ℤ_assoc : (a b c : ℤ) → a +ℤ b +ℤ c ≡ a +ℤ (b +ℤ c)
+ℤ_assoc a b c = omega sums

pub *ℤ_assoc : (a b c : ℤ) → a *ℤ b *ℤ c ≡ a *ℤ (b *ℤ c)
*ℤ_assoc a b c = eq_of_parts _ _ (simp products (omega arith))

pub *ℤ_comm : (a b : ℤ) → a *ℤ b ≡ b *ℤ a
*ℤ_comm a b = eq_of_parts _ _ (simp products (omega arith))

pub *ℤ_right_comm : (a b c : ℤ) → a *ℤ b *ℤ c ≡ a *ℤ c *ℤ b
*ℤ_right_comm a b c = eq_of_parts _ _ (simp products (omega arith))

pub *ℤ-pos_cancel : (a b : ℤ) (n : ℕ) → 0 < n → a *ℤ pos n ≡ b *ℤ pos n → a ≡ b
*ℤ-pos_cancel a b n h e = eq_of_parts a b (eq_of_mul-eq-mul_right n h _ _ scaled)
  where
    scaled : (pos_part a + neg_part b) * n ≡ (pos_part b + neg_part a) * n
    scaled = omega (arith, products, ap pos_part e, ap neg_part e)

pub suc-*ℤ : (q d : ℤ) → (q +ℤ pos 1) *ℤ d ≡ q *ℤ d +ℤ d
suc-*ℤ q d = eq_of_parts _ _ (
    simp products (
      omega (
        arith,
        simp products at (+ℤ_parts (q *ℤ d) d),
        ap (λ (t : ℕ). t * pos_part d) (+ℤ_parts q (pos 1)),
        ap (λ (t : ℕ). t * neg_part d) (+ℤ_parts q (pos 1)),
      )))

pub pos_part-neg_ℕ : (k : ℕ) → pos_part (neg_ℕ k) ≡ 0
pos_part-neg_ℕ zero = refl
pos_part-neg_ℕ (suc k) = refl

pub neg_part-neg_ℕ : (k : ℕ) → neg_part (neg_ℕ k) ≡ k
neg_part-neg_ℕ zero = refl
neg_part-neg_ℕ (suc k) = refl

pub nat_abs-neg_ℕ : (k : ℕ) → nat_abs (neg_ℕ k) ≡ k
nat_abs-neg_ℕ zero = refl
nat_abs-neg_ℕ (suc k) = refl

pub neg_ℕ_pred : (k : ℕ) → neg_ℕ k -ℤ pos 1 ≡ negsuc k
neg_ℕ_pred k = omega (sums, pos_part-neg_ℕ, neg_part-neg_ℕ)

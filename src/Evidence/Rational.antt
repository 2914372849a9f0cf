-- ===== src/Evidence/Rational.antt =====
-- packages/evidence/src/rational.ts: reduced ratios over `bigint`, floor division, basis points.
-- The loop of `gcd` recurs on the accessibility of its second variable.
pub mod Gcd
pub mod Lowest
pub mod Floor
pub mod Points
pub mod Order
use mathlib.Core.WellFounded.{Acc}
use native.Mathlib.Nat.{mod-lt}
use tr4ce_app.Prelude.{
  ℕ, zero, suc, ◌+◌, ◌-◌, ◌%◌, ◌<◌, ◌≡◌, Bool, true, false, ◌&&◌, ◌||◌, not, arith, leb,
  if◌then◌else◌, Result, ok, err, ◌>>=◌, ◌>>◌, throw_if,
}
use tr4ce_app.Prelude.Int.{
  ℤ, pos, negsuc, nat_abs, neg_ℕ, is_negative, ltb_ℤ, eqb_ℤ, ◌-ℤ◌, ◌*ℤ◌, tdiv, tmod,
}
use tr4ce_app.Evidence.Failure.{Failure, zero_denominator, division_by_zero, out_of_range}

acc_below : (k n : ℕ) → n < k → Acc ◌<◌ n
acc_below zero n h = absurd (omega arith)
acc_below (suc k) n h = Acc.intro n (λ m hm. acc_below k m (omega arith))

pub below : (n : ℕ) → Acc ◌<◌ n
unfolding acc_below
below n = acc_below (suc n) n (omega arith)

pub mod-lt-suc : (a b : ℕ) → a % suc b < suc b
mod-lt-suc a b = omega arith

-- `while (b !== 0n) [a, b] = [b, a % b]`
pub gcd_loop : (a b : ℕ) → Acc ◌<◌ b → ℕ
gcd_loop a zero (Acc.intro _ smaller) = a
gcd_loop a (suc b) (Acc.intro _ smaller) =
    gcd_loop (suc b) (a % suc b) (smaller (a % suc b) (mod-lt-suc a b))

-- Both variables of the loop are made non-negative first.
unfoldable pub gcd : ℤ → ℤ → ℕ
unfolding gcd_loop below acc_below
gcd left right = gcd_loop (nat_abs left) (nat_abs right) (below (nat_abs right))

pub record Ratio : Type 0 where
  pub numerator : ℤ
  pub denominator : ℤ

abbrev pub sign_of : ℤ → ℤ
sign_of d = if is_negative d then negsuc 0 else pos 1

unfoldable pub reduce : ℤ → ℤ → Result Failure Ratio
unfolding gcd tdiv ◌*ℤ◌
reduce numerator denominator = do
  throw_if (eqb_ℤ denominator (pos 0)) zero_denominator
  let sign = sign_of denominator
  let signed_numerator = numerator *ℤ sign
  let positive_denominator = denominator *ℤ sign
  let divisor = pos (gcd signed_numerator positive_denominator)
  ok (
      if eqb_ℤ divisor (pos 0) then record { numerator = pos 0; denominator = pos 1 } else record {
        numerator = tdiv signed_numerator divisor;
        denominator = tdiv positive_denominator divisor;
      })

-- The sign of the cross difference: -1, 0 or 1.
unfoldable pub compare : Ratio → Ratio → ℤ
compare left right =
    let difference = left.numerator *ℤ right.denominator -ℤ right.numerator *ℤ left.denominator in
    if ltb_ℤ difference (pos 0) then negsuc 0 else if ltb_ℤ (pos 0) difference then pos 1 else pos 0

abbrev differ : Bool → Bool → Bool
differ true b = not b
differ false b = b

-- The quotient rounds towards zero, which is one too many where it is negative and inexact.
unfoldable pub floor_quotient : ℤ → ℤ → ℤ
unfolding tdiv tmod ◌-ℤ◌
floor_quotient numerator denominator =
    let quotient = tdiv numerator denominator in
    let inexact = not (eqb_ℤ (tmod numerator denominator) (pos 0)) in
    let rounded_up = inexact && differ (is_negative numerator) (is_negative denominator) in
    if rounded_up then quotient -ℤ pos 1 else quotient

-- Integer division rounding toward negative infinity.
unfoldable pub floor_div : ℤ → ℤ → Result Failure ℤ
unfolding floor_quotient
floor_div numerator denominator = do
  throw_if (eqb_ℤ denominator (pos 0)) division_by_zero
  ok (floor_quotient numerator denominator)

abbrev pub basis_points_scale : ℤ
basis_points_scale = pos 10000

-- `Number.MAX_SAFE_INTEGER`
abbrev pub max_safe_integer : ℤ
max_safe_integer = pos 9007199254740991

-- `Number.MIN_SAFE_INTEGER`, -9007199254740991
abbrev pub min_safe_integer : ℤ
min_safe_integer = negsuc 9007199254740990

pub data Rounding : Type 0 where
  floor : Rounding

pub record BasisPoints : Type 0 where
  pub numerator : ℤ
  pub denominator : ℤ
  pub rounding : Rounding
  pub value : ℤ

unfoldable pub to_basis_points : Ratio → Result Failure BasisPoints
unfolding ◌*ℤ◌
to_basis_points ratio = do
  scaled ← floor_div (ratio.numerator *ℤ basis_points_scale) ratio.denominator
  throw_if (ltb_ℤ max_safe_integer scaled || ltb_ℤ scaled min_safe_integer) out_of_range
  ok (record {
    numerator = ratio.numerator;
    denominator = ratio.denominator;
    rounding = floor;
    value = scaled;
  })

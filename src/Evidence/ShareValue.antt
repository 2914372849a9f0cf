-- ===== src/Evidence/ShareValue.antt =====
-- packages/evidence/src/share-value.ts: the observed change of what one share converts to.
pub mod Return
use tr4ce_app.Prelude.{
  Bool, true, false, Option, none, some, Result, ok, err, ◌>>=◌, ◌>>◌, throw_if, if◌then◌else◌,
}
use tr4ce_app.Prelude.Int.{ℤ, pos, eqb_ℤ, ◌-ℤ◌}
use tr4ce_app.Domain.{ReasonCode, missing_observation, ambiguous_capability}
use tr4ce_app.Evidence.Failure.{Failure, zero_denominator}
use tr4ce_app.Evidence.Rational.{BasisPoints, reduce, to_basis_points}

-- Why a return could not be produced.
pub data ShareValueFailure : Type 0 where
  missing_start missing_end unusable_start : ReasonCode → ShareValueFailure

pub data ShareValueResult : Type 0 where
  observed : BasisPoints → ShareValueResult
  unavailable : ShareValueFailure → ShareValueResult

abbrev pub failure_code : ShareValueFailure → ReasonCode
failure_code (missing_start c) = c
failure_code (missing_end c) = c
failure_code (unusable_start c) = c

pub record ObservedReturn : Type 0 where
  pub numerator : ℤ
  pub denominator : ℤ
  pub bps : ℤ

unfoldable pub observed_share_value_return : ℤ → ℤ → Result Failure ObservedReturn
observed_share_value_return start_assets end_assets = do
  throw_if (eqb_ℤ start_assets (pos 0)) zero_denominator
  ratio ← reduce (end_assets -ℤ start_assets) start_assets
  basis_points ← to_basis_points ratio
  ok (record {
    numerator = basis_points.numerator;
    denominator = basis_points.denominator;
    bps = basis_points.value;
  })

-- The entry with nullable amounts: an absent or unusable one has a reason code, never a number.
unfoldable pub observe_share_value : Option ℤ → Option ℤ → Result Failure ShareValueResult
observe_share_value start none = ok (unavailable (missing_end missing_observation))
observe_share_value none (some end) = ok (unavailable (missing_start missing_observation))
observe_share_value (some start) (some end) =
    if eqb_ℤ start (pos 0) then ok (unavailable (unusable_start ambiguous_capability)) else do
      ratio ← reduce (end -ℤ start) start
      basis_points ← to_basis_points ratio
      ok (observed basis_points)

-- ===== src/Evidence/Report/Observed.antt =====
-- The observations behind the share value of `buildEvidence` in packages/evidence/src/report.ts.
use tr4ce_app.Prelude.{
  ◌≡◌, refl, sym, ap, ◌∙◌, Bool, true, false, not, Option, none, some, List, [], ◌++◌, ok, arith,
  >>=-eq-ok, ok_inj, throw_if-ok,
}
use tr4ce_app.Prelude.Int.{ℤ}
use text.Mathlib.TextEquality.{eq_iff}
use tr4ce_app.Prelude.Int.{eqb_ℤ_iff}
use tr4ce_app.Prelude.Text.{str_eq}
use tr4ce_app.Domain.{ReasonCode, incompatible_implementation}
use tr4ce_app.Evidence.Failure.{cross_vault}
use tr4ce_app.Evidence.Rational.{BasisPoints}
use tr4ce_app.Evidence.ShareValue.{ShareValueResult, observed, unavailable, observe_share_value}
use tr4ce_app.Evidence.Input.{SnapshotObservation, EvidenceInput, ShareValue}
use tr4ce_app.Evidence.Report.{
  code_if, start_amount, check_compatibility, check_compatibility_of, share_value_of,
  share_value_result, build_share_value,
}

-- The start and the end are of one vault, measured in the same units under the same schema version.
pub record Comparable (start end : SnapshotObservation) : Type 0 where
  pub vault : start.vault_id ≡ end.vault_id
  pub units : start.one_share_units ≡ end.one_share_units
  pub schema : start.schema_version ≡ end.schema_version

-- No code is raised against a start only if it compares with the end.
pub check_compatibility-Comparable :
    (input : EvidenceInput) (start : SnapshotObservation)
    → input.start ≡ some start
    → check_compatibility input ≡ ok []
    → Comparable start input.end
unfolding check_compatibility check_compatibility_of
check_compatibility-Comparable input start present e =
    of_start (sym (ap (λ s. check_compatibility_of s input.end) present) ∙ e)
  where
    no_codes :
        (t u : Bool)
        → (code_if (not t) incompatible_implementation
            ++ code_if (not u) incompatible_implementation)
          ≡ []
        → (t ≡ true) × (u ≡ true)
    no_codes true true e = (refl, refl)
    no_codes true false e = cc
    no_codes false u e = cc

    of_start : check_compatibility_of (some start) input.end ≡ ok [] → Comparable start input.end
    of_start e =
        let (same, e1) =
          throw_if-ok (not (str_eq start.vault_id input.end.vault_id)) cross_vault _ e in
        let (units, schema) = no_codes _ _ (ok_inj e1) in
        record {
          vault = ground (arith, eq_iff start.vault_id input.end.vault_id);
          units = (eqb_ℤ_iff _ _).0 units;
          schema = ground (arith, eq_iff start.schema_version input.end.schema_version);
        }

-- A share value with the observations that it was made from.
pub record Observed (input : EvidenceInput) (v : ShareValue) : Type 0 where
  pub start : SnapshotObservation
  pub present : input.start ≡ some start
  pub at_start : start.one_share_assets ≡ some v.assets_at_start
  pub at_end : input.end.one_share_assets ≡ some v.assets_now
  pub window : v.window_days ≡ input.window_days
  pub points : BasisPoints
  pub returned : v.return_bps ≡ points.value
  pub result :
      observe_share_value (some v.assets_at_start) (some v.assets_now) ≡ ok (observed points)

pub build_share_value-Observed :
    (input : EvidenceInput) (codes : List ReasonCode) (v : ShareValue) (after : List ReasonCode)
    → build_share_value input codes ≡ ok (some v, after)
    → Observed input v
unfolding build_share_value share_value_result share_value_of
build_share_value-Observed input codes v after e =
    let (result, computed, e1) =
      >>=-eq-ok (observe_share_value (start_amount input.start) input.end.one_share_assets) _ e in
    of_result result computed e1
  where
    some_inj : {a b : ShareValue} → some a ≡ some b → a ≡ b
    some_inj e = cc

    of_values :
        (start : Option SnapshotObservation) (o t : Option ℤ) (points : BasisPoints)
        → input.start ≡ start
        → start_amount start ≡ o
        → input.end.one_share_assets ≡ t
        → observe_share_value o t ≡ ok (observed points)
        → share_value_of input o t points ≡ ok (some v)
        → Observed input v
    of_values (some start) (some a) (some b) points f g h computed given =
        let made = some_inj (ok_inj given) in
        record {
          start = start;
          present = f;
          at_start = g ∙ ap (λ x. some x.assets_at_start) made;
          at_end = h ∙ ap (λ x. some x.assets_now) made;
          window = sym (ap (λ x. x.window_days) made);
          points = points;
          returned = sym (ap (λ x. x.return_bps) made);
          result =
              ap (λ x. observe_share_value (some x.assets_at_start) (some x.assets_now)) (sym made)
              ∙ computed;
        }
    of_values none (some a) (some b) points f g h computed given = cc
    of_values start none t points f g h computed given = cc
    of_values start (some a) none points f g h computed given = cc

    of_result :
        (r : ShareValueResult)
        → observe_share_value (start_amount input.start) input.end.one_share_assets ≡ ok r
        → share_value_result input codes r ≡ ok (some v, after)
        → Observed input v
    of_result (unavailable failure) computed e = cc (ap (λ q. q.0) (ok_inj e))
    of_result (observed points) computed e =
        let (found, given, e2) =
          >>=-eq-ok
            (share_value_of input (start_amount input.start) input.end.one_share_assets points) _
            e in
        of_values input.start (start_amount input.start) input.end.one_share_assets points refl refl
          refl computed (given ∙ ap (λ q. ok q.0) (ok_inj e2))

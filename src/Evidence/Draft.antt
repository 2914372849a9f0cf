-- ===== src/Evidence/Draft.antt =====
-- `buildEvidence`, `isComplete` and `attachPolicy` of packages/evidence/src/report.ts, with the
-- measured time and the limitations that they report.
pub mod Parts
pub mod Gaps
pub mod Returned
use tr4ce_app.Prelude.{
  ℕ, ◌+◌, ◌*◌, Bool, true, false, ◌&&◌, ◌||◌, not, Option, none, some, List, [], ◌∷◌, ◌++◌, String,
  Result, ok, err, ◌>>=◌, ◌>>◌, throw_if, if◌then◌else◌, leb, ltb, is_some,
}
use tr4ce_app.Prelude.Int.{ℤ, pos, nat_abs, ◌+ℤ◌, ◌-ℤ◌}
use tr4ce_app.Prelude.Text.{◌<>◌}
use tr4ce_app.Platform.{Platform}
use tr4ce_app.Domain.{
  ReasonCode, missing_observation, incompatible_implementation, incompatible_asset, call_reverted,
  ambiguous_capability,
}
use tr4ce_app.Domain.Canonical.{derive_report_identity}
use tr4ce_app.Evidence.Failure.{Failure}
use tr4ce_app.Evidence.Rational.{floor_quotient}
use tr4ce_app.Evidence.Flows.{FlowAggregate, aggregate_flows}
use tr4ce_app.Evidence.Input.{
  SnapshotObservation, EvidenceInput, ShareValue, ProvenanceEntry, EvidenceReportDraft,
}
use tr4ce_app.Evidence.Identity.{identity_json}
use tr4ce_app.Evidence.Report.{
  includes, check_compatibility, build_share_value, read_total_assets, read_max_withdraw,
  build_provenance,
}

abbrev text_if : Bool → String → List String
text_if true s = s ∷ []
text_if false s = []

abbrev is_empty {ℓ} : {A : Type ℓ} → List A → Bool
is_empty [] = true
is_empty (_ ∷ _) = false

-- `Math.round(ms / 1000)`: the nearest second, a half rounding up.
abbrev pub rounded_seconds : ℤ → ℤ
rounded_seconds ms = floor_quotient (ms +ℤ pos 500) (pos 1000)

-- The difference of two parsed times; `none` where either is NaN.
abbrev pub seconds_between : Option ℤ → Option ℤ → Option ℤ
seconds_between (some start) (some end) = some (rounded_seconds (end -ℤ start))
seconds_between (some start) none = none
seconds_between none end = none

abbrev backward_looking_limitation : String
backward_looking_limitation =
    "Observed share-value return is backward-looking and is not a forecast."

module _ (p : Platform) where
  measure_elapsed_of : Option SnapshotObservation → SnapshotObservation → Option ℤ
  measure_elapsed_of none end = none
  measure_elapsed_of (some start) end =
      seconds_between (p.date_parse start.block_time) (p.date_parse end.block_time)

  unfoldable pub measure_elapsed : EvidenceInput → Option ℤ
  unfolding measure_elapsed_of
  measure_elapsed input = measure_elapsed_of input.start input.end

  -- `Math.abs(elapsed / 86400 - windowDays) >= 0.5`, multiplied out.
  window_limitation : ℕ → Option ℤ → List String
  window_limitation window_days none = []
  window_limitation window_days (some elapsed) =
      text_if (leb 86400 (2 * nat_abs (elapsed -ℤ pos (window_days * 86400)))) (
        "Requested window is "
        <> p.show_int (pos window_days)
        <> " days; the observations are "
        <> p.to_fixed elapsed 86400
        <> " days apart.")

  unfoldable pub build_limitations :
      EvidenceInput → List ReasonCode → FlowAggregate → Option ℤ → List String
  unfolding window_limitation
  build_limitations input codes flows elapsed =
      let excluded = flows.excluded in
      backward_looking_limitation
      ∷ (window_limitation input.window_days elapsed
          ++ (text_if (includes codes missing_observation)
                "No start observation covers the requested window; return is unavailable."
              ++ (text_if (includes codes ambiguous_capability)
                    "A capability returned a value that cannot be interpreted; the affected figure is reported as unavailable rather than as zero."
                  ++ (text_if (includes codes call_reverted)
                        "A contract read reverted; the affected figure is unavailable."
                      ++ (text_if
                            (includes codes incompatible_implementation
                              || includes codes incompatible_asset)
                            "Start and end observations are not comparable; no return is computed across the change."
                          ++ (text_if (ltb 0 excluded.mints || ltb 0 excluded.burns) (
                                "Net flow excludes "
                                <> p.show_int (pos excluded.mints)
                                <> " share mint(s) and "
                                <> p.show_int (pos excluded.burns)
                                <> " burn(s), which are the share side of deposits and withdrawals already counted.")
                              ++ text_if (ltb 0 excluded.missing_assets) (
                                  "Net flow omits "
                                  <> p.show_int (pos excluded.missing_assets)
                                  <> " event(s) whose asset amount was unavailable; it is a lower bound.")))))))

  module _ (accepts : ProvenanceEntry → Bool) where
    unfoldable pub build_evidence : EvidenceInput → Result Failure EvidenceReportDraft
    build_evidence input = do
      let flows = aggregate_flows input.flows
      compatibility ← check_compatibility input
      (share_value, codes) ←
          (if is_empty compatibility
            then build_share_value input compatibility
            else ok (none, compatibility))
      let (total_assets, codes') = read_total_assets input codes
      let (max_withdraw_assets, codes'') = read_max_withdraw input codes'
      let elapsed_seconds = measure_elapsed input
      provenance ← build_provenance accepts input
      let limitations = build_limitations input codes'' flows elapsed_seconds
      let identity = derive_report_identity p (identity_json input)
      ok (record {
        schema_version = "1.0.0";
        report_id = identity.report_id;
        canonical_input_hash = identity.canonical_input_hash;
        calculation_version = input.calculation_version;
        vault = input.vault;
        as_of = input.as_of;
        generated_at = input.generated_at;
        observations = record {
          share_value = share_value;
          total_assets = total_assets;
          net_flow_assets = flows.net_flow_assets;
          max_withdraw_assets = max_withdraw_assets;
        };
        flows = flows;
        elapsed_seconds = elapsed_seconds;
        reason_codes = codes'';
        provenance = provenance;
        limitations = limitations;
      })

unfoldable pub is_complete : EvidenceReportDraft → Bool
is_complete draft =
    is_some draft.observations.share_value && is_some draft.observations.total_assets

-- ===== src/Evidence/Draft/Parts.antt =====
-- The parts that a draft of `buildEvidence` in packages/evidence/src/report.ts is made of.
use tr4ce_app.Prelude.{
  ◌≡◌, sym, ap, ◌∙◌, Bool, Option, none, List, Result, ok, if◌then◌else◌, >>=-eq-ok, ok_inj,
}
use tr4ce_app.Platform.{Platform}
use tr4ce_app.Domain.{ReasonCode}
use tr4ce_app.Domain.Canonical.{derive_report_identity}
use tr4ce_app.Evidence.Failure.{Failure}
use tr4ce_app.Evidence.Flows.{aggregate_flows}
use tr4ce_app.Evidence.Input.{EvidenceInput, ShareValue, ProvenanceEntry, EvidenceReportDraft}
use tr4ce_app.Evidence.Identity.{identity_json}
use tr4ce_app.Evidence.Report.{
  check_compatibility, build_share_value, read_total_assets, read_max_withdraw, build_provenance,
}
use tr4ce_app.Evidence.Draft.{is_empty, measure_elapsed, build_evidence}

-- `compatible ? buildShareValue(input, reasonCodes) : null`
abbrev pub share_part :
    EvidenceInput → List ReasonCode → Result Failure (Option ShareValue × List ReasonCode)
share_part input codes = if is_empty codes then build_share_value input codes else ok (none, codes)

module _ (p : Platform) (accepts : ProvenanceEntry → Bool) where
  pub record Built (input : EvidenceInput) (draft : EvidenceReportDraft) : Type 0 where
    pub compatibility : List ReasonCode
    pub share_codes : List ReasonCode
    pub asset_codes : List ReasonCode
    pub checked : check_compatibility input ≡ ok compatibility
    pub shared : share_part input compatibility ≡ ok (draft.observations.share_value, share_codes)
    pub totalled :
        read_total_assets input share_codes ≡ (draft.observations.total_assets, asset_codes)
    pub limited :
        read_max_withdraw input asset_codes
        ≡ (draft.observations.max_withdraw_assets, draft.reason_codes)
    pub sourced : build_provenance accepts input ≡ ok draft.provenance
    pub flowed : draft.flows ≡ aggregate_flows input.flows
    pub timed : draft.elapsed_seconds ≡ measure_elapsed p input
    pub identified : draft.report_id ≡ (derive_report_identity p (identity_json input)).report_id

  pub build_evidence-Built :
      (input : EvidenceInput) (draft : EvidenceReportDraft)
      → build_evidence p accepts input ≡ ok draft
      → Built input draft
  unfolding build_evidence
  build_evidence-Built input draft e =
      let (codes, checked, e1) = >>=-eq-ok (check_compatibility input) _ e in
      let ((value, codes'), shared, e2) = >>=-eq-ok (share_part input codes) _ e1 in
      let (provenance, sourced, e3) = >>=-eq-ok (build_provenance accepts input) _ e2 in
      let q = ok_inj e3 in
      record {
        compatibility = codes;
        share_codes = codes';
        asset_codes = (read_total_assets input codes').1;
        checked = checked;
        shared = shared ∙ ap (λ d. ok (d.observations.share_value, codes')) q;
        totalled = λ i. ((q i).observations.total_assets, (read_total_assets input codes').1);
        limited = λ i. ((q i).observations.max_withdraw_assets, (q i).reason_codes);
        sourced = sourced ∙ ap (λ d. ok d.provenance) q;
        flowed = sym (ap (λ d. d.flows) q);
        timed = sym (ap (λ d. d.elapsed_seconds) q);
        identified = sym (ap (λ d. d.report_id) q);
      }

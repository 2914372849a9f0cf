-- ===== src/Evidence/Attach.antt =====
-- `attachPolicy` of packages/evidence/src/report.ts: a complete draft and an evaluation make a
-- report. `evidenceReportV1Schema.safeParse(report).success` is the parameter `accepts`.
pub mod Complete
use tr4ce_app.Prelude.{
  ℕ, Bool, not, Option, none, some, List, String, Result, ok, err, ◌>>=◌, ◌>>◌, throw_if,
}
use tr4ce_app.Prelude.Int.{ℤ}
use tr4ce_app.Domain.Policy.{PolicyEvaluation}
use tr4ce_app.Evidence.Failure.{Failure, incomplete, schema_rejected}
use tr4ce_app.Evidence.Input.{
  VaultIdentity, BlockRef, ShareValue, ProvenanceEntry, EvidenceReportDraft,
}

-- `observedShareValueSchema` of packages/domain/src/evidence.ts
pub record ObservedShareValue : Type 0 where
  pub one_share_base_units : ℤ
  pub assets_now : ℤ
  pub assets_at_start : ℤ
  pub window_days : ℕ
  pub return_bps : ℤ

-- `evidenceReportV1Schema` of packages/domain/src/evidence.ts, with its observations flattened.
pub record EvidenceReport : Type 0 where
  pub schema_version : String
  pub report_id : String
  pub calculation_version : String
  pub vault : VaultIdentity
  pub as_of : BlockRef
  pub generated_at : String
  pub share_value : ObservedShareValue
  pub total_assets : ℤ
  pub net_flow_assets : ℤ
  pub max_withdraw_assets : Option ℤ
  pub policy : PolicyEvaluation
  pub provenance : List ProvenanceEntry
  pub limitations : List String

report_of : EvidenceReportDraft → PolicyEvaluation → ShareValue → ℤ → EvidenceReport
report_of draft policy share_value total_assets = record {
  schema_version = draft.schema_version;
  report_id = draft.report_id;
  calculation_version = draft.calculation_version;
  vault = draft.vault;
  as_of = draft.as_of;
  generated_at = draft.generated_at;
  share_value = record {
    one_share_base_units = share_value.one_share_base_units;
    assets_now = share_value.assets_now;
    assets_at_start = share_value.assets_at_start;
    window_days = share_value.window_days;
    return_bps = share_value.return_bps;
  };
  total_assets = total_assets;
  net_flow_assets = draft.observations.net_flow_assets;
  max_withdraw_assets = draft.observations.max_withdraw_assets;
  policy = policy;
  provenance = draft.provenance;
  limitations = draft.limitations;
}

module _ (accepts : EvidenceReport → Bool) where
  -- The guard `isComplete` narrows both values at once.
  attach_values :
      EvidenceReportDraft
      → PolicyEvaluation
      → Option ShareValue
      → Option ℤ
      → Result Failure EvidenceReport
  unfolding report_of
  attach_values draft policy (some share_value) (some total_assets) = do
    let report = report_of draft policy share_value total_assets
    throw_if (not (accepts report)) schema_rejected
    ok report
  attach_values draft policy none total_assets = err incomplete
  attach_values draft policy (some share_value) none = err incomplete

  unfoldable pub attach_policy :
      EvidenceReportDraft → PolicyEvaluation → Result Failure EvidenceReport
  unfolding attach_values
  attach_policy draft policy =
      attach_values draft policy draft.observations.share_value draft.observations.total_assets

-- ===== src/Evidence/Attach/Complete.antt =====
-- When `attachPolicy` of packages/evidence/src/report.ts makes no report.
use tr4ce_app.Prelude.{◌≡◌, refl, Bool, false, ◌&&◌, Option, none, some, err, is_some}
use tr4ce_app.Prelude.Int.{ℤ}
use tr4ce_app.Domain.Policy.{PolicyEvaluation}
use tr4ce_app.Evidence.Failure.{incomplete}
use tr4ce_app.Evidence.Input.{ShareValue, EvidenceReportDraft}
use tr4ce_app.Evidence.Draft.{is_complete}
use tr4ce_app.Evidence.Attach.{EvidenceReport, attach_values, attach_policy}

module _ (accepts : EvidenceReport → Bool) where
  attach_values-incomplete :
      (draft : EvidenceReportDraft) (policy : PolicyEvaluation) (s : Option ShareValue)
      (t : Option ℤ)
      → (is_some s && is_some t) ≡ false
      → attach_values accepts draft policy s t ≡ err incomplete
  unfolding attach_values
  attach_values-incomplete draft policy none t e = refl
  attach_values-incomplete draft policy (some s) none e = refl
  attach_values-incomplete draft policy (some s) (some t) e = cc

  -- A draft that lacks its share value or its total assets is never made a report.
  pub attach_policy-incomplete :
      (draft : EvidenceReportDraft) (policy : PolicyEvaluation)
      → is_complete draft ≡ false
      → attach_policy accepts draft policy ≡ err incomplete
  unfolding attach_policy is_complete
  attach_policy-incomplete draft policy e =
      attach_values-incomplete draft policy draft.observations.share_value
        draft.observations.total_assets e

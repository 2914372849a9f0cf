-- ===== src/Evidence/Draft/Gaps.antt =====
-- A figure that a draft of packages/evidence/src/report.ts leaves out is explained by a reason code.
use tr4ce_app.Prelude.{
  ◌≡◌, ◌⊎◌, inl, inr, refl, ap, ◌∙◌, subst, Bool, Option, none, List, [], ◌∷◌, ok, ok_inj,
}
use tr4ce_app.Platform.{Platform}
use tr4ce_app.Domain.{ReasonCode}
use tr4ce_app.Evidence.Input.{EvidenceInput, ShareValue, ProvenanceEntry, EvidenceReportDraft}
use tr4ce_app.Evidence.Report.Explained.{
  Explained, read_total_assets-Tracks, read_max_withdraw-keeps, build_share_value-Explained,
  same_code_self,
}
use tr4ce_app.Evidence.Draft.{build_evidence}
use tr4ce_app.Evidence.Draft.Parts.{share_part, build_evidence-Built}

share_part-Explained :
    (input : EvidenceInput) (compatibility : List ReasonCode) (value : Option ShareValue)
    (after : List ReasonCode)
    → share_part input compatibility ≡ ok (value, after)
    → value ≡ none
    → Explained after
share_part-Explained input [] value after e n = build_share_value-Explained input [] value after e n
share_part-Explained input (c ∷ codes) value after e n =
    subst Explained (ap (λ q. q.1) (ok_inj e)) (c, rw (same_code_self c) refl)

module _ (p : Platform) (accepts : ProvenanceEntry → Bool) where
  -- A draft without a share value, or without total assets, gives a reason.
  pub build_evidence-Explained :
      (input : EvidenceInput) (draft : EvidenceReportDraft)
      → build_evidence p accepts input ≡ ok draft
      → (draft.observations.share_value ≡ none) ⊎ (draft.observations.total_assets ≡ none)
      → Explained draft.reason_codes
  build_evidence-Explained input draft e gap =
      let b = build_evidence-Built p accepts input draft e in
      let assets = read_total_assets-Tracks input b.share_codes in
      subst Explained (ap (λ q. q.1) b.limited) (
        read_max_withdraw-keeps input b.asset_codes (
          subst Explained (ap (λ q. q.1) b.totalled) (elim gap [
            | inl share ↦
                assets.keeps
                  (share_part-Explained input b.compatibility _ b.share_codes b.shared share)
            | inr total ↦ assets.absent (ap (λ q. q.0) b.totalled ∙ total)
          ])))

-- ===== src/Evidence/Draft/Returned.antt =====
-- The return that a draft of packages/evidence/src/report.ts reports, against the observations that it
-- was built from.
use tr4ce_app.Prelude.{
  ℕ, ◌≡◌, ◌<◌, refl, sym, ap, ◌∙◌, subst, Bool, some, List, [], ◌∷◌, ok, ok_inj,
}
use tr4ce_app.Prelude.Int.{ℤ, pos}
use tr4ce_app.Platform.{Platform}
use tr4ce_app.Domain.{ReasonCode}
use tr4ce_app.Evidence.Rational.{BasisPoints}
use tr4ce_app.Evidence.ShareValue.{observed, observe_share_value}
use tr4ce_app.Evidence.Rational.Points.{IsSafe}
use tr4ce_app.Evidence.ShareValue.Return.{IsReturn, Reports, observe_share_value-Reports}
use tr4ce_app.Evidence.Input.{
  SnapshotObservation, EvidenceInput, ShareValue, ProvenanceEntry, EvidenceReportDraft,
}
use tr4ce_app.Evidence.Report.Observed.{
  build_share_value-Observed, check_compatibility-Comparable, Observed, Comparable,
}
use tr4ce_app.Evidence.Draft.{build_evidence}
use tr4ce_app.Evidence.Draft.Parts.{share_part, build_evidence-Built}

share_part-Observed :
    (input : EvidenceInput) (compatibility : List ReasonCode) (v : ShareValue)
    (after : List ReasonCode)
    → share_part input compatibility ≡ ok (some v, after)
    → (compatibility ≡ []) × Observed input v
share_part-Observed input [] v after e = (refl, build_share_value-Observed input [] v after e)
share_part-Observed input (c ∷ codes) v after e = cc (ap (λ q. q.0) (ok_inj e))

-- What a reported share value stands on: two comparable observations, both amounts present, and the
-- exact floor of their change in basis points when the start amount is positive.
pub record Grounded (input : EvidenceInput) (v : ShareValue) : Type 0 where
  pub start : SnapshotObservation
  pub present : input.start ≡ some start
  pub comparable : Comparable start input.end
  pub at_start : start.one_share_assets ≡ some v.assets_at_start
  pub at_end : input.end.one_share_assets ≡ some v.assets_now
  pub window : v.window_days ≡ input.window_days
  pub floored :
      (m : ℕ) → 0 < m → v.assets_at_start ≡ pos m → IsReturn (pos m) v.assets_now v.return_bps

floored :
    (v : ShareValue) (points : BasisPoints) (m : ℕ)
    → 0 < m
    → v.assets_at_start ≡ pos m
    → observe_share_value (some v.assets_at_start) (some v.assets_now) ≡ ok (observed points)
    → v.return_bps ≡ points.value
    → IsReturn (pos m) v.assets_now v.return_bps
floored v points m positive at result returned =
    let (q, change, reports) = observe_share_value-Reports m v.assets_now positive in
    let computed : observe_share_value (some (pos m)) (some v.assets_now) ≡ ok (observed points) =
      ap (λ a. observe_share_value (some a) (some v.assets_now)) (sym at) ∙ result in
    let (_, same) = reported q points (subst (Reports q) computed reports) in
    subst (λ x. IsReturn (pos m) v.assets_now x) (sym (returned ∙ same)) change
  where
    reported :
        (q : ℤ) (points : BasisPoints)
        → Reports q (ok (observed points))
        → IsSafe q × (points.value ≡ q)
    reported q points r = r

module _ (p : Platform) (accepts : ProvenanceEntry → Bool) where
  -- A share value in a draft comes from a start and an end of the same vault, with the same units and
  -- the same schema version, holds their amounts, and its return is the floor of their exact change
  -- when the start amount is positive.
  pub build_evidence-Grounded :
      (input : EvidenceInput) (draft : EvidenceReportDraft) (v : ShareValue)
      → build_evidence p accepts input ≡ ok draft
      → draft.observations.share_value ≡ some v
      → Grounded input v
  build_evidence-Grounded input draft v e given =
      let b = build_evidence-Built p accepts input draft e in
      let (none_found, o) =
        share_part-Observed input b.compatibility v b.share_codes
          (b.shared ∙ ap (λ s. ok (s, b.share_codes)) given) in
      record {
        start = o.start;
        present = o.present;
        comparable =
            check_compatibility-Comparable input o.start o.present
              (b.checked ∙ ap (λ codes. ok codes) none_found);
        at_start = o.at_start;
        at_end = o.at_end;
        window = o.window;
        floored = λ m positive at. floored v o.points m positive at o.result o.returned;
      }

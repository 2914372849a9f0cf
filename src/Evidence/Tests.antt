-- ===== src/Evidence/Tests.antt =====
-- Runs of packages/evidence/src on small inputs, and the theorems applied to them.
pub mod Sample
use Prim.{∣◌∣₁}
use mathlib.Core.List.{Permᴰ}
use tr4ce_app.Prelude.{
  ℕ, ◌+◌, ◌<◌, ◌≡◌, ◌≢◌, ◌↔◌, ◌⊎◌, inl, inr, refl, ap, true, false, Bool, Option, none, some, List,
  [], ◌∷◌, Result, ok, err, Returns, arith, length,
}
use tr4ce_app.Prelude.Int.{ℤ, pos, negsuc, ◌<ℤ◌, pos_part, neg_part, nat_abs, ◌*ℤ◌, ◌-ℤ◌, ◌≤ℤ◌}
use tr4ce_app.Domain.{RuleStatus, FlowKind, TransferKind, CapabilityMethod, CapabilityStatus}
use tr4ce_app.Domain.Policy.{PolicyEvaluation}
use tr4ce_app.Platform.Plain.{plain}
use tr4ce_app.Evidence.Failure.{Failure, incomplete}
use tr4ce_app.Evidence.Rational.{Ratio, reduce, floor_div, to_basis_points, compare}
use tr4ce_app.Evidence.Rational.Floor.{IsFloor, floor_div-IsFloor}
use tr4ce_app.Evidence.Rational.Lowest.{IsLowest, reduce-IsLowest}
use tr4ce_app.Evidence.Rational.Points.{IsPoints, to_basis_points-IsPoints}
use tr4ce_app.Evidence.Rational.Order.{compare_swap, compare_trans}
use tr4ce_app.Evidence.Flows.{FlowRow, FlowAggregate, aggregate_flows}
use tr4ce_app.Evidence.Flows.Totals.{entries, aggregate_of, aggregate_flows-total}
use tr4ce_app.Evidence.Flows.Audit.{aggregate_flows-accounts, aggregate_flows-perm}
use tr4ce_app.Evidence.ShareValue.{observed, observe_share_value}
use tr4ce_app.Evidence.ShareValue.Return.{
  IsReturn, Reports, observe_share_value-Reports, observe_share_value_mono,
}
use tr4ce_app.Evidence.Capability.{CapabilityProbe, is_usable, find_probe, usability, status_of}
use tr4ce_app.Evidence.Capability.Usable.{FirstHas, is_usable_iff}
use tr4ce_app.Evidence.Input.{EvidenceReportDraft}
use tr4ce_app.Evidence.Report.Explained.{Explained}
use tr4ce_app.Evidence.Draft.{build_evidence, is_complete}
use tr4ce_app.Evidence.Draft.Gaps.{build_evidence-Explained}
use tr4ce_app.Evidence.Draft.Returned.{Grounded, build_evidence-Grounded}
use tr4ce_app.Evidence.Attach.{attach_policy, EvidenceReport}
use tr4ce_app.Evidence.Attach.Complete.{attach_policy-incomplete}
use tr4ce_app.Evidence.Tests.Sample.{
  accepts, evidence, draft, share_value, builds, young_evidence, young_draft, builds_young,
}

pos_ne_zero : {d : ℤ} → pos 0 <ℤ d → d ≢ pos 0
pos_ne_zero h e = omega (arith, h, ap pos_part e, ap neg_part e)

floor_div-IsFloor_example : Returns (IsFloor (negsuc 6) (pos 2)) (floor_div (negsuc 6) (pos 2))
floor_div-IsFloor_example =
    floor_div-IsFloor (negsuc 6) (pos 2) (pos_ne_zero {d = pos 2} (omega arith))

reduce-IsLowest_example : Returns (IsLowest (pos 6) (pos 4)) (reduce (pos 6) (pos 4))
reduce-IsLowest_example = reduce-IsLowest (pos 6) (pos 4) (pos_ne_zero {d = pos 4} (omega arith))

abbrev half : Ratio
half = record { numerator = pos 1; denominator = pos 2 }

abbrev third : Ratio
third = record { numerator = pos 1; denominator = pos 3 }

abbrev loss : Ratio
loss = record { numerator = negsuc 0; denominator = pos 3 }

to_basis_points-IsPoints_example :
    (q : ℤ) × IsFloor (loss.numerator *ℤ pos 10000) loss.denominator q
    × IsPoints loss q (to_basis_points loss)
to_basis_points-IsPoints_example =
    to_basis_points-IsPoints loss (pos_ne_zero {d = pos 3} (omega arith))

loss-third : compare loss third ≢ pos 1
unfolding compare ◌*ℤ◌ ◌-ℤ◌
loss-third e = cc e

third-half : compare third half ≢ pos 1
unfolding compare ◌*ℤ◌ ◌-ℤ◌
third-half e = cc e

abbrev deposit : FlowRow
deposit = record {
  kind = FlowKind.deposit;
  transfer_kind = none;
  assets = some (pos 100);
  shares = pos 90;
  canonical = true;
}

abbrev mint : FlowRow
mint = record {
  kind = FlowKind.share_transfer;
  transfer_kind = some TransferKind.mint;
  assets = none;
  shares = pos 90;
  canonical = true;
}

abbrev rows : List FlowRow
rows = deposit ∷ mint ∷ []

aggregate_flows-accounts_example :
    let a = aggregate_flows rows in
    a.deposit_count + a.withdrawal_count + a.excluded.mints + a.excluded.burns
      + a.excluded.transfers + a.excluded.non_canonical + a.excluded.missing_assets
    ≡ length rows
aggregate_flows-accounts_example = aggregate_flows-accounts rows

aggregate_flows-perm_example : aggregate_flows rows ≡ aggregate_flows (mint ∷ deposit ∷ [])
aggregate_flows-perm_example =
    aggregate_flows-perm rows (mint ∷ deposit ∷ []) ∣ Permᴰ.swap refl refl ∣₁

observe_share_value-Reports_example :
    (q : ℤ) × IsReturn (pos 100) (pos 110) q
    × Reports q (observe_share_value (some (pos 100)) (some (pos 110)))
observe_share_value-Reports_example = observe_share_value-Reports 100 (pos 110) (omega arith)

abbrev probe : CapabilityProbe
probe = record {
  method = CapabilityMethod.max_withdraw;
  status = CapabilityStatus.nonstandard_zero;
  at_block = 1;
  raw_result = none;
  revert_data = none;
  reason_code = none;
  note = none;
}

build_evidence-Grounded_example : Grounded evidence share_value
build_evidence-Grounded_example =
    build_evidence-Grounded plain accepts evidence draft share_value builds refl

build_evidence-Explained_example : Explained young_draft.reason_codes
build_evidence-Explained_example =
    build_evidence-Explained plain accepts young_evidence young_draft builds_young (inl refl)

abbrev decision : PolicyEvaluation
decision = record { status = RuleStatus.unknown; rules = [] }

abbrev publishes : EvidenceReport → Bool
publishes report = true

draft_complete : is_complete draft ≡ true
unfolding is_complete
draft_complete = refl

young_incomplete : is_complete young_draft ≡ false
unfolding is_complete
young_incomplete = refl

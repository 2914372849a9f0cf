-- ===== src/Policy/Evaluate/Grounds.antt =====
-- What a decision of packages/policy/src/evaluate.ts on a draft of packages/evidence/src/report.ts says
-- of the observations that the draft was built from.
use tr4ce_app.Prelude.{ℕ, ◌≡◌, ◌<◌, ap, ◌∙◌, Bool, some, ok}
use tr4ce_app.Prelude.Int.{pos, ◌≤ℤ◌, ◌*ℤ◌, ◌-ℤ◌}
use tr4ce_app.Platform.{Platform}
use tr4ce_app.Domain.{RuleStatus, max_withdraw, supported}
use tr4ce_app.Evidence.Capability.Usable.{FirstHas, is_usable_iff}
use tr4ce_app.Evidence.ShareValue.Return.{IsFloor-le_iff}
use tr4ce_app.Evidence.Input.{AccountLimitObservation, EvidenceInput, ShareValue, ProvenanceEntry}
use tr4ce_app.Evidence.Report.Explained.{read_max_withdraw-some}
use tr4ce_app.Evidence.Draft.{build_evidence}
use tr4ce_app.Evidence.Draft.Parts.{build_evidence-Built}
use tr4ce_app.Evidence.Draft.Returned.{Grounded, build_evidence-Grounded}
use tr4ce_app.Policy.Rules.{EvaluationInput, evaluate_minimum_withdrawable}
use tr4ce_app.Policy.Rules.Verdicts.{withdrawable_verdict}
use tr4ce_app.Policy.Evaluate.{evaluate_policy}
use tr4ce_app.Policy.Evaluate.Meets.{evaluate_policy-pass_iff}

module _ (p : Platform) (accepts : ProvenanceEntry → Bool) where
  -- The start amount `m` and the end amount that were observed, and that the return over them reaches
  -- the rule's basis points exactly, before any rounding.
  pub record ReachesExactly (evidence : EvidenceInput) (input : EvaluationInput) : Type 0 where
    pub value : ShareValue
    pub grounded : Grounded evidence value
    pub same_window : value.window_days ≡ input.policy.min_observed_return_bps.window_days
    pub exact :
        (m : ℕ)
        → 0 < m
        → value.assets_at_start ≡ pos m
        → input.policy.min_observed_return_bps.value *ℤ pos m
          ≤ℤ (value.assets_now -ℤ pos m) *ℤ pos 10000

  -- When a policy passes on a draft built from observations, these are of one vault, in the same units
  -- and under the same schema, the window that was requested for the draft has the rule's number of days
  -- (how far apart the two observations are is not bounded), and the exact return on a positive start
  -- amount is at least the rule's threshold: the floored basis points hide no shortfall.
  pub evaluate_policy-ReachesExactly :
      (evidence : EvidenceInput) (input : EvaluationInput)
      → build_evidence p accepts evidence ≡ ok input.draft
      → (evaluate_policy p input).status ≡ RuleStatus.pass
      → ReachesExactly evidence input
  evaluate_policy-ReachesExactly evidence input built passed =
      let meets = (evaluate_policy-pass_iff p input).0 passed in
      let (v, given, window, reached) = meets.returned in
      let g = build_evidence-Grounded p accepts evidence input.draft v built given in
      record {
        value = v;
        grounded = g;
        same_window = window;
        exact = λ m positive at.
            (IsFloor-le_iff _ v.return_bps input.policy.min_observed_return_bps.value m positive
                (g.floored m positive at)).0
              reached;
      }

  -- The withdrawable rule fails a draft only where the first probe of maxWithdraw among the account's
  -- probes has the status `supported`: a limit that was not probed, or whose probe is unsupported,
  -- reverted, ambiguous or a nonstandard zero, never counts against a vault.
  pub evaluate_minimum_withdrawable-usable :
      (evidence : EvidenceInput) (input : EvaluationInput)
      → build_evidence p accepts evidence ≡ ok input.draft
      → (evaluate_minimum_withdrawable p input).status ≡ RuleStatus.fail
      → (limits : AccountLimitObservation) × (evidence.account_limits ≡ some limits)
        × FirstHas max_withdraw supported limits.probes
  evaluate_minimum_withdrawable-usable evidence input built failed =
      let (_, short) = (withdrawable_verdict p input).1.0 failed in
      let b = build_evidence-Built p accepts evidence input.draft built in
      let (limits, present, usable, _) =
        read_max_withdraw-some evidence b.asset_codes short.0 input.draft.reason_codes
          (b.limited ∙ ap (λ o. (o, input.draft.reason_codes)) short.1) in
      (limits, present, (is_usable_iff limits.probes max_withdraw).0 usable)

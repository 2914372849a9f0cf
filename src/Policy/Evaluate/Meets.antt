-- ===== src/Policy/Evaluate/Meets.antt =====
-- What an evaluation by packages/policy/src/evaluate.ts establishes about the evidence.
use tr4ce_app.Prelude.{◌*◌, ◌≡◌, ◌↔◌, ◌⊎◌, inl, inr}
use tr4ce_app.Prelude.Int.{pos}
use tr4ce_app.Platform.{Platform}
use tr4ce_app.Domain.{RuleStatus}
use tr4ce_app.Policy.Rules.{
  EvaluationInput, age_seconds, evaluate_underlying_asset, evaluate_minimum_history,
  evaluate_minimum_tvl, evaluate_minimum_observed_return, evaluate_minimum_withdrawable,
}
use tr4ce_app.Policy.Rules.Verdicts.{
  Reaches, FallsShort, Allowed, Refused, key_of, Covers, Returned, ReturnedLess, SameOwner,
  asset_verdict, history_verdict, tvl_verdict, return_verdict, withdrawable_verdict,
}
use tr4ce_app.Policy.Evaluate.{evaluate_policy}
use tr4ce_app.Policy.Evaluate.Overall.{overall_status-pass_iff, overall_status-fail_iff}

-- Everything that the policy asks for is there in the evidence, and suffices.
pub record Meets (p : Platform) (input : EvaluationInput) : Type 0 where
  pub asset : Allowed input.policy.underlying_assets (key_of input.asset_identity)
  pub history : Covers input.policy.min_history_days input.draft.elapsed_seconds
  pub tvl : Reaches input.policy.min_tvl_assets input.draft.observations.total_assets
  pub returned : Returned input.policy.min_observed_return_bps input.draft.observations.share_value
  pub owner : SameOwner p input.policy.min_withdrawable_assets input.observed_owner
  pub withdrawable :
      Reaches input.policy.min_withdrawable_assets.value
        input.draft.observations.max_withdraw_assets

-- Some figure is there in the evidence, and contradicts the policy: an asset outside the list, a
-- vault too young for the history, an amount or a return below its threshold.
abbrev pub Contradicts : Platform → EvaluationInput → Type 0
Contradicts p input =
    Refused input.policy.underlying_assets (key_of input.asset_identity)
    ⊎ ((¬ Covers input.policy.min_history_days input.draft.elapsed_seconds
          × FallsShort (pos (input.policy.min_history_days * 86400)) (age_seconds p input))
        ⊎ (FallsShort input.policy.min_tvl_assets input.draft.observations.total_assets
            ⊎ (ReturnedLess input.policy.min_observed_return_bps
                  input.draft.observations.share_value
                ⊎ (SameOwner p input.policy.min_withdrawable_assets input.observed_owner
                    × FallsShort input.policy.min_withdrawable_assets.value
                        input.draft.observations.max_withdraw_assets))))

-- The evaluation passes exactly when the evidence meets the policy on all five rules.
pub evaluate_policy-pass_iff :
    (p : Platform) (input : EvaluationInput)
    → ((evaluate_policy p input).status ≡ RuleStatus.pass) ↔ Meets p input
unfolding evaluate_policy
evaluate_policy-pass_iff p input = (
  λ e.
      let (a, (h, (t, (r, (w, _))))) = (overall_status-pass_iff _).0 e in
      let owned = (withdrawable_verdict p input).0.0 w in
      record {
        asset = (asset_verdict p input).0.0 a;
        history = (history_verdict p input).0.0 h;
        tvl = (tvl_verdict p input).0.0 t;
        returned = (return_verdict p input).0.0 r;
        owner = owned.0;
        withdrawable = owned.1;
      },
  λ m. (overall_status-pass_iff _).1 (
    (asset_verdict p input).0.1 m.asset,
    (
      (history_verdict p input).0.1 m.history,
      (
        (tvl_verdict p input).0.1 m.tvl,
        (
          (return_verdict p input).0.1 m.returned,
          ((withdrawable_verdict p input).0.1 (m.owner, m.withdrawable), tt),
        ),
      ),
    ),
  ),
)

-- The evaluation fails exactly when some figure that is there contradicts the policy, whatever is
-- missing besides.
pub evaluate_policy-fail_iff :
    (p : Platform) (input : EvaluationInput)
    → ((evaluate_policy p input).status ≡ RuleStatus.fail) ↔ Contradicts p input
unfolding evaluate_policy
evaluate_policy-fail_iff p input = (
  λ e. to_contradiction ((overall_status-fail_iff _).0 e),
  λ c. (overall_status-fail_iff _).1 (of_contradiction c),
)
  where
    FailingRule : Type 0
    FailingRule =
        ((evaluate_underlying_asset p input).status ≡ RuleStatus.fail)
        ⊎ (((evaluate_minimum_history p input).status ≡ RuleStatus.fail)
            ⊎ (((evaluate_minimum_tvl p input).status ≡ RuleStatus.fail)
                ⊎ (((evaluate_minimum_observed_return p input).status ≡ RuleStatus.fail)
                    ⊎ (((evaluate_minimum_withdrawable p input).status ≡ RuleStatus.fail) ⊎ ⊥))))

    to_contradiction : FailingRule → Contradicts p input
    to_contradiction (inl e) = inl ((asset_verdict p input).1.0 e)
    to_contradiction (inr (inl e)) = inr (inl ((history_verdict p input).1.0 e))
    to_contradiction (inr (inr (inl e))) = inr (inr (inl ((tvl_verdict p input).1.0 e)))
    to_contradiction (inr (inr (inr (inl e)))) =
        inr (inr (inr (inl ((return_verdict p input).1.0 e))))
    to_contradiction (inr (inr (inr (inr (inl e))))) =
        inr (inr (inr (inr ((withdrawable_verdict p input).1.0 e))))
    to_contradiction (inr (inr (inr (inr (inr z))))) = absurd z

    of_contradiction : Contradicts p input → FailingRule
    of_contradiction (inl c) = inl ((asset_verdict p input).1.1 c)
    of_contradiction (inr (inl c)) = inr (inl ((history_verdict p input).1.1 c))
    of_contradiction (inr (inr (inl c))) = inr (inr (inl ((tvl_verdict p input).1.1 c)))
    of_contradiction (inr (inr (inr (inl c)))) =
        inr (inr (inr (inl ((return_verdict p input).1.1 c))))
    of_contradiction (inr (inr (inr (inr c)))) =
        inr (inr (inr (inr (inl ((withdrawable_verdict p input).1.1 c)))))

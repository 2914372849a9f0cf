-- ===== src/Policy/Tests.antt =====
-- A policy evaluated by packages/policy/src/evaluate.ts on a draft, and the theorems applied to it.
use tr4ce_app.Prelude.{◌≡◌, ◌↔◌, refl, none, some, List, [], ◌∷◌}
use tr4ce_app.Prelude.Int.{ℤ, pos}
use tr4ce_app.Platform.Plain.{plain}
use tr4ce_app.Domain.{RuleStatus, RuleKey, max_withdraw}
use tr4ce_app.Domain.Policy.{Policy, RuleResult}
use tr4ce_app.Evidence.Input.{AccountLimitObservation}
use tr4ce_app.Evidence.Tests.Sample.{accepts, evidence, draft, builds}
use tr4ce_app.Policy.Rules.{
  EvaluationInput, pass, unknown, evaluate_underlying_asset, evaluate_minimum_history,
  evaluate_minimum_tvl, evaluate_minimum_observed_return, evaluate_minimum_withdrawable,
  age_seconds,
}
use tr4ce_app.Policy.Evaluate.{overall_status, evaluate_policy}
use tr4ce_app.Policy.Evaluate.Meets.{
  Meets, Contradicts, evaluate_policy-pass_iff, evaluate_policy-fail_iff,
}
use tr4ce_app.Evidence.Capability.Usable.{FirstHas}
use tr4ce_app.Domain.{supported}
use tr4ce_app.Policy.Evaluate.Grounds.{
  ReachesExactly, evaluate_policy-ReachesExactly, evaluate_minimum_withdrawable-usable,
}

abbrev policy_of : ℤ → Policy
policy_of withdrawable = record {
  underlying_assets = "usdc" ∷ [];
  min_history_days = 30;
  min_tvl_assets = pos 1500;
  min_observed_return_bps = record { window_days = 30; value = pos 900 };
  min_withdrawable_assets = record { owner = "owner"; value = withdrawable };
}

-- The draft with the identity of its asset, and the owner whose limit was read.
abbrev input_of : ℤ → EvaluationInput
input_of withdrawable = record {
  policy = policy_of withdrawable;
  draft = draft;
  asset_identity = some (record { canonical_key = some "usdc" });
  vault_deployed_at = none;
  observed_owner = some "owner";
}

passes : (evaluate_policy plain (input_of (pos 40))).status ≡ RuleStatus.pass
unfolding evaluate_policy overall_status evaluate_underlying_asset evaluate_minimum_history
    evaluate_minimum_tvl evaluate_minimum_observed_return evaluate_minimum_withdrawable age_seconds
passes = refl

fails : (evaluate_minimum_withdrawable plain (input_of (pos 60))).status ≡ RuleStatus.fail
unfolding evaluate_minimum_withdrawable
fails = refl

evaluate_policy-pass_iff_example :
    ((evaluate_policy plain (input_of (pos 40))).status ≡ RuleStatus.pass)
    ↔ Meets plain (input_of (pos 40))
evaluate_policy-pass_iff_example = evaluate_policy-pass_iff plain (input_of (pos 40))

evaluate_policy-fail_iff_example :
    ((evaluate_policy plain (input_of (pos 60))).status ≡ RuleStatus.fail)
    ↔ Contradicts plain (input_of (pos 60))
evaluate_policy-fail_iff_example = evaluate_policy-fail_iff plain (input_of (pos 60))

evaluate_policy-ReachesExactly_example : ReachesExactly plain accepts evidence (input_of (pos 40))
evaluate_policy-ReachesExactly_example =
    evaluate_policy-ReachesExactly plain accepts evidence (input_of (pos 40)) builds passes

evaluate_minimum_withdrawable-usable_example :
    (limits : AccountLimitObservation) × (evidence.account_limits ≡ some limits)
    × FirstHas max_withdraw supported limits.probes
evaluate_minimum_withdrawable-usable_example =
    evaluate_minimum_withdrawable-usable plain accepts evidence (input_of (pos 60)) builds fails

abbrev rules : List RuleResult
rules =
    pass RuleKey.underlying_asset "usdc" (some "usdc") []
    ∷ unknown RuleKey.minimum_tvl "1" none [] []
    ∷ []

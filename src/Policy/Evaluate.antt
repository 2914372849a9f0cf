-- ===== src/Policy/Evaluate.antt =====
-- `evaluatePolicy` and `overallStatus` of packages/policy/src/evaluate.ts. The evaluation is built
-- from typed parts, so the schema that it is parsed with accepts it as it stands.
pub mod Overall
pub mod Meets
pub mod Grounds
use tr4ce_app.Prelude.{Bool, true, false, List, [], ◌∷◌, any, if◌then◌else◌}
use tr4ce_app.Platform.{Platform}
use tr4ce_app.Domain.{RuleStatus}
use tr4ce_app.Domain.Policy.{RuleResult, PolicyEvaluation}
use tr4ce_app.Policy.Rules.{
  EvaluationInput, evaluate_underlying_asset, evaluate_minimum_history, evaluate_minimum_tvl,
  evaluate_minimum_observed_return, evaluate_minimum_withdrawable,
}

abbrev pub is_fail : RuleStatus → Bool
is_fail RuleStatus.fail = true
is_fail RuleStatus.pass = false
is_fail RuleStatus.unknown = false

abbrev pub is_unknown : RuleStatus → Bool
is_unknown RuleStatus.unknown = true
is_unknown RuleStatus.pass = false
is_unknown RuleStatus.fail = false

unfoldable pub overall_status : List RuleResult → RuleStatus
overall_status rules =
    if any (λ rule. is_fail rule.status) rules
    then RuleStatus.fail
    else if any (λ rule. is_unknown rule.status) rules
    then RuleStatus.unknown
    else RuleStatus.pass

unfoldable pub evaluate_policy : Platform → EvaluationInput → PolicyEvaluation
evaluate_policy p input =
    let rules =
      evaluate_underlying_asset p input
      ∷ evaluate_minimum_history p input
      ∷ evaluate_minimum_tvl p input
      ∷ evaluate_minimum_observed_return p input
      ∷ evaluate_minimum_withdrawable p input
      ∷ [] in
    record { status = overall_status rules; rules = rules }

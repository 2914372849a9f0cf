-- ===== src/Domain/Policy.antt =====
-- packages/domain/src/policy.ts: a policy of five rules, and the decision on each of them. An amount
-- that the source keeps as a decimal text is the integer that the text denotes.
use tr4ce_app.Prelude.{ℕ, Option, List, String}
use tr4ce_app.Prelude.Int.{ℤ}
use tr4ce_app.Domain.{ReasonCode, RuleStatus, RuleKey}

pub record ReturnRule : Type 0 where
  pub window_days : ℕ
  pub value : ℤ

pub record WithdrawableRule : Type 0 where
  pub owner : String
  pub value : ℤ

-- `policyV1Schema`; the version is the literal 1.
pub record Policy : Type 0 where
  pub underlying_assets : List String
  pub min_history_days : ℕ
  pub min_tvl_assets : ℤ
  pub min_observed_return_bps : ReturnRule
  pub min_withdrawable_assets : WithdrawableRule

pub record RuleResult : Type 0 where
  pub key : RuleKey
  pub status : RuleStatus
  pub threshold : String
  pub observed_value : Option String
  pub evidence_references : List String
  pub reason_codes : List ReasonCode

-- `policyEvaluationSchema`; the version is the literal 1.
pub record PolicyEvaluation : Type 0 where
  pub status : RuleStatus
  pub rules : List RuleResult

-- ===== src/Policy/Rules.antt =====
-- packages/policy/src/evaluate.ts: the five rules, each with its guards in the order of the source.
pub mod Verdicts
use tr4ce_app.Prelude.{
  ℕ, ◌*◌, Bool, true, false, not, ◌&&◌, Option, none, some, List, [], ◌∷◌, ◌++◌, String, ◌==◌,
  if◌then◌else◌, any, keep, Option-cases,
}
use tr4ce_app.Prelude.Int.{ℤ, pos, leb_ℤ, ltb_ℤ}
use tr4ce_app.Prelude.Text.{str_eq, ◌<>◌, join}
use tr4ce_app.Platform.{Platform}
use tr4ce_app.Domain.{
  ReasonCode, missing_observation, incompatible_asset, incompatible_implementation, call_reverted,
  ambiguous_capability, unsupported_capability, wallet_context_changed, RuleStatus, RuleKey,
  underlying_asset, minimum_history, minimum_tvl, minimum_observed_return,
  minimum_withdrawable_assets,
}
use tr4ce_app.Domain.Policy.{Policy, ReturnRule, WithdrawableRule, RuleResult}
use tr4ce_app.Evidence.Input.{ShareValue, EvidenceReportDraft}
use tr4ce_app.Evidence.Draft.{seconds_between}
use tr4ce_app.Evidence.Report.{includes}

pub record AssetIdentityObservation : Type 0 where
  pub canonical_key : Option String

pub record EvaluationInput : Type 0 where
  pub policy : Policy
  pub draft : EvidenceReportDraft
  pub asset_identity : Option AssetIdentityObservation
  pub vault_deployed_at : Option String
  pub observed_owner : Option String

abbrev seconds_per_day : ℕ
seconds_per_day = 86400

abbrev pub pass : RuleKey → String → Option String → List String → RuleResult
pass key threshold observed_value references = record {
  key = key;
  status = RuleStatus.pass;
  threshold = threshold;
  observed_value = observed_value;
  evidence_references = references;
  reason_codes = [];
}

abbrev pub fail : RuleKey → String → Option String → List String → List ReasonCode → RuleResult
fail key threshold observed_value references codes = record {
  key = key;
  status = RuleStatus.fail;
  threshold = threshold;
  observed_value = observed_value;
  evidence_references = references;
  reason_codes = codes;
}

abbrev pub unknown : RuleKey → String → Option String → List String → List ReasonCode → RuleResult
unknown key threshold observed_value references codes = record {
  key = key;
  status = RuleStatus.unknown;
  threshold = threshold;
  observed_value = observed_value;
  evidence_references = references;
  reason_codes = codes;
}

abbrev or_first : ReasonCode → List ReasonCode → List ReasonCode
or_first first [] = first ∷ []
or_first first (code ∷ codes) = code ∷ codes

-- The candidates are `first` and `others`; the source reads `candidates[0]!`.
pub reasons_for : EvidenceReportDraft → ReasonCode → List ReasonCode → List ReasonCode
reasons_for draft first others =
    or_first first (keep (λ code. includes draft.reason_codes code) (first ∷ others))

abbrev allows : List String → String → Bool
allows assets key = any (λ asset. str_eq asset key) assets

module _ (p : Platform) where
  known_asset_of : Policy → Option String → RuleResult
  known_asset_of policy none =
      unknown underlying_asset (join ", " policy.underlying_assets) none ("vault.asset" ∷ [])
        (incompatible_asset ∷ [])
  known_asset_of policy (some observed) =
      if not (allows policy.underlying_assets observed)
      then fail underlying_asset (join ", " policy.underlying_assets) (some observed)
          ("vault.asset" ∷ []) (incompatible_asset ∷ [])
      else pass underlying_asset (join ", " policy.underlying_assets) (some observed)
          ("vault.asset" ∷ [])

  underlying_asset_of : Policy → Option AssetIdentityObservation → RuleResult
  unfolding known_asset_of
  underlying_asset_of policy none =
      unknown underlying_asset (join ", " policy.underlying_assets) none ("vault.asset" ∷ [])
        (call_reverted ∷ [])
  underlying_asset_of policy (some identity) = known_asset_of policy identity.canonical_key

  unfoldable pub evaluate_underlying_asset : EvaluationInput → RuleResult
  unfolding underlying_asset_of
  evaluate_underlying_asset input = underlying_asset_of input.policy input.asset_identity

  -- Seconds from the deployment to the report's block.
  age_of : Option String → String → Option ℤ
  age_of none as_of = none
  age_of (some deployed) as_of = seconds_between (p.date_parse deployed) (p.date_parse as_of)

  unfoldable pub age_seconds : EvaluationInput → Option ℤ
  unfolding age_of
  age_seconds input = age_of input.vault_deployed_at input.draft.as_of.timestamp

  pub days_text : ℤ → String
  days_text seconds = p.to_fixed seconds seconds_per_day <> " days"

  abbrev covered_text : Option ℤ → Option String
  covered_text none = none
  covered_text (some covered) = some (days_text covered)

  -- `value !== null && test(value)`
  abbrev present_and : Option ℤ → (ℤ → Bool) → Bool
  present_and none test = false
  present_and (some value) test = test value

  abbrev age_text : Option ℤ → Option String
  age_text none = none
  age_text (some age) = some (days_text age <> " since deployment")

  minimum_history_of : ℕ → Option ℤ → Option ℤ → RuleResult
  unfolding days_text
  minimum_history_of days covered age =
      let required = pos (days * seconds_per_day) in
      let threshold = p.show_int (pos days) <> " days" in
      let references = "vault_snapshot.start" ∷ "vault_snapshot.end" ∷ [] in
      if present_and covered (λ seconds. leb_ℤ required seconds)
      then pass minimum_history threshold (covered_text covered) references
      else if present_and age (λ seconds. ltb_ℤ seconds required)
      then fail minimum_history threshold (age_text age)
          (references ++ "vault.deploymentBlock" ∷ []) []
      else unknown minimum_history threshold (covered_text covered) references
          (missing_observation ∷ [])

  unfoldable pub evaluate_minimum_history : EvaluationInput → RuleResult
  unfolding minimum_history_of age_seconds
  evaluate_minimum_history input =
      minimum_history_of input.policy.min_history_days input.draft.elapsed_seconds
        (age_seconds input)

  minimum_tvl_of : EvidenceReportDraft → ℤ → Option ℤ → RuleResult
  unfolding reasons_for
  minimum_tvl_of draft threshold none =
      unknown minimum_tvl (p.show_int threshold) none ("vault_snapshot.end" ∷ [])
        (reasons_for draft call_reverted [])
  minimum_tvl_of draft threshold (some observed) =
      if leb_ℤ threshold observed
      then pass minimum_tvl (p.show_int threshold) (some (p.show_int observed))
          ("vault_snapshot.end" ∷ [])
      else fail minimum_tvl (p.show_int threshold) (some (p.show_int observed))
          ("vault_snapshot.end" ∷ []) []

  unfoldable pub evaluate_minimum_tvl : EvaluationInput → RuleResult
  unfolding minimum_tvl_of
  evaluate_minimum_tvl input =
      minimum_tvl_of input.draft input.policy.min_tvl_assets input.draft.observations.total_assets

  minimum_observed_return_of : EvidenceReportDraft → ReturnRule → Option ShareValue → RuleResult
  unfolding reasons_for
  minimum_observed_return_of draft rule value =
      let threshold =
        p.show_int rule.value <> " bps over " <> p.show_int (pos rule.window_days) <> " days" in
      let references = "vault_snapshot.start" ∷ "vault_snapshot.end" ∷ [] in
      elim value [
        | none ↦ unknown minimum_observed_return threshold none references (
            reasons_for draft missing_observation
              (ambiguous_capability ∷ incompatible_implementation ∷ incompatible_asset ∷ []))
        | some share_value ↦
            if not (share_value.window_days == rule.window_days)
            then unknown minimum_observed_return threshold
                (some (
                  p.show_int share_value.return_bps
                  <> " bps over "
                  <> p.show_int (pos share_value.window_days)
                  <> " days"))
                references (missing_observation ∷ [])
            else if leb_ℤ rule.value share_value.return_bps
            then pass minimum_observed_return threshold
                (some (p.show_int share_value.return_bps <> " bps")) references
            else fail minimum_observed_return threshold
                (some (p.show_int share_value.return_bps <> " bps")) references []
      ]

  unfoldable pub evaluate_minimum_observed_return : EvaluationInput → RuleResult
  unfolding minimum_observed_return_of
  evaluate_minimum_observed_return input =
      minimum_observed_return_of input.draft input.policy.min_observed_return_bps
        input.draft.observations.share_value

  minimum_withdrawable_of :
      EvidenceReportDraft → WithdrawableRule → Option String → Option ℤ → RuleResult
  unfolding reasons_for
  minimum_withdrawable_of draft rule none observed =
      unknown minimum_withdrawable_assets (p.show_int rule.value) none
        ("account_limits.maxWithdraw" ∷ []) (missing_observation ∷ [])
  minimum_withdrawable_of draft rule (some owner) observed =
      let threshold = p.show_int rule.value in
      let references = "account_limits.maxWithdraw" ∷ [] in
      if not (str_eq (p.to_lower owner) (p.to_lower rule.owner))
      then unknown minimum_withdrawable_assets threshold none references
          (wallet_context_changed ∷ [])
      else elim observed [
        | none ↦
            unknown minimum_withdrawable_assets threshold none references
              (reasons_for draft ambiguous_capability (call_reverted ∷ unsupported_capability ∷ []))
        | some assets ↦
            if leb_ℤ rule.value assets
            then pass minimum_withdrawable_assets threshold (some (p.show_int assets)) references
            else fail minimum_withdrawable_assets threshold (some (p.show_int assets)) references []
      ]

  unfoldable pub evaluate_minimum_withdrawable : EvaluationInput → RuleResult
  unfolding minimum_withdrawable_of
  evaluate_minimum_withdrawable input =
      minimum_withdrawable_of input.draft input.policy.min_withdrawable_assets input.observed_owner
        input.draft.observations.max_withdraw_assets

-- ===== src/Policy/Rules/Verdicts.antt =====
-- What each status of a rule in packages/policy/src/evaluate.ts says of the evidence.
use tr4ce_app.Prelude.{
  ℕ, ◌*◌, ◌≡◌, ◌↔◌, ◌⊎◌, inl, inr, refl, true, Option, none, some, List, [], ◌∷◌, String, arith,
  any, Bool-cases, subst, sym,
}
use text.Mathlib.TextEquality.{eq_iff}
use tr4ce_app.Prelude.Int.{ℤ, pos, ◌≤ℤ◌, ◌<ℤ◌, leb_ℤ}
use tr4ce_app.Prelude.Text.{str_eq}
use tr4ce_app.Platform.{Platform}
use tr4ce_app.Domain.{RuleStatus}
use tr4ce_app.Domain.Policy.{Policy, ReturnRule, WithdrawableRule}
use tr4ce_app.Evidence.Input.{ShareValue, EvidenceReportDraft}
use tr4ce_app.Policy.Rules.{
  AssetIdentityObservation, EvaluationInput, evaluate_underlying_asset, evaluate_minimum_history,
  evaluate_minimum_tvl, evaluate_minimum_observed_return, evaluate_minimum_withdrawable,
  age_seconds, underlying_asset_of, known_asset_of, minimum_history_of, minimum_tvl_of,
  minimum_observed_return_of, minimum_withdrawable_of,
}

some_eq : {a b : String} → some a ≡ some b → a ≡ b
some_eq e = cc

leb_ℤ_iff : (a b : ℤ) → (leb_ℤ a b ≡ true) ↔ (a ≤ℤ b)
leb_ℤ_iff a b = ground arith

-- The amount is there and reaches the threshold; it is there and falls short.
abbrev pub Reaches : ℤ → Option ℤ → Type 0
Reaches t o = (a : ℤ) × (o ≡ some a) × (t ≤ℤ a)

abbrev pub FallsShort : ℤ → Option ℤ → Type 0
FallsShort t o = (a : ℤ) × (o ≡ some a) × (a <ℤ t)

-- A member of the list of allowed keys.
abbrev pub IsIn : String → List String → Type 0
IsIn k [] = ⊥
IsIn k (x ∷ xs) = (x ≡ k) ⊎ IsIn k xs

any_iff : (k : String) (xs : List String) → (any (λ x. str_eq x k) xs ≡ true) ↔ IsIn k xs
any_iff k [] = (λ e. cc, λ h. absurd h)
any_iff k (x ∷ xs) = ground (arith, any_iff k xs, eq_iff x k)

-- The registry's key for the asset that the vault reported, if both are there.
abbrev pub key_of : Option AssetIdentityObservation → Option String
key_of none = none
key_of (some identity) = identity.canonical_key

abbrev pub Allowed : List String → Option String → Type 0
Allowed assets key = (k : String) × (key ≡ some k) × IsIn k assets

abbrev pub Refused : List String → Option String → Type 0
Refused assets key = (k : String) × (key ≡ some k) × ¬ IsIn k assets

abbrev pub Covers : ℕ → Option ℤ → Type 0
Covers days covered = Reaches (pos (days * 86400)) covered

abbrev pub Returned : ReturnRule → Option ShareValue → Type 0
Returned rule o =
    (v : ShareValue) × (o ≡ some v)
    × (v.window_days ≡ rule.window_days)
    × (rule.value ≤ℤ v.return_bps)

abbrev pub ReturnedLess : ReturnRule → Option ShareValue → Type 0
ReturnedLess rule o =
    (v : ShareValue) × (o ≡ some v)
    × (v.window_days ≡ rule.window_days)
    × (v.return_bps <ℤ rule.value)

module _ (p : Platform) where
  abbrev pub SameOwner : WithdrawableRule → Option String → Type 0
  SameOwner rule o =
      (owner : String) × (o ≡ some owner) × (p.to_lower owner ≡ p.to_lower rule.owner)

  tvl_pass :
      (d : EvidenceReportDraft) (t : ℤ) (o : Option ℤ)
      → ((minimum_tvl_of p d t o).status ≡ RuleStatus.pass) ↔ Reaches t o
  unfolding minimum_tvl_of
  tvl_pass d t none = (λ e. cc, λ (a, e, h). cc)
  tvl_pass d t (some b) = (λ e. (b, refl, ground arith), λ (a, e, h). ground arith)

  tvl_fail :
      (d : EvidenceReportDraft) (t : ℤ) (o : Option ℤ)
      → ((minimum_tvl_of p d t o).status ≡ RuleStatus.fail) ↔ FallsShort t o
  unfolding minimum_tvl_of
  tvl_fail d t none = (λ e. cc, λ (a, e, h). cc)
  tvl_fail d t (some b) = (λ e. (b, refl, ground arith), λ (a, e, h). ground arith)

  return_pass :
      (d : EvidenceReportDraft) (r : ReturnRule) (o : Option ShareValue)
      → ((minimum_observed_return_of p d r o).status ≡ RuleStatus.pass) ↔ Returned r o
  unfolding minimum_observed_return_of
  return_pass d r none = (λ e. cc, λ (a, e, w, h). cc)
  return_pass d r (some v) =
      (λ e. (v, refl, ground arith, ground arith), λ (a, e, w, h). ground arith)

  return_fail :
      (d : EvidenceReportDraft) (r : ReturnRule) (o : Option ShareValue)
      → ((minimum_observed_return_of p d r o).status ≡ RuleStatus.fail) ↔ ReturnedLess r o
  unfolding minimum_observed_return_of
  return_fail d r none = (λ e. cc, λ (a, e, w, h). cc)
  return_fail d r (some v) =
      (λ e. (v, refl, ground arith, ground arith), λ (a, e, w, h). ground arith)

  history_pass :
      (days : ℕ) (covered age : Option ℤ)
      → ((minimum_history_of p days covered age).status ≡ RuleStatus.pass) ↔ Covers days covered
  unfolding minimum_history_of
  history_pass days none age = (λ e. ground arith, λ (a, e, h). cc)
  history_pass days (some c) age = (λ e. (c, refl, ground arith), λ (a, e, h). ground arith)

  history_fail :
      (days : ℕ) (covered age : Option ℤ)
      → ((minimum_history_of p days covered age).status ≡ RuleStatus.fail)
        ↔ (¬ Covers days covered × FallsShort (pos (days * 86400)) age)
  unfolding minimum_history_of
  history_fail days none none = (λ e. cc, λ (n, f). cc f.1)
  history_fail days none (some g) =
      (λ e. (λ (a, e, h). cc, (g, refl, ground arith)), λ (n, f). ground arith)
  history_fail days (some c) none = (λ e. ground arith, λ (n, f). cc f.1)
  history_fail days (some c) (some g) = (
    λ e. (λ (a, q, h). ground arith, (g, refl, ground arith)),
    λ (n, f). elim (Bool-cases (leb_ℤ (pos (days * 86400)) c)) [
      | inl reached ↦ absurd (n (c, refl, (leb_ℤ_iff (pos (days * 86400)) c).0 reached))
      | inr below ↦ rw below (ground arith)
    ],
  )

  known_pass :
      (policy : Policy) (key : Option String)
      → ((known_asset_of p policy key).status ≡ RuleStatus.pass)
        ↔ Allowed policy.underlying_assets key
  unfolding known_asset_of
  known_pass policy none = (λ e. cc, λ (k, e, h). cc)
  known_pass policy (some k) = (
    λ e. (k, refl, ground (arith, any_iff k policy.underlying_assets)),
    λ (j, e, h).
        let member : IsIn k policy.underlying_assets =
          subst (λ t. IsIn t policy.underlying_assets) (sym (some_eq e)) h in
        ground (arith, any_iff k policy.underlying_assets),
  )

  known_fail :
      (policy : Policy) (key : Option String)
      → ((known_asset_of p policy key).status ≡ RuleStatus.fail)
        ↔ Refused policy.underlying_assets key
  unfolding known_asset_of
  known_fail policy none = (λ e. cc, λ (k, e, h). cc)
  known_fail policy (some k) = (
    λ e. (k, refl, ground (arith, any_iff k policy.underlying_assets)),
    λ (j, e, h).
        let other : ¬ IsIn k policy.underlying_assets =
          λ m. h (subst (λ t. IsIn t policy.underlying_assets) (some_eq e) m) in
        ground (arith, any_iff k policy.underlying_assets),
  )

  asset_pass :
      (policy : Policy) (o : Option AssetIdentityObservation)
      → ((underlying_asset_of p policy o).status ≡ RuleStatus.pass)
        ↔ Allowed policy.underlying_assets (key_of o)
  unfolding underlying_asset_of
  asset_pass policy none = (λ e. cc, λ (k, e, h). cc)
  asset_pass policy (some i) = known_pass policy i.canonical_key

  asset_fail :
      (policy : Policy) (o : Option AssetIdentityObservation)
      → ((underlying_asset_of p policy o).status ≡ RuleStatus.fail)
        ↔ Refused policy.underlying_assets (key_of o)
  unfolding underlying_asset_of
  asset_fail policy none = (λ e. cc, λ (k, e, h). cc)
  asset_fail policy (some i) = known_fail policy i.canonical_key

  withdrawable_pass :
      (d : EvidenceReportDraft) (r : WithdrawableRule) (o : Option String) (a : Option ℤ)
      → ((minimum_withdrawable_of p d r o a).status ≡ RuleStatus.pass)
        ↔ (SameOwner r o × Reaches r.value a)
  unfolding minimum_withdrawable_of
  withdrawable_pass d r none a = (λ e. cc, λ (s, h). cc s.1)
  withdrawable_pass d r (some o) none = (λ e. ground arith, λ (s, h). cc h.1)
  withdrawable_pass d r (some o) (some a) = (
    λ e. (
      (o, refl, ground (arith, eq_iff (p.to_lower o) (p.to_lower r.owner))),
      (a, refl, ground arith),
    ),
    λ (s, h). ground (arith, eq_iff (p.to_lower o) (p.to_lower r.owner)),
  )

  withdrawable_fail :
      (d : EvidenceReportDraft) (r : WithdrawableRule) (o : Option String) (a : Option ℤ)
      → ((minimum_withdrawable_of p d r o a).status ≡ RuleStatus.fail)
        ↔ (SameOwner r o × FallsShort r.value a)
  unfolding minimum_withdrawable_of
  withdrawable_fail d r none a = (λ e. cc, λ (s, h). cc s.1)
  withdrawable_fail d r (some o) none = (λ e. ground arith, λ (s, h). cc h.1)
  withdrawable_fail d r (some o) (some a) = (
    λ e. (
      (o, refl, ground (arith, eq_iff (p.to_lower o) (p.to_lower r.owner))),
      (a, refl, ground arith),
    ),
    λ (s, h). ground (arith, eq_iff (p.to_lower o) (p.to_lower r.owner)),
  )

-- For each rule, what PASS and what FAIL mean.
module _ (p : Platform) (input : EvaluationInput) where
  pub asset_verdict :
      (((evaluate_underlying_asset p input).status ≡ RuleStatus.pass)
        ↔ Allowed input.policy.underlying_assets (key_of input.asset_identity))
      × (((evaluate_underlying_asset p input).status ≡ RuleStatus.fail)
          ↔ Refused input.policy.underlying_assets (key_of input.asset_identity))
  unfolding evaluate_underlying_asset
  asset_verdict = (
    asset_pass p input.policy input.asset_identity,
    asset_fail p input.policy input.asset_identity,
  )

  pub history_verdict :
      (((evaluate_minimum_history p input).status ≡ RuleStatus.pass)
        ↔ Covers input.policy.min_history_days input.draft.elapsed_seconds)
      × (((evaluate_minimum_history p input).status ≡ RuleStatus.fail) ↔ (
          ¬ Covers input.policy.min_history_days input.draft.elapsed_seconds
          × FallsShort (pos (input.policy.min_history_days * 86400)) (age_seconds p input)))
  unfolding evaluate_minimum_history
  history_verdict = (
    history_pass p input.policy.min_history_days input.draft.elapsed_seconds (age_seconds p input),
    history_fail p input.policy.min_history_days input.draft.elapsed_seconds (age_seconds p input),
  )

  pub tvl_verdict :
      (((evaluate_minimum_tvl p input).status ≡ RuleStatus.pass)
        ↔ Reaches input.policy.min_tvl_assets input.draft.observations.total_assets)
      × (((evaluate_minimum_tvl p input).status ≡ RuleStatus.fail)
          ↔ FallsShort input.policy.min_tvl_assets input.draft.observations.total_assets)
  unfolding evaluate_minimum_tvl
  tvl_verdict = (
    tvl_pass p input.draft input.policy.min_tvl_assets input.draft.observations.total_assets,
    tvl_fail p input.draft input.policy.min_tvl_assets input.draft.observations.total_assets,
  )

  pub return_verdict :
      (((evaluate_minimum_observed_return p input).status ≡ RuleStatus.pass)
        ↔ Returned input.policy.min_observed_return_bps input.draft.observations.share_value)
      × (((evaluate_minimum_observed_return p input).status ≡ RuleStatus.fail)
          ↔ ReturnedLess input.policy.min_observed_return_bps input.draft.observations.share_value)
  unfolding evaluate_minimum_observed_return
  return_verdict = (
    return_pass p input.draft input.policy.min_observed_return_bps
        input.draft.observations.share_value,
    return_fail p input.draft input.policy.min_observed_return_bps
        input.draft.observations.share_value,
  )

  pub withdrawable_verdict :
      (((evaluate_minimum_withdrawable p input).status ≡ RuleStatus.pass) ↔ (
        SameOwner p input.policy.min_withdrawable_assets input.observed_owner
        × Reaches input.policy.min_withdrawable_assets.value
            input.draft.observations.max_withdraw_assets))
      × (((evaluate_minimum_withdrawable p input).status ≡ RuleStatus.fail) ↔ (
          SameOwner p input.policy.min_withdrawable_assets input.observed_owner
          × FallsShort input.policy.min_withdrawable_assets.value
              input.draft.observations.max_withdraw_assets))
  unfolding evaluate_minimum_withdrawable
  withdrawable_verdict = (
    withdrawable_pass p input.draft input.policy.min_withdrawable_assets input.observed_owner
        input.draft.observations.max_withdraw_assets,
    withdrawable_fail p input.draft input.policy.min_withdrawable_assets input.observed_owner
        input.draft.observations.max_withdraw_assets,
  )

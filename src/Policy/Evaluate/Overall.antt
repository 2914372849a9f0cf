-- ===== src/Policy/Evaluate/Overall.antt =====
-- The truth table of `overallStatus` in packages/policy/src/evaluate.ts, for any list of rules.
use tr4ce_app.Prelude.{◌≡◌, ◌≢◌, ◌↔◌, ◌⊎◌, inl, inr, refl, true, List, [], ◌∷◌, arith, All, any}
use tr4ce_app.Domain.{RuleStatus}
use tr4ce_app.Domain.Policy.{RuleResult}
use tr4ce_app.Policy.Evaluate.{is_fail, is_unknown, overall_status}

-- Some rule has the status.
abbrev pub Some : RuleStatus → List RuleResult → Type 0
Some s [] = ⊥
Some s (rule ∷ rules) = (rule.status ≡ s) ⊎ Some s rules

is_fail_iff : (s : RuleStatus) → (is_fail s ≡ true) ↔ (s ≡ RuleStatus.fail)
is_fail_iff s = ground arith

is_unknown_iff : (s : RuleStatus) → (is_unknown s ≡ true) ↔ (s ≡ RuleStatus.unknown)
is_unknown_iff s = ground arith

any-fail_iff :
    (rules : List RuleResult)
    → (any (λ rule. is_fail rule.status) rules ≡ true) ↔ Some RuleStatus.fail rules
any-fail_iff [] = (λ e. cc, λ h. absurd h)
any-fail_iff (rule ∷ rules) = ground (arith, any-fail_iff rules, is_fail_iff rule.status)

any-unknown_iff :
    (rules : List RuleResult)
    → (any (λ rule. is_unknown rule.status) rules ≡ true) ↔ Some RuleStatus.unknown rules
any-unknown_iff [] = (λ e. cc, λ h. absurd h)
any-unknown_iff (rule ∷ rules) = ground (arith, any-unknown_iff rules, is_unknown_iff rule.status)

All-pass :
    (rules : List RuleResult)
    → ¬ Some RuleStatus.fail rules
    → ¬ Some RuleStatus.unknown rules
    → All (λ rule. rule.status ≡ RuleStatus.pass) rules
All-pass [] f u = tt
All-pass (rule ∷ rules) f u = (
  passes rule.status (λ e. f (inl e)) (λ e. u (inl e)),
  All-pass rules (λ h. f (inr h)) (λ h. u (inr h)),
)
  where
    passes : (s : RuleStatus) → s ≢ RuleStatus.fail → s ≢ RuleStatus.unknown → s ≡ RuleStatus.pass
    passes RuleStatus.pass f u = refl
    passes RuleStatus.fail f u = absurd (f refl)
    passes RuleStatus.unknown f u = absurd (u refl)

none_other :
    (s : RuleStatus) (rules : List RuleResult)
    → s ≢ RuleStatus.pass
    → All (λ rule. rule.status ≡ RuleStatus.pass) rules
    → ¬ Some s rules
none_other s [] n a h = h
none_other s (rule ∷ rules) n (here, rest) (inl e) = n (cc)
none_other s (rule ∷ rules) n (here, rest) (inr h) = none_other s rules n rest h

-- FAIL exactly when some rule fails, whatever the others say.
pub overall_status-fail_iff :
    (rules : List RuleResult)
    → (overall_status rules ≡ RuleStatus.fail) ↔ Some RuleStatus.fail rules
unfolding overall_status
overall_status-fail_iff rules = ground (arith, any-fail_iff rules)

-- UNKNOWN exactly when some rule is unknown and none fails.
pub overall_status-unknown_iff :
    (rules : List RuleResult)
    → (overall_status rules ≡ RuleStatus.unknown)
      ↔ (Some RuleStatus.unknown rules × ¬ Some RuleStatus.fail rules)
unfolding overall_status
overall_status-unknown_iff rules = ground (arith, any-fail_iff rules, any-unknown_iff rules)

overall_cases :
    (rules : List RuleResult)
    → overall_status rules ≢ RuleStatus.fail
    → overall_status rules ≢ RuleStatus.unknown
    → overall_status rules ≡ RuleStatus.pass
unfolding overall_status
overall_cases rules f u = ground arith

-- PASS exactly when every rule passes.
pub overall_status-pass_iff :
    (rules : List RuleResult)
    → (overall_status rules ≡ RuleStatus.pass) ↔ All (λ rule. rule.status ≡ RuleStatus.pass) rules
overall_status-pass_iff rules =
    let no_fail : overall_status rules ≡ RuleStatus.pass → ¬ Some RuleStatus.fail rules =
      λ e h. differ _ e ((overall_status-fail_iff rules).1 h) in
    (
      λ e.
          All-pass rules (no_fail e)
            (λ h. differ_unknown _ e ((overall_status-unknown_iff rules).1 (h, no_fail e))),
      λ a.
          overall_cases rules
            (λ e.
              none_other RuleStatus.fail rules (λ d. cc) a ((overall_status-fail_iff rules).0 e))
            (λ e.
              none_other RuleStatus.unknown rules (λ d. cc) a
                ((overall_status-unknown_iff rules).0 e).0),
    )
  where
    differ : (s : RuleStatus) → s ≡ RuleStatus.pass → s ≡ RuleStatus.fail → ⊥
    differ s e f = cc

    differ_unknown : (s : RuleStatus) → s ≡ RuleStatus.pass → s ≡ RuleStatus.unknown → ⊥
    differ_unknown s e f = cc

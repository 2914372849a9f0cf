-- ===== src/Evidence/Report/Explained.antt =====
-- The reason codes that the steps of `buildEvidence` in packages/evidence/src/report.ts give for the
-- values that they cannot read.
use tr4ce_app.Prelude.{
  ◌≡◌, refl, ap, ◌∙◌, subst, Bool, true, false, not, Option, none, some, List, [], ◌∷◌, ◌++◌, ok,
  if◌then◌else◌, >>=-eq-ok, ok_inj, ==_iff, any-append, any-last,
}
use tr4ce_app.Prelude.Int.{ℤ}
use tr4ce_app.Domain.{ReasonCode, call_reverted, max_withdraw, same_code, ambiguous_capability}
use tr4ce_app.Evidence.Capability.{is_usable}
use tr4ce_app.Evidence.Rational.{BasisPoints}
use tr4ce_app.Evidence.ShareValue.{
  ShareValueResult, observed, unavailable, failure_code, observe_share_value,
}
use tr4ce_app.Evidence.Input.{AccountLimitObservation, EvidenceInput, ShareValue}
use tr4ce_app.Evidence.Report.{
  includes, start_amount, share_value_of, share_value_result, build_share_value, read_total_assets,
  read_total_assets_of, read_max_withdraw, read_max_withdraw_of,
}

pub same_code_self : (c : ReasonCode) → same_code c c ≡ true
same_code_self c = (==_iff _ _).1 refl

-- Some reason is given.
abbrev pub Explained : List ReasonCode → Type 0
Explained codes = (c : ReasonCode) × (includes codes c ≡ true)

pub Explained-last : (codes : List ReasonCode) (c : ReasonCode) → Explained (codes ++ c ∷ [])
Explained-last codes c = (c, any-last (λ d. same_code d c) codes c (same_code_self c))

Explained-append : (codes more : List ReasonCode) → Explained codes → Explained (codes ++ more)
Explained-append codes more (c, h) = (c, any-append (λ d. same_code d c) codes more h)

-- The codes after a read: an absent value has one, and the reasons given before stay.
pub record Tracks (value : Option ℤ) (before after : List ReasonCode) : Type 0 where
  pub absent : value ≡ none → Explained after
  pub keeps : Explained before → Explained after

read_total_assets_of-Tracks :
    (o : Option ℤ) (codes : List ReasonCode)
    → Tracks (read_total_assets_of o codes).0 codes (read_total_assets_of o codes).1
unfolding read_total_assets_of
read_total_assets_of-Tracks none codes = record {
  absent = λ n. Explained-last codes call_reverted;
  keeps = λ h. Explained-append codes _ h;
}
read_total_assets_of-Tracks (some a) codes = record { absent = λ n. cc; keeps = λ h. h }

pub read_total_assets-Tracks :
    (input : EvidenceInput) (codes : List ReasonCode)
    → Tracks (read_total_assets input codes).0 codes (read_total_assets input codes).1
unfolding read_total_assets
read_total_assets-Tracks input codes = read_total_assets_of-Tracks input.end.total_assets codes

read_max_withdraw_of-keeps :
    (o : Option AccountLimitObservation) (codes : List ReasonCode)
    → Explained codes
    → Explained (read_max_withdraw_of o codes).1
unfolding read_max_withdraw_of
read_max_withdraw_of-keeps none codes h = h
read_max_withdraw_of-keeps (some limits) codes h =
    by_test (not (is_usable limits.probes max_withdraw))
  where
    by_test :
        (t : Bool)
        → Explained
            (if t
              then (none, codes ++ ambiguous_capability ∷ [])
              else read_total_assets_of limits.max_withdraw_assets codes).1
    by_test true = Explained-append codes _ h
    by_test false = (read_total_assets_of-Tracks limits.max_withdraw_assets codes).keeps h

pub read_max_withdraw-keeps :
    (input : EvidenceInput) (codes : List ReasonCode)
    → Explained codes
    → Explained (read_max_withdraw input codes).1
unfolding read_max_withdraw
read_max_withdraw-keeps input codes h = read_max_withdraw_of-keeps input.account_limits codes h

-- A withdrawal limit comes only from a probe of `maxWithdraw` that was supported.
pub read_max_withdraw-some :
    (input : EvidenceInput) (codes : List ReasonCode) (assets : ℤ) (after : List ReasonCode)
    → read_max_withdraw input codes ≡ (some assets, after)
    → (limits : AccountLimitObservation) × (input.account_limits ≡ some limits)
      × (is_usable limits.probes max_withdraw ≡ true)
      × (limits.max_withdraw_assets ≡ some assets)
unfolding read_max_withdraw read_max_withdraw_of read_total_assets_of
read_max_withdraw-some input codes assets after e = of_limits input.account_limits refl e
  where
    tested :
        (limits : AccountLimitObservation) (t : Bool) (o : Option ℤ)
        → (if not t
            then (none, codes ++ ambiguous_capability ∷ [])
            else read_total_assets_of o codes)
          ≡ (some assets, after)
        → (t ≡ true) × (o ≡ some assets)
    tested limits false o e = cc
    tested limits true none e = cc
    tested limits true (some a) e = (refl, ap (λ q. q.0) e)

    of_limits :
        (o : Option AccountLimitObservation)
        → input.account_limits ≡ o
        → read_max_withdraw_of o codes ≡ (some assets, after)
        → (limits : AccountLimitObservation) × (input.account_limits ≡ some limits)
          × (is_usable limits.probes max_withdraw ≡ true)
          × (limits.max_withdraw_assets ≡ some assets)
    of_limits none f e = cc
    of_limits (some limits) f e =
        let (usable, known) =
          tested limits (is_usable limits.probes max_withdraw) limits.max_withdraw_assets e in
        (limits, f, usable, known)

-- A share value is withheld only with a code, and one that is given is computed from the two amounts
-- observed.
pub build_share_value-Explained :
    (input : EvidenceInput) (codes : List ReasonCode) (value : Option ShareValue)
    (after : List ReasonCode)
    → build_share_value input codes ≡ ok (value, after)
    → value ≡ none
    → Explained after
unfolding build_share_value share_value_result share_value_of
build_share_value-Explained input codes value after e n =
    let (result, _, e1) =
      >>=-eq-ok (observe_share_value (start_amount input.start) input.end.one_share_assets) _ e in
    of_result result e1
  where
    given_some :
        (s t : Option ℤ) (points : BasisPoints) (found : Option ShareValue)
        → share_value_of input s t points ≡ ok found
        → found ≡ none
        → ⊥
    given_some (some s) (some t) points found e n = cc (ok_inj e ∙ n)
    given_some none t points found e n = cc
    given_some (some s) none points found e n = cc

    of_result :
        (r : ShareValueResult)
        → share_value_result input codes r ≡ ok (value, after)
        → Explained after
    of_result (unavailable failure) e =
        subst Explained (ap (λ q. q.1) (ok_inj e)) (Explained-last codes (failure_code failure))
    of_result (observed points) e =
        let (found, given, e2) =
          >>=-eq-ok
            (share_value_of input (start_amount input.start) input.end.one_share_assets points) _
            e in
        absurd (
          given_some (start_amount input.start) input.end.one_share_assets points found given
            (ap (λ q. q.0) (ok_inj e2) ∙ n))

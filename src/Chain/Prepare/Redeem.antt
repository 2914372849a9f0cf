-- ===== src/Chain/Prepare/Redeem.antt =====
-- When `prepareRedeem` of packages/chain/src/prepare.ts has a call.
use tr4ce_app.Prelude.{
  ◌≡◌, ◌⊎◌, inl, inr, refl, false, Option, none, some, [], ◌∷◌, ok, arith, throw_if-ok, ok_inj,
  >>=-eq-ok, subst,
}
use tr4ce_app.Prelude.Int.{ℤ, pos, leb_ℤ, ltb_ℤ, eqb_ℤ_iff, ◌≤ℤ◌, ◌<ℤ◌}
use tr4ce_app.Platform.{Platform}
use tr4ce_app.Chain.Prepare.{
  Answers, preview_unavailable, read_failed, RedeemRequest, PreparedRedeem, required, redeem_call,
  redeem_check, prepared_redeem, prepare_redeem,
}
use tr4ce_app.Chain.Prepare.Deposit.{required-some, leb_false, ltb_false}

-- A limit refuses only where it is stated, is below the shares, and is no zero to an owner who holds some.
abbrev pub RedeemAllows : ℤ → ℤ → Option ℤ → Type 0
RedeemAllows shares balance none = Unit
RedeemAllows shares balance (some limit) =
    ((limit ≡ pos 0) × (pos 0 <ℤ balance)) ⊎ (shares ≤ℤ limit)

redeem_check-RedeemAllows :
    (shares balance : ℤ) (limit : Option ℤ) {u : Unit}
    → redeem_check shares balance limit ≡ ok u
    → RedeemAllows shares balance limit
redeem_check-RedeemAllows shares balance none e = tt
redeem_check-RedeemAllows shares balance (some limit) e = ground (arith, e, eqb_ℤ_iff limit (pos 0))

RedeemAllows-redeem_check :
    (shares balance : ℤ) (limit : Option ℤ)
    → RedeemAllows shares balance limit
    → redeem_check shares balance limit ≡ ok tt
RedeemAllows-redeem_check shares balance none h = refl
RedeemAllows-redeem_check shares balance (some limit) (inl (z, b)) =
    ground (arith, eqb_ℤ_iff limit (pos 0))
RedeemAllows-redeem_check shares balance (some limit) (inr h) = ground arith

-- The preconditions of a redemption.
pub record Redeemable (answers : Answers) (request : RedeemRequest) : Type 0 where
  pub positive : pos 0 <ℤ request.shares
  pub held :
      (balance : ℤ) × (answers.balance ≡ some balance)
      × (request.shares ≤ℤ balance)
      × RedeemAllows request.shares balance answers.max_redeem
  pub preview : (assets : ℤ) × (answers.preview ≡ some assets)

-- Where a redemption is prepared, its preconditions hold, and it is the one call to the vault.
prepare_redeem-Redeemable :
    (p : Platform) (answers : Answers) (request : RedeemRequest) (value : PreparedRedeem)
    → prepare_redeem p answers request ≡ ok value
    → Redeemable answers request × (value.calls ≡ redeem_call p answers.chain_id request ∷ [])
unfolding prepare_redeem
prepare_redeem-Redeemable p answers request value e =
    let (c1, e1) = throw_if-ok (leb_ℤ request.shares (pos 0)) _ _ e in
    let (balance, c2, e2) = >>=-eq-ok (required (read_failed "balanceOf") answers.balance) _ e1 in
    let (c3, e3) = throw_if-ok (ltb_ℤ balance request.shares) _ _ e2 in
    let (preview, c4, e4) = >>=-eq-ok (required preview_unavailable answers.preview) _ e3 in
    let (_, c5, e5) = >>=-eq-ok (redeem_check request.shares balance answers.max_redeem) _ e4 in
    (
      record {
        positive = leb_false request.shares (pos 0) c1;
        held = (
          balance,
          required-some _ _ c2,
          ltb_false balance request.shares c3,
          redeem_check-RedeemAllows request.shares balance answers.max_redeem c5,
        );
        preview = (preview, required-some _ _ c4);
      },
      subst (λ v. v.calls ≡ redeem_call p answers.chain_id request ∷ []) (ok_inj e5) refl,
    )

-- Where the preconditions hold a redemption is prepared, also where the vault's limit is a zero to an owner
-- who holds shares.
pub Redeemable-prepare_redeem :
    (p : Platform) (answers : Answers) (request : RedeemRequest)
    → Redeemable answers request
    → (value : PreparedRedeem) × (prepare_redeem p answers request ≡ ok value)
unfolding prepare_redeem
Redeemable-prepare_redeem p answers request h =
    let (balance, b, enough, allowed) = h.held in
    let (preview, a) = h.preview in
    let positive : leb_ℤ request.shares (pos 0) ≡ false = leb_of h.positive in
    let covered : ltb_ℤ balance request.shares ≡ false = ltb_of balance enough in
    (
      prepared_redeem p answers request balance preview,
      rw (
        positive,
        b,
        covered,
        a,
        RedeemAllows-redeem_check request.shares balance answers.max_redeem allowed,
      ),
    )
  where
    leb_of : pos 0 <ℤ request.shares → leb_ℤ request.shares (pos 0) ≡ false
    leb_of h = ground arith

    ltb_of : (balance : ℤ) → request.shares ≤ℤ balance → ltb_ℤ balance request.shares ≡ false
    ltb_of balance h = ground arith

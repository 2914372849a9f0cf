-- ===== src/Chain/Prepare/Deposit.antt =====
-- When `prepareDeposit` of packages/chain/src/prepare.ts has calls, and which.
use tr4ce_app.Prelude.{
  ◌≡◌, ◌≢◌, ◌⊎◌, refl, ap, Bool, true, false, not, Option, none, some, [], ◌∷◌, String, ok, arith,
  ok_inj, or_else,
}
use tr4ce_app.Prelude.Int.{ℤ, pos, leb_ℤ, ltb_ℤ, ◌≤ℤ◌, ◌<ℤ◌, eqb_ℤ_of_ne}
use tr4ce_app.Prelude.Text.{str_eq}
use tr4ce_app.Platform.{Platform}
use tr4ce_app.Chain.Prepare.{
  Answers, PrepareFailure, DepositRequest, PreparedDeposit, required, limit_check, approve_call,
  deposit_call, prepared_deposit, prepare_deposit,
}

pub required-some :
    {A : Type 0} (failure : PrepareFailure) (o : Option A) {a : A}
    → required failure o ≡ ok a
    → o ≡ some a
required-some failure none e = cc
required-some failure (some a) e = ap (λ b. some b) (ok_inj e)

-- A limit that the vault states is not below the amount.
abbrev pub Allows : ℤ → Option ℤ → Type 0
Allows amount none = Unit
Allows amount (some limit) = amount ≤ℤ limit

Allows-limit_check :
    (amount : ℤ) (limit : Option ℤ) → Allows amount limit → limit_check amount limit ≡ ok tt
Allows-limit_check amount none h = refl
Allows-limit_check amount (some limit) h = ground arith

-- The preconditions of a deposit.
pub record Depositable (p : Platform) (answers : Answers) (request : DepositRequest) : Type 0 where
  pub positive : pos 0 <ℤ request.assets
  pub asset :
      (a : String) × (answers.asset ≡ some a)
      × (str_eq (p.to_lower a) (p.to_lower request.asset) ≡ true)
  pub balance : (b : ℤ) × (answers.balance ≡ some b) × (request.assets ≤ℤ b)
  pub limit : Allows request.assets answers.max_deposit
  pub preview : (s : ℤ) × (answers.preview ≡ some s) × (s ≢ pos 0)

pub not-false : (b : Bool) → not b ≡ false → b ≡ true
not-false true e = refl
not-false false e = cc

pub leb_false : (a b : ℤ) → leb_ℤ a b ≡ false → b <ℤ a
leb_false a b e = ground arith

pub ltb_false : (a b : ℤ) → ltb_ℤ a b ≡ false → b ≤ℤ a
ltb_false a b e = ground arith

-- The deposit that is prepared: an approval of exactly the amount stands before it if and only if the
-- allowance, which is 0 where it was not read, is below the amount.
abbrev pub PreparedAs : Platform → Answers → DepositRequest → PreparedDeposit → Type 0
PreparedAs p answers request value =
    (value.allowance ≡ or_else answers.allowance (pos 0))
    × (((value.allowance <ℤ request.assets)
          × (value.calls
              ≡ approve_call p answers.chain_id request
                ∷ deposit_call p answers.chain_id request
                ∷ []))
        ⊎ ((request.assets ≤ℤ value.allowance)
            × (value.calls ≡ deposit_call p answers.chain_id request ∷ [])))

-- Where every precondition holds, a deposit is prepared.
pub Depositable-prepare_deposit :
    (p : Platform) (answers : Answers) (request : DepositRequest)
    → Depositable p answers request
    → (value : PreparedDeposit) × (prepare_deposit p answers request ≡ ok value)
unfolding prepare_deposit
Depositable-prepare_deposit p answers request h =
    let (asset, a, same) = h.asset in
    let (balance, b, enough) = h.balance in
    let (preview, s, some_shares) = h.preview in
    let positive : leb_ℤ request.assets (pos 0) ≡ false = leb_of h.positive in
    let covered : ltb_ℤ balance request.assets ≡ false = ltb_of balance enough in
    (
      prepared_deposit p answers request preview,
      rw (
        positive,
        a,
        same,
        b,
        covered,
        Allows-limit_check request.assets answers.max_deposit h.limit,
        s,
        eqb_ℤ_of_ne some_shares,
      ),
    )
  where
    leb_of : pos 0 <ℤ request.assets → leb_ℤ request.assets (pos 0) ≡ false
    leb_of h = ground arith

    ltb_of : (balance : ℤ) → request.assets ≤ℤ balance → ltb_ℤ balance request.assets ≡ false
    ltb_of balance h = ground arith

-- ===== src/Chain/Prepare.antt =====
-- packages/chain/src/prepare.ts: the calls of a deposit or a redemption, or the reason that there are none.
pub mod Deposit
pub mod Redeem
use tr4ce_app.Prelude.{
  ℕ, Bool, true, false, ◌&&◌, not, Option, none, some, List, [], ◌∷◌, ◌++◌, String, Result, ok, err,
  ◌>>=◌, ◌>>◌, throw_if, if◌then◌else◌, or_else,
}
use tr4ce_app.Prelude.Int.{ℤ, pos, leb_ℤ, ltb_ℤ, eqb_ℤ}
use tr4ce_app.Prelude.Text.{str_eq}
use tr4ce_app.Platform.{Platform}
use tr4ce_app.Actions.Store.{CallKind, approve, deposit, redeem, UnsignedTransaction}

-- What the vault and the token answer at the block of the reads; none is a call that failed. An amount of
-- a contract is never negative, and a request's may be any integer.
pub record Answers : Type 0 where
  pub chain_id : ℕ
  pub asset : Option String
  -- of the token for a deposit, of the vault for a redemption
  pub balance : Option ℤ
  pub allowance : Option ℤ
  pub preview : Option ℤ
  pub max_deposit : Option ℤ
  pub max_redeem : Option ℤ
  pub max_withdraw : Option ℤ

pub data PrepareFailure : Type 0 where
  amount_not_positive preview_unavailable preview_zero : PrepareFailure
  asset_mismatch : String → String → PrepareFailure
  -- what is required, and what is there
  insufficient_balance : ℤ → ℤ → PrepareFailure
  -- what is requested, and the limit
  limit_exceeded : ℤ → ℤ → PrepareFailure
  read_failed : String → PrepareFailure

pub record DepositRequest : Type 0 where
  pub vault : String
  pub asset : String
  pub owner : String
  pub receiver : String
  pub assets : ℤ

pub record PreparedDeposit : Type 0 where
  pub calls : List UnsignedTransaction
  pub previewed_shares : ℤ
  pub allowance : ℤ
  pub max_deposit : Option ℤ

abbrev pub required : {A : Type 0} → PrepareFailure → Option A → Result PrepareFailure A
required failure none = err failure
required failure (some a) = ok a

-- An unreadable limit refuses nothing.
abbrev pub limit_check : ℤ → Option ℤ → Result PrepareFailure Unit
limit_check amount none = ok tt
limit_check amount (some limit) = throw_if (ltb_ℤ limit amount) (limit_exceeded amount limit)

-- A call with no value.
abbrev pub call_to : ℕ → String → String → CallKind → UnsignedTransaction
call_to chain_id to data_hex kind = record {
  chain_id = chain_id;
  to = to;
  data_hex = data_hex;
  value = 0;
  kind = kind;
}

-- For exactly the amount of the deposit.
abbrev pub approve_call : Platform → ℕ → DepositRequest → UnsignedTransaction
approve_call p chain_id request =
    call_to chain_id request.asset
      (p.encode_call "approve" (request.vault ∷ p.show_int request.assets ∷ [])) approve

abbrev pub deposit_call : Platform → ℕ → DepositRequest → UnsignedTransaction
deposit_call p chain_id request =
    call_to chain_id request.vault
      (p.encode_call "deposit" (p.show_int request.assets ∷ request.receiver ∷ [])) deposit

abbrev pub approval : Platform → ℕ → DepositRequest → ℤ → List UnsignedTransaction
approval p chain_id request allowance =
    if ltb_ℤ allowance request.assets then approve_call p chain_id request ∷ [] else []

abbrev pub prepared_deposit : Platform → Answers → DepositRequest → ℤ → PreparedDeposit
prepared_deposit p answers request preview =
    let allowance = or_else answers.allowance (pos 0) in
    record {
      calls =
          approval p answers.chain_id request allowance
          ++ deposit_call p answers.chain_id request ∷ [];
      previewed_shares = preview;
      allowance = allowance;
      max_deposit = answers.max_deposit;
    }

unfoldable pub prepare_deposit :
    Platform → Answers → DepositRequest → Result PrepareFailure PreparedDeposit
prepare_deposit p answers request = do
  throw_if (leb_ℤ request.assets (pos 0)) amount_not_positive
  observed_asset ← required (read_failed "asset") answers.asset
  throw_if (not (str_eq (p.to_lower observed_asset) (p.to_lower request.asset)))
      (asset_mismatch request.asset observed_asset)
  balance ← required (read_failed "balanceOf") answers.balance
  throw_if (ltb_ℤ balance request.assets) (insufficient_balance request.assets balance)
  limit_check request.assets answers.max_deposit
  preview ← required preview_unavailable answers.preview
  throw_if (eqb_ℤ preview (pos 0)) preview_zero
  ok (prepared_deposit p answers request preview)

pub record RedeemRequest : Type 0 where
  pub vault : String
  pub owner : String
  pub receiver : String
  pub shares : ℤ

pub record PreparedRedeem : Type 0 where
  pub calls : List UnsignedTransaction
  pub previewed_assets : ℤ
  pub share_balance : ℤ
  pub max_redeem : Option ℤ
  pub max_withdraw : Option ℤ

abbrev pub redeem_call : Platform → ℕ → RedeemRequest → UnsignedTransaction
redeem_call p chain_id request =
    call_to chain_id request.vault
      (p.encode_call "redeem" (p.show_int request.shares ∷ request.receiver ∷ request.owner ∷ []))
      redeem

-- A zero to an owner who holds shares is no limit.
abbrev pub redeem_check : ℤ → ℤ → Option ℤ → Result PrepareFailure Unit
redeem_check shares balance none = ok tt
redeem_check shares balance (some limit) =
    let ambiguous_zero = eqb_ℤ limit (pos 0) && ltb_ℤ (pos 0) balance in
    throw_if (not ambiguous_zero && ltb_ℤ limit shares) (limit_exceeded shares limit)

abbrev pub prepared_redeem : Platform → Answers → RedeemRequest → ℤ → ℤ → PreparedRedeem
prepared_redeem p answers request balance preview = record {
  calls = redeem_call p answers.chain_id request ∷ [];
  previewed_assets = preview;
  share_balance = balance;
  max_redeem = answers.max_redeem;
  max_withdraw = answers.max_withdraw;
}

unfoldable pub prepare_redeem :
    Platform → Answers → RedeemRequest → Result PrepareFailure PreparedRedeem
prepare_redeem p answers request = do
  throw_if (leb_ℤ request.shares (pos 0)) amount_not_positive
  balance ← required (read_failed "balanceOf") answers.balance
  throw_if (ltb_ℤ balance request.shares) (insufficient_balance request.shares balance)
  preview ← required preview_unavailable answers.preview
  redeem_check request.shares balance answers.max_redeem
  ok (prepared_redeem p answers request balance preview)

-- ===== src/Chain/Tests.antt =====
-- Runs of packages/chain/src, and the theorems applied to them.
use tr4ce_app.Prelude.{◌≡◌, ◌↔◌, inl, refl, true, none, some, ok, arith}
use tr4ce_app.Prelude.Int.{pos}
use tr4ce_app.Platform.Plain.{plain}
use tr4ce_app.Domain.{max_withdraw}
use tr4ce_app.Evidence.Capability.{is_usable}
use tr4ce_app.Chain.Capabilities.{
  answered, failed, VaultReadResults, classify_capabilities, owner_holds_shares,
}
use tr4ce_app.Chain.Capabilities.Usable.{Counts, classify_capabilities-usable_iff}
use tr4ce_app.Chain.Prepare.{
  Answers, DepositRequest, PreparedDeposit, prepared_deposit, prepare_deposit, RedeemRequest,
  PreparedRedeem, prepare_redeem,
}
use tr4ce_app.Chain.Prepare.Deposit.{Depositable-prepare_deposit}
use tr4ce_app.Chain.Prepare.Redeem.{Redeemable-prepare_redeem}

-- A vault that answers 0 to an owner who holds shares.
abbrev results : VaultReadResults
results = record {
  asset = answered "0xA";
  decimals = answered (pos 6);
  total_assets = answered (pos 70);
  total_supply = answered (pos 60);
  convert_to_assets = answered (pos 1);
  preview_deposit = answered (pos 1);
  preview_redeem = failed none;
  max_withdraw = some (answered (pos 0));
  max_redeem = some (answered (pos 0));
  owner_shares = some (answered (pos 5));
}

holds_shares : owner_holds_shares results ≡ true
unfolding owner_holds_shares
holds_shares = refl

classify_capabilities-usable_iff_example :
    (is_usable (classify_capabilities plain results 9 true) max_withdraw ≡ true)
    ↔ Counts results.max_withdraw true
classify_capabilities-usable_iff_example = classify_capabilities-usable_iff plain results 9 true

-- A deposit of 10 with an allowance of 4, and a vault that states no limit.
abbrev answers : Answers
answers = record {
  chain_id = 8;
  asset = some "token";
  balance = some (pos 30);
  allowance = some (pos 4);
  preview = some (pos 9);
  max_deposit = none;
  max_redeem = some (pos 0);
  max_withdraw = none;
}

abbrev deposit_of_ten : DepositRequest
deposit_of_ten = record {
  vault = "vault";
  asset = "token";
  owner = "owner";
  receiver = "owner";
  assets = pos 10;
}

abbrev two_calls : PreparedDeposit
two_calls = prepared_deposit plain answers deposit_of_ten (pos 9)

Depositable-prepare_deposit_example :
    (value : PreparedDeposit) × (prepare_deposit plain answers deposit_of_ten ≡ ok value)
Depositable-prepare_deposit_example =
    Depositable-prepare_deposit plain answers deposit_of_ten (record {
      positive = omega arith;
      asset = ("token", refl, refl);
      balance = (pos 30, refl, omega arith);
      limit = tt;
      preview = (pos 9, refl, λ e. cc e);
    })

-- A redemption that the vault's zero does not refuse.
abbrev redemption : RedeemRequest
redemption = record { vault = "vault"; owner = "owner"; receiver = "owner"; shares = pos 5 }

Redeemable-prepare_redeem_example :
    (value : PreparedRedeem) × (prepare_redeem plain answers redemption ≡ ok value)
Redeemable-prepare_redeem_example = Redeemable-prepare_redeem plain answers redemption (record {
  positive = omega arith;
  held = (pos 30, refl, omega arith, inl (refl, omega arith));
  preview = (pos 9, refl);
})

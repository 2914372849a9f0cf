-- ===== src/Actions/Service/Plans.antt =====
-- What `prepareAction` of apps/api/src/services/action-service.ts asks the chain for, and the two operations
-- that answer it, as `actionChainFrom` of apps/api/src/services/evidence-service.ts gives them.
use tr4ce_app.Prelude.{ℕ, Option, List, String, Result, ok, err, ◌>>=◌}
use tr4ce_app.Prelude.Int.{pos, pos_part}
use tr4ce_app.Platform.{Platform}
use tr4ce_app.Chain.Prepare.{Answers, PrepareFailure, prepare_deposit, prepare_redeem}
use tr4ce_app.Actions.Store.{ActionKind, UnsignedTransaction, ActionFailure, action_not_available}

-- The body of the request, which its schema accepted.
pub record PrepareActionRequest : Type 0 where
  pub operation : ActionKind
  pub chain_id : ℕ
  pub owner : String
  pub receiver : String
  pub amount : ℕ
  pub report_id : Option String

-- What this reads of the vault's entry in the registry.
pub record VaultRegistryEntry : Type 0 where
  pub vault_id : String
  pub address : String
  pub asset_address : String
  pub adapter_key : String
  pub adapter_version : String

-- `PrepareOutcome`, where it is no failure
pub record Plan : Type 0 where
  pub calls : List UnsignedTransaction
  pub previewed : ℕ

-- `describeFailure` words the code; the answer is `ACTION_NOT_AVAILABLE` for each.
abbrev pub available : {A : Type 0} → Result PrepareFailure A → Result ActionFailure A
available (ok a) = ok a
available (err failure) = err action_not_available

module _ (p : Platform) (answers : Answers) where
  -- An amount of the chain is never negative.
  unfoldable pub plan_for :
      ActionKind → PrepareActionRequest → VaultRegistryEntry → Result PrepareFailure Plan
  plan_for ActionKind.deposit request vault = do
    value ← prepare_deposit p answers (record {
      vault = vault.address;
      asset = vault.asset_address;
      owner = request.owner;
      receiver = request.receiver;
      assets = pos request.amount;
    })
    ok (record { calls = value.calls; previewed = pos_part value.previewed_shares })
  plan_for ActionKind.redeem request vault = do
    value ← prepare_redeem p answers (record {
      vault = vault.address;
      owner = request.owner;
      receiver = request.receiver;
      shares = pos request.amount;
    })
    ok (record { calls = value.calls; previewed = pos_part value.previewed_assets })

-- ===== src/Actions/Tests/Preparation.antt =====
-- A preparation by apps/api/src/services/action-service.ts on empty tables, and the theorem applied to it.
use tr4ce_app.Prelude.{◌≡◌, refl, none, some, [], ◌∷◌, ok}
use tr4ce_app.Prelude.Int.{pos}
use tr4ce_app.Platform.Plain.{plain}
use tr4ce_app.Bytes.{parse_pairs, hex_to_bytes}
use tr4ce_app.Identifiers.{wallet_id}
use tr4ce_app.Chain.Prepare.{Answers, redeem_call, prepare_redeem}
use tr4ce_app.Actions.Store.{
  ActionKind, Action, Simulation, find_live, find_action, update_action, replace_action,
  live_unique,
}
use tr4ce_app.Actions.Binding.{action_digest}
use tr4ce_app.Actions.Repository.{
  after_simulation, new_action, new_simulation, insert_prepared_action, record_simulation,
  list_simulations,
}
use tr4ce_app.Actions.Service.{simulation_row}
use tr4ce_app.Actions.Service.Plans.{PrepareActionRequest, VaultRegistryEntry, Plan, plan_for}
use tr4ce_app.Actions.Service.Preparation.{
  Database, PreparedAction, new_input, insert_simulated, prepare_under, prepare_action,
  build_prepared_action,
}
use tr4ce_app.Actions.Service.Preparation.Answered.{Answered, prepare_action-Answered}
use tr4ce_app.Actions.Tests.Service.{chain, simulated, block}

abbrev answers : Answers
answers = record {
  chain_id = 8;
  asset = none;
  balance = some (pos 30);
  allowance = none;
  preview = some (pos 9);
  max_deposit = none;
  max_redeem = some (pos 0);
  max_withdraw = none;
}

abbrev redeem_five : PrepareActionRequest
redeem_five = record {
  operation = ActionKind.redeem;
  chain_id = 8;
  owner = "owner";
  receiver = "owner";
  amount = 5;
  report_id = none;
}

abbrev entry : VaultRegistryEntry
entry = record {
  vault_id = "id";
  address = "vault";
  asset_address = "token";
  adapter_key = "adapter";
  adapter_version = "1";
}

abbrev empty_database : Database
empty_database = record {
  wallets = [];
  tables = record { actions = []; simulations = []; receipts = [] };
}

abbrev one_call : Plan
one_call = record {
  calls =
      redeem_call plain 8
        (record { vault = "vault"; owner = "owner"; receiver = "owner"; shares = pos 5 })
      ∷ [];
  previewed = 9;
}

abbrev inserted : Action
inserted =
    new_action
      (new_input plain "provider" chain 7 redeem_five entry one_call 171 "adapter@1" simulated)

abbrev attempt : Simulation
attempt = new_simulation (simulation_row "provider" 7 0 "owner" block simulated)

-- The row as the transaction read it back, before the simulation was recorded.
abbrev answer : PreparedAction
answer = build_prepared_action inserted redeem_five entry one_call.calls attempt

abbrev after : Database
after = record {
  wallets = record { id = wallet_id plain (plain.codes "owner"); address = 171 ∷ [] } ∷ [];
  tables = record {
    actions = after_simulation (pos 61000) inserted ∷ [];
    simulations = attempt ∷ [];
    receipts = [];
  };
}

prepares :
    prepare_action plain "provider" chain answers 7 redeem_five entry empty_database
    ≡ ok (after, answer)
unfolding prepare_action plan_for prepare_redeem hex_to_bytes prepare_under insert_simulated
    insert_prepared_action record_simulation list_simulations find_live find_action update_action
    replace_action live_unique action_digest wallet_id parse_pairs
prepares = refl

prepare_action-Answered_example : Answered after.tables answer
prepare_action-Answered_example =
    prepare_action-Answered plain "provider" chain answers 7 redeem_five entry empty_database after
      answer prepares

-- ===== src/Actions/Tests/Service.antt =====
-- Answers of apps/api/src/services/action-service.ts and packages/chain/src, and the theorems applied
-- to them.
use tr4ce_app.Prelude.{
  ℕ, ◌+◌, ◌*◌, ◌≤◌, ◌≡◌, ◌↔◌, refl, true, none, some, [], ◌∷◌, Result, ok, arith,
}
use tr4ce_app.Prelude.Int.{pos}
use tr4ce_app.Platform.Plain.{plain}
use tr4ce_app.Actions.Store.{
  live_unique, ActionStatus, RevertClass, ReceiptStatus, Action, Simulation, Store, is_live,
  find_action, find_receipt, count_receipts, insert_receipt, update_action, replace_action,
}
use tr4ce_app.Actions.Repository.{new_action, record_submission, list_simulations}
use tr4ce_app.Actions.Repository.InOrder.{InOrder}
use tr4ce_app.Actions.Receipts.{Log, VaultEvent, find_event}
use tr4ce_app.Actions.Receipts.Events.{OneOf, find_event-OneOf}
use tr4ce_app.Actions.Binding.{
  SimulationStatus, SimulationResult, SimulateOptions, EstimateError, SignabilityVerdict,
  binding_of, simulate_call, check_signable,
}
use tr4ce_app.Actions.Binding.Signable.{check_signable-simulate_call}
use tr4ce_app.Actions.Service.{
  outcome_of, Block, ActionChain, ActionStatusResponse, action_signability, submit, observe_receipt,
  newest,
}
use tr4ce_app.Actions.Service.Signability.{Covered, action_signability-signable_iff}
use tr4ce_app.Actions.Service.Resubmission.{submit-settled}
use tr4ce_app.Actions.Tests.{
  approval, deposit_call, request, first_report, with, sample_decode, receipt_one,
}

-- A one-call action that is confirmed, and the report of its hash once more.
abbrev single : ActionStatus → Action
single status = record (new_action request) {
  transactions = deposit_call ∷ [];
  sent_count = 1;
  status = status;
}

abbrev confirmed_store : Store
confirmed_store = record {
  actions = single ActionStatus.confirmed ∷ [];
  simulations = [];
  receipts = receipt_one ∷ [];
}

abbrev regressed_store : Store
regressed_store = record {
  actions = single ActionStatus.submitted ∷ [];
  simulations = [];
  receipts = receipt_one ∷ [];
}

confirmed_store-InOrder : InOrder confirmed_store
unfolding find_action find_receipt count_receipts
confirmed_store-InOrder = record { reported = λ id i. ground arith; counted = λ id. ground arith }

resubmits : submit first_report confirmed_store ≡ ok (regressed_store, 1, true)
unfolding submit record_submission find_action find_receipt insert_receipt count_receipts
    update_action replace_action live_unique
resubmits = refl

found_confirmed : find_action 7 confirmed_store.actions ≡ some (single ActionStatus.confirmed)
unfolding find_action
found_confirmed = refl

known_confirmed : find_receipt 7 0 confirmed_store.receipts ≡ some receipt_one
unfolding find_receipt
known_confirmed = refl

abbrev pub block : Block
block = record { number = 50; hash = 5050; timestamp = 1 }

abbrev options : SimulateOptions
options = record {
  account = "owner";
  call = approval;
  block_number = 50;
  block_hash = "0x50";
  block_timestamp = 1;
  capability_version = "adapter@1";
}

abbrev pub simulated : SimulationResult
simulated = record {
  status = SimulationStatus.succeeded;
  binding = binding_of plain options;
  gas_estimate = some 21000;
  revert_data = none;
  message = none;
  expires_at_block = 53;
  expires_at = 61000;
}

abbrev pub chain : ActionChain
chain = record {
  current_block = block;
  simulate = λ account call b version. simulated;
  receipt = λ hash. none;
}

submit-settled_example :
    (find_action 7 regressed_store.actions ≡ some (single ActionStatus.submitted))
    × (observe_receipt plain sample_decode chain (pos 9) 7 0 1111 regressed_store
        ≡ ok regressed_store)
submit-settled_example =
    submit-settled plain sample_decode chain (pos 9) first_report confirmed_store regressed_store 1
      true (single ActionStatus.confirmed) receipt_one ReceiptStatus.success confirmed_store-InOrder
      found_confirmed refl refl known_confirmed refl resubmits

abbrev first_simulation : Simulation
first_simulation = record {
  action_id = 7;
  call_index = 0;
  block_number = 49;
  block_hash = 4949;
  account = "owner";
  success = true;
  gas_estimate = some 21000;
  revert_class = RevertClass.no_revert;
  provider_key = "provider";
}

abbrev simulated_store : Store
simulated_store = record {
  actions = with 0 ActionStatus.simulated ∷ [];
  simulations = first_simulation ∷ [];
  receipts = [];
}

abbrev answer : ActionStatusResponse
answer = record {
  action_id = 7;
  status = ActionStatus.simulated;
  signable = true;
  reason = none;
  expires_at = pos 60000;
  call_count = 2;
  sent_count = 0;
  next_call_index = some 0;
  outcome = none;
  attempts = first_simulation ∷ [];
}

found_simulated : find_action 7 simulated_store.actions ≡ some (with 0 ActionStatus.simulated)
unfolding find_action
found_simulated = refl

answers : action_signability chain (pos 9) simulated_store 7 ≡ ok answer
unfolding action_signability find_action list_simulations outcome_of find_receipt
answers = refl

action_signability-signable_iff_example : (answer.signable ≡ true) ↔ (
    (is_live (with 0 ActionStatus.simulated).status ≡ true)
    × Covered
        (with 0 ActionStatus.simulated)
        (newest (list_simulations 7 simulated_store.simulations))
        50
        (pos 9))
action_signability-signable_iff_example =
    action_signability-signable_iff chain (pos 9) simulated_store 7 (with 0 ActionStatus.simulated)
      answer found_simulated answers

abbrev estimate : SimulateOptions → Result EstimateError ℕ
estimate given = ok 21000

check_signable-simulate_call_example :
    (check_signable plain (simulate_call plain estimate options) (binding_of plain options) 52 60000
      ≡ SignabilityVerdict.signable)
    ↔ (((gas : ℕ) × (estimate options ≡ ok gas))
        × (52 ≤ options.block_number + 3)
        × (60000 ≤ (options.block_timestamp + 60) * 1000))
check_signable-simulate_call_example = check_signable-simulate_call plain estimate options 52 60000

abbrev log : Log
log = record { address = "vault"; payload = "0x" }

abbrev event : VaultEvent
event = record { event_name = "Deposit"; owner = "owner"; assets = 500; shares = 1001 }

finds : find_event plain sample_decode (log ∷ []) "vault" "Deposit" "owner" ≡ some event
unfolding find_event
finds = refl

find_event-OneOf_example : OneOf plain sample_decode "vault" "Deposit" "owner" (log ∷ []) event
find_event-OneOf_example =
    find_event-OneOf plain sample_decode (log ∷ []) "vault" "Deposit" "owner" event finds

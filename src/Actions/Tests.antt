-- ===== src/Actions/Tests.antt =====
-- The life of a two-call deposit through packages/db/src/repositories/actions.ts, and the theorems
-- applied to it.
mod Preparation
mod Service
use tr4ce_app.Prelude.{
  ℕ, ◌+◌, ◌*◌, ◌≤◌, ◌<◌, ◌≡◌, ◌≢◌, ◌↔◌, ◌⊎◌, inl, inr, refl, true, false, not, Option, none, some,
  List, [], ◌∷◌, Result, ok, err, is_some, if◌then◌else◌, leb, arith,
}
use tr4ce_app.Prelude.Int.{ℤ, pos}
use tr4ce_app.Platform.{Platform}
use tr4ce_app.Platform.Plain.{plain}
use tr4ce_app.Actions.Store.{
  live_unique, ActionStatus, ActionKind, CallKind, RevertClass, ReceiptStatus, UnsignedTransaction,
  Action, Simulation, Receipt, Store, is_live, different_hash, find_action, find_live, find_receipt,
  count_receipts, insert_receipt, update_action, replace_action,
}
use tr4ce_app.Actions.Repository.{
  InsertActionInput, new_action, insert_prepared_action, RecordSimulationInput, record_simulation,
  RecordSubmissionInput, new_receipt, record_submission, call_count_of, ConfirmReceiptInput,
  update_receipts, confirm_receipt, list_simulations,
}
use tr4ce_app.Actions.Repository.InOrder.{InOrder}
use tr4ce_app.Actions.Repository.Insertion.{Prepared, insert_prepared_action-Prepared}
use tr4ce_app.Actions.Repository.Submission.{
  record_submission-row, record_submission-again, record_submission-different_hash,
}
use tr4ce_app.Actions.Repository.Settlement.{Settled, confirm_receipt-Settled}
use tr4ce_app.Actions.Receipts.{Log, VaultEvent, ActionReceipt, find_event}
use tr4ce_app.Actions.Receipts.Events.{OneOf, find_event-OneOf}
use tr4ce_app.Actions.Binding.{
  SimulationStatus, SimulationResult, SimulateOptions, EstimateError, SignabilityVerdict,
  binding_of, simulate_call, check_signable, binding_digest,
}
use tr4ce_app.Actions.Binding.Signable.{check_signable_iff, check_signable-simulate_call}
use tr4ce_app.Actions.Service.{
  outcome_of, Block, ActionChain, ActionStatusResponse, action_signability, submit, observe_receipt,
  newest,
}
use tr4ce_app.Actions.Service.InOrder.{submit-InOrder}
use tr4ce_app.Actions.Service.Signability.{
  Covered, action_signability-signable_iff, action_signability-reason,
}
use tr4ce_app.Actions.Service.Resubmission.{submit-settled}
use tr4ce_app.Actions.Service.Reachable.{empty_store, Step, Reachable, Reachable-InOrder}

abbrev pub approval : UnsignedTransaction
approval = record {
  chain_id = 8453;
  to = "asset";
  data_hex = "0x01";
  value = 0;
  kind = CallKind.approve;
}

abbrev pub deposit_call : UnsignedTransaction
deposit_call = record {
  chain_id = 8453;
  to = "vault";
  data_hex = "0x02";
  value = 0;
  kind = CallKind.deposit;
}

abbrev pub request : InsertActionInput
request = record {
  action_id = 7;
  wallet_id = "wallet";
  vault_id = "vault";
  report_id = none;
  kind = ActionKind.deposit;
  chain_id = 8453;
  account = "owner";
  calldata_hash = 99;
  capability_version = "adapter@1";
  transactions = approval ∷ deposit_call ∷ [];
  previewed = 1000;
  expires_at = pos 60000;
}

abbrev prepared_store : Store
prepared_store = record { actions = new_action request ∷ []; simulations = []; receipts = [] }

prepares :
    insert_prepared_action request empty_store ≡ ok (prepared_store, new_action request, true)
unfolding insert_prepared_action find_live find_action
prepares = refl

abbrev pub first_report : RecordSubmissionInput
first_report = record { action_id = 7; call_index = 0; chain_id = 8453; transaction_hash = 1111 }

abbrev other_report : RecordSubmissionInput
other_report = record { action_id = 7; call_index = 0; chain_id = 8453; transaction_hash = 3333 }

abbrev second_report : RecordSubmissionInput
second_report = record { action_id = 7; call_index = 1; chain_id = 8453; transaction_hash = 2222 }

abbrev pub with : ℕ → ActionStatus → Action
with sent status = record (new_action request) { sent_count = sent; status = status }

abbrev reported_store : Store
reported_store = record {
  actions = with 1 ActionStatus.prepared ∷ [];
  simulations = [];
  receipts = new_receipt first_report ∷ [];
}

reports : record_submission first_report prepared_store ≡ ok (reported_store, 1, false)
unfolding record_submission find_action find_receipt insert_receipt count_receipts update_action
    replace_action live_unique
reports = refl

submits : submit first_report prepared_store ≡ ok (reported_store, 1, false)
unfolding submit record_submission find_action find_receipt insert_receipt count_receipts
    update_action replace_action live_unique
submits = refl

reports_again : record_submission first_report reported_store ≡ ok (reported_store, 1, false)
unfolding record_submission find_action find_receipt insert_receipt count_receipts update_action
    replace_action live_unique
reports_again = refl

abbrev pub sample_decode : Log → Option VaultEvent
sample_decode log =
    some (record { event_name = "Deposit"; owner = "owner"; assets = 500; shares = 1001 })

reached : Reachable plain sample_decode reported_store
reached =
    Reachable.later
      (Reachable.later Reachable.start (Step.prepare request (new_action request) true prepares))
      (Step.report first_report 1 false submits)

Reachable-InOrder_example : InOrder reported_store
Reachable-InOrder_example = Reachable-InOrder plain sample_decode reported_store reached

insert_prepared_action-Prepared_example :
    Prepared request empty_store prepared_store (new_action request) true
insert_prepared_action-Prepared_example =
    insert_prepared_action-Prepared request empty_store prepared_store (new_action request) true
      prepares

found_prepared : find_action 7 prepared_store.actions ≡ some (new_action request)
unfolding find_action
found_prepared = refl

found_reported : find_action 7 reported_store.actions ≡ some (with 1 ActionStatus.prepared)
unfolding find_action
found_reported = refl

known_reported : find_receipt 7 0 reported_store.receipts ≡ some (new_receipt first_report)
unfolding find_receipt
known_reported = refl

record_submission-row_example :
    (1 ≡ count_receipts 7 reported_store.receipts)
    × (find_action 7 reported_store.actions ≡ some (with 1 ActionStatus.prepared))
record_submission-row_example =
    record_submission-row first_report prepared_store reported_store 1 false (new_action request)
      found_prepared reports

record_submission-different_hash_example :
    record_submission other_report reported_store ≡ err different_hash
record_submission-different_hash_example =
    record_submission-different_hash other_report reported_store (with 1 ActionStatus.prepared)
      (new_receipt first_report) found_reported known_reported (λ e. omega (arith, e))

abbrev pub receipt_one : Receipt
receipt_one = record (new_receipt first_report) {
  confirmed_block_number = some 50;
  confirmed_block_hash = some 5050;
  status = some ReceiptStatus.success;
  gas_used = some 21000;
  observed_at = some (pos 5);
}

abbrev approval_confirmed : ConfirmReceiptInput
approval_confirmed = record {
  action_id = 7;
  call_index = 0;
  block_number = 50;
  block_hash = 5050;
  status = ReceiptStatus.success;
  gas_used = 21000;
  effective_gas_price = none;
  actual_amount = none;
  observed_at = pos 5;
}

abbrev approved_store : Store
approved_store = record {
  actions = with 1 ActionStatus.prepared ∷ [];
  simulations = [];
  receipts = receipt_one ∷ [];
}

confirms : confirm_receipt approval_confirmed reported_store ≡ ok approved_store
unfolding confirm_receipt find_action update_action replace_action live_unique update_receipts
confirms = refl

confirm_receipt-Settled_example :
    (row : Action) × Settled approval_confirmed reported_store approved_store
      (with 1 ActionStatus.prepared)
      row
confirm_receipt-Settled_example =
    confirm_receipt-Settled approval_confirmed reported_store approved_store
      (with 1 ActionStatus.prepared) found_reported confirms

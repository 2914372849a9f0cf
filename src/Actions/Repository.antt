-- ===== src/Actions/Repository.antt =====
-- packages/db/src/repositories/actions.ts: the operations on the tables. A transaction that throws is
-- rolled back, so an error stands for the tables as they were.
pub mod Insertion
pub mod Submission
pub mod Settlement
pub mod InOrder
use tr4ce_app.Prelude.{
  ℕ, ◌+◌, ◌==◌, Bool, true, false, ◌&&◌, not, Option, none, some, List, [], ◌∷◌, String, Result, ok,
  err, ◌>>=◌, ◌>>◌, throw_if, if◌then◌else◌, leb, is_some, all, keep, length, map,
}
use tr4ce_app.Prelude.Int.{ℤ}
use tr4ce_app.Actions.Store.{
  ActionStatus, prepared, simulated, submitted, confirmed, ActionKind, RevertClass, ReceiptStatus,
  UnsignedTransaction, Action, Simulation, Receipt, Store, ActionFailure, no_calls, no_action,
  vanished, different_hash, constraint_violation, action_allowed, live_unique, simulation_allowed,
  receipt_allowed, find_action, find_live, update_action, is_receipt_of, find_receipt,
  count_receipts, insert_receipt,
}

-- `if (row === null) throw`
abbrev pub required : {A : Type 0} → ActionFailure → Option A → Result ActionFailure A
required failure none = err failure
required failure (some a) = ok a

abbrev pub is_empty {ℓ} : {A : Type ℓ} → List A → Bool
is_empty [] = true
is_empty (_ ∷ _) = false

pub record InsertActionInput : Type 0 where
  pub action_id : ℕ
  pub wallet_id : String
  pub vault_id : String
  pub report_id : Option String
  pub kind : ActionKind
  pub chain_id : ℕ
  pub account : String
  pub calldata_hash : ℕ
  pub capability_version : String
  pub transactions : List UnsignedTransaction
  pub previewed : ℕ
  pub expires_at : ℤ

abbrev pub new_action : InsertActionInput → Action
new_action input = record {
  action_id = input.action_id;
  wallet_id = input.wallet_id;
  vault_id = input.vault_id;
  report_id = input.report_id;
  kind = input.kind;
  chain_id = input.chain_id;
  account = input.account;
  calldata_hash = input.calldata_hash;
  capability_version = input.capability_version;
  transactions = input.transactions;
  sent_count = 0;
  previewed = input.previewed;
  status = prepared;
  expires_at = input.expires_at;
  invalidated_reason = none;
}

-- The row goes in unless a live one stands under its digest; a used id is refused.
insert_action : Action → Store → Result ActionFailure Store
insert_action a store = do
  throw_if (is_some (find_action a.action_id store.actions)) constraint_violation
  throw_if (not (action_allowed a)) constraint_violation
  ok (record {
    actions = a ∷ store.actions;
    simulations = store.simulations;
    receipts = store.receipts;
  })

insert_or_read :
    InsertActionInput → Option Action → Store → Result ActionFailure (Store × Action × Bool)
unfolding insert_action
insert_or_read input (some existing) store = ok (store, existing, false)
insert_or_read input none store = do
  inserted ← insert_action (new_action input) store
  stored ← required vanished (find_action input.action_id inserted.actions)
  ok (inserted, stored, true)

-- Each operation is a whole transaction here, so a live action that is gone between the insertion and
-- the second read, which the source throws for, does not occur.
unfoldable pub insert_prepared_action :
    InsertActionInput → Store → Result ActionFailure (Store × Action × Bool)
unfolding insert_or_read
insert_prepared_action input store = do
  throw_if (is_empty input.transactions) no_calls
  insert_or_read input (find_live input.calldata_hash store.actions) store

pub record RecordSimulationInput : Type 0 where
  pub action_id : ℕ
  pub call_index : ℕ
  pub block_number : ℕ
  pub block_hash : ℕ
  pub account : String
  pub success : Bool
  pub gas_estimate : Option ℕ
  pub revert_class : RevertClass
  pub provider_key : String
  pub expires_at : ℤ

abbrev pub new_simulation : RecordSimulationInput → Simulation
new_simulation input = record {
  action_id = input.action_id;
  call_index = input.call_index;
  block_number = input.block_number;
  block_hash = input.block_hash;
  account = input.account;
  success = input.success;
  gas_estimate = input.gas_estimate;
  revert_class = input.revert_class;
  provider_key = input.provider_key;
}

abbrev pub after_simulation : ℤ → Action → Action
after_simulation expires_at a = record a { status = simulated; expires_at = expires_at }

unfoldable pub record_simulation : RecordSimulationInput → Store → Result ActionFailure Store
record_simulation input store = do
  throw_if (not (simulation_allowed (new_simulation input))) constraint_violation
  throw_if (not (is_some (find_action input.action_id store.actions))) constraint_violation
  update_action input.action_id (after_simulation input.expires_at) (record {
    actions = store.actions;
    simulations = new_simulation input ∷ store.simulations;
    receipts = store.receipts;
  })

pub record RecordSubmissionInput : Type 0 where
  pub action_id : ℕ
  pub call_index : ℕ
  pub chain_id : ℕ
  pub transaction_hash : ℕ

abbrev pub new_receipt : RecordSubmissionInput → Receipt
new_receipt input = record {
  action_id = input.action_id;
  call_index = input.call_index;
  chain_id = input.chain_id;
  transaction_hash = input.transaction_hash;
  confirmed_block_number = none;
  confirmed_block_hash = none;
  status = none;
  gas_used = none;
  effective_gas_price = none;
  actual_amount = none;
  observed_at = none;
}

abbrev pub call_count_of : Action → ℕ
call_count_of action = length action.transactions

abbrev pub after_submission : ℕ → Bool → Action → Action
after_submission sent_count all_sent a = record a {
  sent_count = sent_count;
  status = if all_sent then submitted else prepared;
}

unfoldable pub record_submission :
    RecordSubmissionInput → Store → Result ActionFailure (Store × ℕ × Bool)
record_submission input store = do
  action ← required no_action (find_action input.action_id store.actions)
  receipts ← insert_receipt (new_receipt input) store.receipts
  existing ← required vanished (find_receipt input.action_id input.call_index receipts)
  throw_if (not (existing.transaction_hash == input.transaction_hash)) different_hash
  let sent_count = count_receipts input.action_id receipts
  let all_sent = leb (call_count_of action) sent_count
  updated ←
      update_action input.action_id (after_submission sent_count all_sent)
        (record { actions = store.actions; simulations = store.simulations; receipts = receipts })
  ok (updated, sent_count, all_sent)

pub record ConfirmReceiptInput : Type 0 where
  pub action_id : ℕ
  pub call_index : ℕ
  pub block_number : ℕ
  pub block_hash : ℕ
  pub status : ReceiptStatus
  pub gas_used : ℕ
  pub effective_gas_price : Option ℕ
  pub actual_amount : Option ℕ
  pub observed_at : ℤ

abbrev pub after_confirmation : ConfirmReceiptInput → Receipt → Receipt
after_confirmation input r = record r {
  confirmed_block_number = some input.block_number;
  confirmed_block_hash = some input.block_hash;
  status = some input.status;
  gas_used = some input.gas_used;
  effective_gas_price = input.effective_gas_price;
  actual_amount = input.actual_amount;
  observed_at = some input.observed_at;
}

unfoldable pub update_receipts : ConfirmReceiptInput → List Receipt → List Receipt
update_receipts input [] = []
update_receipts input (r ∷ receipts) =
    let rest = update_receipts input receipts in
    (if is_receipt_of input.action_id input.call_index r then after_confirmation input r else r)
    ∷ rest

abbrev pub outcome_status : ReceiptStatus → ActionStatus
outcome_status ReceiptStatus.success = ActionStatus.confirmed
outcome_status ReceiptStatus.reverted = ActionStatus.reverted

-- `callIndex === callCount - 1`, on numbers that may be negative in the source.
abbrev pub is_operation_call : Action → ℕ → Bool
is_operation_call action call_index = call_index + 1 == call_count_of action

settle : ConfirmReceiptInput → Option Action → Store → Result ActionFailure Store
settle input none store = ok store
settle input (some action) store =
    if is_operation_call action input.call_index && leb (call_count_of action) action.sent_count
    then update_action input.action_id (λ a. record a { status = outcome_status input.status })
        store
    else ok store

unfoldable pub confirm_receipt : ConfirmReceiptInput → Store → Result ActionFailure Store
unfolding settle
confirm_receipt input store = do
  let receipts = update_receipts input store.receipts
  throw_if (not (all (λ r. receipt_allowed r) receipts)) constraint_violation
  settle input (find_action input.action_id store.actions)
      (record { actions = store.actions; simulations = store.simulations; receipts = receipts })

-- `status` is `expired` or `invalidated` by its type in the source.
unfoldable pub invalidate_action : ℕ → ActionStatus → String → Store → Result ActionFailure Store
invalidate_action id status reason store =
    update_action id (λ a. record a { status = status; invalidated_reason = some reason }) store

-- Newest first, as the table stands.
unfoldable pub list_simulations : ℕ → List Simulation → List Simulation
list_simulations id simulations = keep (λ s. s.action_id == id) simulations

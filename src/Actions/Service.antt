-- ===== src/Actions/Service.antt =====
-- apps/api/src/services/action-service.ts over the tables: whether an action may be signed now, the
-- simulation of its next call, and the report of what the wallet sent. What the injected `ActionChain`
-- answers is a parameter. Stored calls, attempts and outcomes have their schemas' types here, so that
-- parsing them back gives them as they are.
pub mod Signability
pub mod InOrder
pub mod Resubmission
pub mod Plans
pub mod Preparation
pub mod Reachable
use tr4ce_app.Prelude.{
  ℕ, ◌+◌, ◌==◌, Bool, true, false, not, Option, none, some, List, [], ◌∷◌, String, Result, ok, err,
  ◌&&◌, ◌>>=◌, ◌>>◌, throw_if, if◌then◌else◌, ltb, is_some, get_elem?,
}
use tr4ce_app.Prelude.Int.{ℤ, pos, ltb_ℤ}
use tr4ce_app.Platform.{Platform}
use tr4ce_app.Actions.Store.{
  ActionStatus, ActionKind, CallKind, RevertClass, ReceiptStatus, UnsignedTransaction, Action,
  Simulation, Receipt, Store, ActionFailure, action_not_found, action_not_available,
  invalid_request, internal_error, is_live, find_action, find_receipt,
}
use tr4ce_app.Actions.Binding.{SimulationStatus, succeeded, failed, SimulationResult, expiry_blocks}
use tr4ce_app.Actions.Receipts.{
  Log, VaultEvent, ActionReceipt, delta_of, decode_deposit, decode_redeem,
}
use tr4ce_app.Actions.Repository.{
  required, RecordSimulationInput, record_simulation, RecordSubmissionInput, record_submission,
  ConfirmReceiptInput, confirm_receipt, call_count_of, list_simulations,
}

pub record Block : Type 0 where
  pub number : ℕ
  pub hash : ℕ
  pub timestamp : ℕ

-- The operations of `ActionChain` that follow a prepared action.
pub record ActionChain : Type 0 where
  pub current_block : Block
  pub simulate : String → UnsignedTransaction → Block → String → SimulationResult
  pub receipt : ℕ → Option ActionReceipt

-- `actionOutcomeSchema` of packages/domain/src/actions.ts
pub record ActionOutcome : Type 0 where
  pub transaction_hash : ℕ
  pub status : Option ReceiptStatus
  pub confirmed_block_number : Option ℕ
  pub previewed : ℕ
  pub actual : Option ℕ
  pub delta : Option ℤ

-- `actionStatusResponseSchema` of packages/domain/src/contract.ts; the version is a literal.
pub record ActionStatusResponse : Type 0 where
  pub action_id : ℕ
  pub status : ActionStatus
  pub signable : Bool
  pub reason : Option String
  pub expires_at : ℤ
  pub call_count : ℕ
  pub sent_count : ℕ
  pub next_call_index : Option ℕ
  pub outcome : Option ActionOutcome
  pub attempts : List Simulation

abbrev is_approve : CallKind → Bool
is_approve CallKind.approve = true
is_approve CallKind.deposit = false
is_approve CallKind.redeem = false

-- `calls.findIndex((call) => call.kind !== "approve")`
abbrev pub operation_index : List UnsignedTransaction → Option ℕ
operation_index [] = none
operation_index (call ∷ calls) =
    let rest = operation_index calls in
    if not (is_approve call.kind) then some 0 else elim rest [ none ↦ none | some i ↦ some (i + 1) ]

abbrev outcome_for : Action → Option Receipt → Option ActionOutcome
outcome_for stored none = none
outcome_for stored (some receipt) = some (record {
  transaction_hash = receipt.transaction_hash;
  status = receipt.status;
  confirmed_block_number = receipt.confirmed_block_number;
  previewed = stored.previewed;
  actual = receipt.actual_amount;
  delta = delta_of receipt.actual_amount stored.previewed;
})

abbrev outcome_at : Action → List Receipt → Option ℕ → Option ActionOutcome
outcome_at stored receipts none = none
outcome_at stored receipts (some index) =
    outcome_for stored (find_receipt stored.action_id index receipts)

unfoldable pub outcome_of : Action → List Receipt → Option ActionOutcome
outcome_of stored receipts = outcome_at stored receipts (operation_index stored.transactions)

abbrev judge_attempt : Action → Option Simulation → ℕ → ℤ → Bool × Option String
judge_attempt stored none block now = (false, some "SIMULATION_FAILED")
judge_attempt stored (some attempt) block now =
    if not attempt.success
    then (false, some "SIMULATION_FAILED")
    else if not (attempt.call_index == stored.sent_count)
    then (false, some "NOT_SIMULATED")
    else if ltb (attempt.block_number + expiry_blocks) block
    then (false, some "BLOCK_BUDGET_SPENT")
    else if ltb_ℤ stored.expires_at now
    then (false, some "TIME_BUDGET_SPENT")
    else (true, none)

-- The verdict of `actionSignability`, with its reason, on the newest attempt.
judge : Action → Option Simulation → ℕ → ℤ → Bool × Option String
judge stored attempt block now =
    if not (is_live stored.status)
    then (false, stored.invalidated_reason)
    else judge_attempt stored attempt block now

abbrev pub newest : List Simulation → Option Simulation
newest [] = none
newest (s ∷ simulations) = some s

status_response : Action → Store → ℕ → ℤ → ActionStatusResponse
unfolding judge
status_response stored store block now =
    let attempts = list_simulations stored.action_id store.simulations in
    let verdict = judge stored (newest attempts) block now in
    record {
      action_id = stored.action_id;
      status = stored.status;
      signable = verdict.0;
      reason = verdict.1;
      expires_at = stored.expires_at;
      call_count = call_count_of stored;
      sent_count = stored.sent_count;
      next_call_index =
          if ltb stored.sent_count (call_count_of stored) then some stored.sent_count else none;
      outcome = outcome_of stored store.receipts;
      attempts = attempts;
    }

unfoldable pub action_signability :
    ActionChain → ℤ → Store → ℕ → Result ActionFailure ActionStatusResponse
unfolding status_response
action_signability chain now store action_id = do
  stored ← required action_not_found (find_action action_id store.actions)
  ok (status_response stored store chain.current_block.number now)

abbrev pub is_succeeded : SimulationStatus → Bool
is_succeeded succeeded = true
is_succeeded failed = false

abbrev pub simulation_row :
    String → ℕ → ℕ → String → Block → SimulationResult → RecordSimulationInput
simulation_row provider_key action_id call_index account block simulation = record {
  action_id = action_id;
  call_index = call_index;
  block_number = block.number;
  block_hash = block.hash;
  account = account;
  success = is_succeeded simulation.status;
  gas_estimate = simulation.gas_estimate;
  revert_class =
      if is_succeeded simulation.status then RevertClass.no_revert else RevertClass.reverted;
  provider_key = provider_key;
  expires_at = pos simulation.expires_at;
}

module _ (provider_key : String) (chain : ActionChain) where
  -- The simulation of one call at the current block, recorded.
  unfoldable pub simulate_and_record :
      Action → ℕ → UnsignedTransaction → Store → Result ActionFailure Store
  simulate_and_record stored call_index call store =
      let block = chain.current_block in
      record_simulation
        (simulation_row provider_key stored.action_id call_index stored.account block
          (chain.simulate stored.account call block stored.capability_version))
        store

  unfoldable pub simulate_next_call :
      ℤ → ℕ → Store → Result ActionFailure (Store × ActionStatusResponse)
  unfolding simulate_and_record
  simulate_next_call now action_id store = do
    stored ← required action_not_found (find_action action_id store.actions)
    throw_if (not (is_live stored.status)) action_not_available
    call ← required action_not_available (get_elem? stored.transactions stored.sent_count)
    after ← simulate_and_record stored stored.sent_count call store
    response ← action_signability chain now after action_id
    ok (after, response)

-- Whatever `recordSubmission` throws is answered as `ACTION_NOT_AVAILABLE`.
abbrev pub refused : {A : Type 0} → Result ActionFailure A → Result ActionFailure A
refused (ok a) = ok a
refused (err failure) = err action_not_available

-- The report is committed before the receipt is looked for: an error of that step, or of the
-- answer, stands beside the tables that the report left.
unfoldable pub submit : RecordSubmissionInput → Store → Result ActionFailure (Store × ℕ × Bool)
submit input store = do
  stored ← required action_not_found (find_action input.action_id store.actions)
  call ← required invalid_request (get_elem? stored.transactions input.call_index)
  throw_if
      (not (is_some (find_receipt input.action_id input.call_index store.receipts))
        && not (input.call_index == stored.sent_count))
      action_not_available
  refused (record_submission input store)

abbrev pub is_settled : Option Receipt → Bool
is_settled none = false
is_settled (some receipt) = is_some receipt.status

module _ (p : Platform) (decode : Log → Option VaultEvent) where
  abbrev actual_of : Action → UnsignedTransaction → ActionKind → ActionReceipt → Option ℕ
  actual_of action call ActionKind.deposit receipt =
      (decode_deposit p decode receipt call.to action.account action.previewed).actual_shares
  actual_of action call ActionKind.redeem receipt =
      (decode_redeem p decode receipt call.to action.account action.previewed).actual_assets

  abbrev decode_call : Action → Option UnsignedTransaction → ActionReceipt → Option ℕ
  decode_call action none receipt = none
  decode_call action (some call) receipt =
      if is_approve call.kind then none else actual_of action call action.kind receipt

  unfoldable pub decode_actual : Action → ℕ → ActionReceipt → Option ℕ
  decode_actual action call_index receipt =
      decode_call action (get_elem? action.transactions call_index) receipt

  confirmation : ℕ → ℕ → ℤ → ActionReceipt → Option Action → Store → Result ActionFailure Store
  confirmation action_id call_index now receipt none store = ok store
  confirmation action_id call_index now receipt (some stored) store =
      confirm_receipt
        (record {
          action_id = action_id;
          call_index = call_index;
          block_number = receipt.block_number;
          block_hash = receipt.block_hash;
          status = receipt.status;
          gas_used = receipt.gas_used;
          effective_gas_price = none;
          actual_amount = decode_actual stored call_index receipt;
          observed_at = now;
        })
        store

  observation : ℕ → ℕ → ℤ → Option ActionReceipt → Store → Result ActionFailure Store
  unfolding confirmation
  observation action_id call_index now none store = ok store
  observation action_id call_index now (some receipt) store =
      confirmation action_id call_index now receipt (find_action action_id store.actions) store

  -- One look for the receipt of a reported hash.
  unfoldable pub observe_receipt : ActionChain → ℤ → ℕ → ℕ → ℕ → Store → Result ActionFailure Store
  unfolding observation
  observe_receipt chain now action_id call_index transaction_hash store =
      if is_settled (find_receipt action_id call_index store.receipts)
      then ok store
      else observation action_id call_index now (chain.receipt transaction_hash) store

  unfoldable pub report_submission :
      ActionChain
      → ℤ
      → RecordSubmissionInput
      → Store
      → Result ActionFailure (Store × Result ActionFailure ActionStatusResponse)
  report_submission chain now input store = do
    (submitted, _, _) ← submit input store
    ok (answer submitted)
    where
      answer : Store → Store × Result ActionFailure ActionStatusResponse
      answer submitted =
          elim (observe_receipt chain now input.action_id input.call_index input.transaction_hash
            submitted) [
              | ok observed ↦ (observed, action_signability chain now observed input.action_id)
              | err failure ↦ (submitted, err failure)
            ]

-- ===== src/Actions/Service/Reachable.antt =====
-- Every sequence of the operations that apps/api/src/services/action-service.ts runs on the tables.
use tr4ce_app.Prelude.{
  ℕ, ◌≡◌, refl, ap, subst, Bool, true, false, not, Option, none, some, List, [], String, ok, arith,
  get_elem?, if◌then◌else◌, throw_if-ok, >>=-eq-ok, ok_inj,
}
use tr4ce_app.Prelude.Int.{ℤ}
use tr4ce_app.Platform.{Platform}
use tr4ce_app.Actions.Store.{
  ActionStatus, Action, Store, action_not_found, action_not_available, is_live, find_action,
  find_receipt, count_receipts,
}
use tr4ce_app.Actions.Receipts.{Log, VaultEvent, ActionReceipt}
use tr4ce_app.Actions.Repository.{
  required, InsertActionInput, insert_prepared_action, RecordSimulationInput, record_simulation,
  RecordSubmissionInput, invalidate_action,
}
use tr4ce_app.Actions.Repository.InOrder.{InOrder}
use tr4ce_app.Actions.Repository.InOrder.Writes.{
  insert_prepared_action-InOrder, record_simulation-InOrder, confirm_receipt-InOrder,
  invalidate_action-InOrder,
}
use tr4ce_app.Actions.Service.{
  ActionChain, ActionStatusResponse, action_signability, simulate_and_record, simulate_next_call,
  submit, is_settled, confirmation, observation, observe_receipt,
}
use tr4ce_app.Actions.Service.InOrder.{submit-InOrder}
use tr4ce_app.Actions.Service.Plans.{PrepareActionRequest, VaultRegistryEntry}
use tr4ce_app.Actions.Service.Preparation.{Wallet, PreparedAction, prepare_action}
use tr4ce_app.Actions.Service.Preparation.Answered.{prepare_action-InOrder}
use tr4ce_app.Chain.Prepare.{Answers}

abbrev pub empty_store : Store
empty_store = record { actions = []; simulations = []; receipts = [] }

module _ (p : Platform) (decode : Log → Option VaultEvent) where
  -- One operation that succeeded, at whatever state of the chain and of the clock.
  pub data Step : Store → Store → Type 0 where
    prepare :
        {before after : Store} (input : InsertActionInput) (stored : Action) (created : Bool)
        → insert_prepared_action input before ≡ ok (after, stored, created)
        → Step before after
    plan :
        {before after : Store} (provider_key : String) (chain : ActionChain) (answers : Answers)
        (new_id : ℕ) (request : PrepareActionRequest) (vault : VaultRegistryEntry)
        (wallets written : List Wallet) (answer : PreparedAction)
        → prepare_action p provider_key chain answers new_id request vault
            (record { wallets = wallets; tables = before })
          ≡ ok (record { wallets = written; tables = after }, answer)
        → Step before after
    record_attempt :
        {before after : Store} (input : RecordSimulationInput)
        → record_simulation input before ≡ ok after
        → Step before after
    simulate_next :
        {before after : Store} (provider_key : String) (chain : ActionChain) (now : ℤ) (id : ℕ)
        (response : ActionStatusResponse)
        → simulate_next_call provider_key chain now id before ≡ ok (after, response)
        → Step before after
    report :
        {before after : Store} (input : RecordSubmissionInput) (n : ℕ) (all_sent : Bool)
        → submit input before ≡ ok (after, n, all_sent)
        → Step before after
    observe :
        {before after : Store} (chain : ActionChain) (now : ℤ) (id call_index hash : ℕ)
        → observe_receipt p decode chain now id call_index hash before ≡ ok after
        → Step before after
    invalidate :
        {before after : Store} (id : ℕ) (status : ActionStatus) (reason : String)
        → invalidate_action id status reason before ≡ ok after
        → Step before after

  pub data Reachable : Store → Type 0 where
    start : Reachable empty_store
    later : {before after : Store} → Reachable before → Step before after → Reachable after

  confirmation-InOrder :
      (id call_index : ℕ) (now : ℤ) (receipt : ActionReceipt) (stored : Option Action)
      (store : Store) {after : Store}
      → confirmation p decode id call_index now receipt stored store ≡ ok after
      → InOrder store
      → InOrder after
  unfolding confirmation
  confirmation-InOrder id call_index now receipt none store e o = subst InOrder (ok_inj e) o
  confirmation-InOrder id call_index now receipt (some stored) store e o =
      confirm_receipt-InOrder _ store e o

  observation-InOrder :
      (id call_index : ℕ) (now : ℤ) (receipt : Option ActionReceipt) (store : Store) {after : Store}
      → observation p decode id call_index now receipt store ≡ ok after
      → InOrder store
      → InOrder after
  unfolding observation
  observation-InOrder id call_index now none store e o = subst InOrder (ok_inj e) o
  observation-InOrder id call_index now (some receipt) store e o =
      confirmation-InOrder id call_index now receipt (find_action id store.actions) store e o

  observe_receipt-InOrder :
      (chain : ActionChain) (now : ℤ) (id call_index hash : ℕ) (store : Store) {after : Store}
      → observe_receipt p decode chain now id call_index hash store ≡ ok after
      → InOrder store
      → InOrder after
  unfolding observe_receipt
  observe_receipt-InOrder chain now id call_index hash store {after} e o =
      by_test (is_settled (find_receipt id call_index store.receipts)) e
    where
      by_test :
          (t : Bool)
          → (if t
              then ok store
              else observation p decode id call_index now (chain.receipt hash) store)
            ≡ ok after
          → InOrder after
      by_test true e = subst InOrder (ok_inj e) o
      by_test false e = observation-InOrder id call_index now (chain.receipt hash) store e o

  simulate_next_call-InOrder :
      (provider_key : String) (chain : ActionChain) (now : ℤ) (id : ℕ)
      (response : ActionStatusResponse) (store after : Store)
      → simulate_next_call provider_key chain now id store ≡ ok (after, response)
      → InOrder store
      → InOrder after
  unfolding simulate_next_call simulate_and_record
  simulate_next_call-InOrder provider_key chain now id response store after e o =
      let (stored, _, e1) =
        >>=-eq-ok (required action_not_found (find_action id store.actions)) _ e in
      let (_, e2) = throw_if-ok (not (is_live stored.status)) action_not_available _ e1 in
      let (call, _, e3) =
        >>=-eq-ok (required action_not_available (get_elem? stored.transactions stored.sent_count))
          _ e2 in
      let (written, recorded, e4) = >>=-eq-ok (record_simulation _ store) _ e3 in
      let (_, _, e5) = >>=-eq-ok (action_signability chain now written id) _ e4 in
      subst InOrder (ap (λ t. t.0) (ok_inj e5)) (record_simulation-InOrder _ store recorded o)

  Step-InOrder : {before after : Store} → Step before after → InOrder before → InOrder after
  Step-InOrder (prepare input stored created e) o =
      insert_prepared_action-InOrder input _ _ stored created e o
  Step-InOrder (plan provider_key chain answers new_id request vault wallets written answer e) o =
      prepare_action-InOrder p provider_key chain answers new_id request vault _ _ answer e o
  Step-InOrder (record_attempt input e) o = record_simulation-InOrder input _ e o
  Step-InOrder (simulate_next provider_key chain now id response e) o =
      simulate_next_call-InOrder provider_key chain now id response _ _ e o
  Step-InOrder (report input n all_sent e) o = submit-InOrder input _ _ n all_sent e o
  Step-InOrder (observe chain now id call_index hash e) o =
      observe_receipt-InOrder chain now id call_index hash _ e o
  Step-InOrder (invalidate id status reason e) o = invalidate_action-InOrder id status reason _ e o

  empty_store-InOrder : InOrder empty_store
  unfolding find_receipt find_action count_receipts
  empty_store-InOrder = record { reported = λ id i. ground arith; counted = λ id. refl }

  -- After any operations on empty tables, the calls of an action that have a reported hash are exactly
  -- those before its `sentCount`, each once: in signing order, with no gap.
  pub Reachable-InOrder : (store : Store) → Reachable store → InOrder store
  Reachable-InOrder store start = empty_store-InOrder
  Reachable-InOrder store (later r s) = Step-InOrder s (Reachable-InOrder _ r)

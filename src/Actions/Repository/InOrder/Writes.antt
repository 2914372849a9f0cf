-- ===== src/Actions/Repository/InOrder/Writes.antt =====
-- Every operation of packages/db/src/repositories/actions.ts but the report of a hash leaves the
-- reported calls of each action as they were.
use tr4ce_app.Prelude.{
  ℕ, ◌≡◌, refl, ap, subst, Bool, true, false, ◌&&◌, not, Option, none, some, String, ok, arith,
  is_some, leb, all, if◌then◌else◌, throw_if-ok, ok_inj, >>=-eq-ok,
}
use tr4ce_app.Actions.Store.{
  Action, Store, ActionStatus, constraint_violation, action_allowed, simulation_allowed,
  receipt_allowed, find_action, find_live, update_action, no_calls, vanished,
}
use tr4ce_app.Actions.Store.Lookup.{update_action-ok}
use tr4ce_app.Actions.Repository.{
  required, is_empty, InsertActionInput, new_action, insert_action, insert_or_read,
  insert_prepared_action, RecordSimulationInput, new_simulation, record_simulation,
  ConfirmReceiptInput, update_receipts, settle, confirm_receipt, invalidate_action, outcome_status,
  is_operation_call, call_count_of,
}
use tr4ce_app.Actions.Repository.InOrder.{
  sent_of, InOrder, InOrder-same, InOrder-update, find_receipt-update, count_receipts-update,
}

pub record_simulation-InOrder :
    (input : RecordSimulationInput) (store : Store) {after : Store}
    → record_simulation input store ≡ ok after
    → InOrder store
    → InOrder after
unfolding record_simulation
record_simulation-InOrder input store e o =
    let (_, e1) =
      throw_if-ok (not (simulation_allowed (new_simulation input))) constraint_violation _ e in
    let (_, e2) =
      throw_if-ok (not (is_some (find_action input.action_id store.actions))) constraint_violation _
        e1 in
    InOrder-update input.action_id _ (λ a. refl) (λ a. refl) (update_action-ok _ _ _ e2)
      (InOrder-same (λ id. refl) (λ id i. refl) (λ id. refl) o)

pub invalidate_action-InOrder :
    (id : ℕ) (status : ActionStatus) (reason : String) (store : Store) {after : Store}
    → invalidate_action id status reason store ≡ ok after
    → InOrder store
    → InOrder after
unfolding invalidate_action
invalidate_action-InOrder id status reason store e o =
    InOrder-update id _ (λ a. refl) (λ a. refl) (update_action-ok _ _ _ e) o

settle-InOrder :
    (input : ConfirmReceiptInput) (action : Option Action) (store : Store) {after : Store}
    → settle input action store ≡ ok after
    → InOrder store
    → InOrder after
unfolding settle
settle-InOrder input none store e o = subst InOrder (ok_inj e) o
settle-InOrder input (some action) store {after} e o =
    by_test
      (is_operation_call action input.call_index && leb (call_count_of action) action.sent_count) e
  where
    by_test :
        (t : Bool)
        → (if t
            then update_action input.action_id
                (λ a. record a { status = outcome_status input.status })
                store
            else ok store)
          ≡ ok after
        → InOrder after
    by_test true e =
        InOrder-update input.action_id _ (λ a. refl) (λ a. refl) (update_action-ok _ _ _ e) o
    by_test false e = subst InOrder (ok_inj e) o

pub confirm_receipt-InOrder :
    (input : ConfirmReceiptInput) (store : Store) {after : Store}
    → confirm_receipt input store ≡ ok after
    → InOrder store
    → InOrder after
unfolding confirm_receipt
confirm_receipt-InOrder input store e o =
    let (_, e1) =
      throw_if-ok (not (all (λ r. receipt_allowed r) (update_receipts input store.receipts)))
        constraint_violation _ e in
    settle-InOrder input (find_action input.action_id store.actions) _ e1 (
      InOrder-same (λ id. refl) (λ id i. find_receipt-update input store.receipts id i)
        (λ id. count_receipts-update input store.receipts id) o)

-- A new row has no report, and neither had its unused id.
insert_action-InOrder :
    (a : Action) (store : Store) {after : Store}
    → a.sent_count ≡ 0
    → insert_action a store ≡ ok after
    → InOrder store
    → InOrder after
unfolding insert_action find_action
insert_action-InOrder a store zero_sent e o =
    let (unused, e1) =
      throw_if-ok (is_some (find_action a.action_id store.actions)) constraint_violation _ e in
    let (_, e2) = throw_if-ok (not (action_allowed a)) constraint_violation _ e1 in
    subst InOrder (ok_inj e2)
      (InOrder-same (λ id. ground (arith, unused_sent _ unused)) (λ id i. refl) (λ id. refl) o)
  where
    unused_sent : (found : Option Action) → is_some found ≡ false → sent_of found ≡ 0
    unused_sent none e = refl
    unused_sent (some b) e = cc

insert_or_read-InOrder :
    (input : InsertActionInput) (live : Option Action) (store after : Store) (stored : Action)
    (created : Bool)
    → insert_or_read input live store ≡ ok (after, stored, created)
    → InOrder store
    → InOrder after
unfolding insert_or_read
insert_or_read-InOrder input (some live) store after stored created e o =
    subst InOrder (ap (λ t. t.0) (ok_inj e)) o
insert_or_read-InOrder input none store after stored created e o =
    let (inserted, e1, e2) = >>=-eq-ok (insert_action (new_action input) store) _ e in
    let (row, _, e3) =
      >>=-eq-ok (required vanished (find_action input.action_id inserted.actions)) _ e2 in
    subst InOrder (ap (λ t. t.0) (ok_inj e3))
      (insert_action-InOrder (new_action input) store refl e1 o)

pub insert_prepared_action-InOrder :
    (input : InsertActionInput) (store after : Store) (stored : Action) (created : Bool)
    → insert_prepared_action input store ≡ ok (after, stored, created)
    → InOrder store
    → InOrder after
unfolding insert_prepared_action
insert_prepared_action-InOrder input store after stored created e o =
    let (_, e1) = throw_if-ok (is_empty input.transactions) no_calls _ e in
    insert_or_read-InOrder input (find_live input.calldata_hash store.actions) store after stored
      created e1 o

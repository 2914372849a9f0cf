-- ===== src/Actions/Repository/Settlement.antt =====
-- `confirmReceipt` of packages/db/src/repositories/actions.ts: how an action ends.
use tr4ce_app.Prelude.{
  ℕ, ◌+◌, ◌==◌, ◌<◌, ◌≤◌, ◌≡◌, ◌≢◌, ◌⊎◌, inl, inr, refl, sym, ap, ◌∙◌, subst, Bool, true, false,
  ◌&&◌, not, Option, none, some, List, [], ◌∷◌, ok, leb, all, length, if◌then◌else◌, throw_if-ok,
  ok_inj, arith,
}
use tr4ce_app.Actions.Store.{
  ActionStatus, ReceiptStatus, Action, Receipt, Store, constraint_violation, receipt_allowed,
  find_action, find_receipt, update_action,
}
use tr4ce_app.Actions.Store.Lookup.{map_option, update_action-ok, find_action-replace_same}
use tr4ce_app.Actions.Repository.{
  ConfirmReceiptInput, update_receipts, outcome_status, settle, confirm_receipt,
}

-- The action's row afterwards: the outcome of its last call, once every call was sent, and otherwise the
-- row as it was.
abbrev pub Ends : ConfirmReceiptInput → Action → Action → Type 0
Ends input action row =
    ((input.call_index + 1 ≡ length action.transactions)
      × (length action.transactions ≤ action.sent_count)
      × (((input.status ≡ ReceiptStatus.success)
            × (row ≡ record action { status = ActionStatus.confirmed }))
          ⊎ ((input.status ≡ ReceiptStatus.reverted)
              × (row ≡ record action { status = ActionStatus.reverted }))))
    ⊎ (((input.call_index + 1 ≢ length action.transactions)
          ⊎ (action.sent_count < length action.transactions))
        × (row ≡ action))

-- What the chain said, written to a receipt that is there.
abbrev pub observed : ConfirmReceiptInput → Option Receipt → Option Receipt
observed input none = none
observed input (some r) = some (record r {
  confirmed_block_number = some input.block_number;
  confirmed_block_hash = some input.block_hash;
  status = some input.status;
  gas_used = some input.gas_used;
  effective_gas_price = input.effective_gas_price;
  actual_amount = input.actual_amount;
  observed_at = some input.observed_at;
})

-- The receipt of the call has what the chain said, and the others are as they were.
pub record Settled (input : ConfirmReceiptInput) (before after : Store) (action row : Action)
    : Type 0 where
  pub found : find_action input.action_id after.actions ≡ some row
  pub ends : Ends input action row
  pub own :
      find_receipt input.action_id input.call_index after.receipts
      ≡ observed input (find_receipt input.action_id input.call_index before.receipts)
  pub others :
      (id i : ℕ)
      → ((id ≡ input.action_id) × (i ≡ input.call_index))
        ⊎ (find_receipt id i after.receipts ≡ find_receipt id i before.receipts)

settle-Ends :
    (input : ConfirmReceiptInput) (action : Action) (store : Store) {after : Store}
    → find_action input.action_id store.actions ≡ some action
    → settle input (some action) store ≡ ok after
    → ((row : Action) × (find_action input.action_id after.actions ≡ some row)
        × Ends input action row)
      × (after.receipts ≡ store.receipts)
unfolding settle
settle-Ends input action store {after} found e =
    by_test _ (closes_iff (input.call_index + 1) (length action.transactions) action.sent_count) e
  where
    closes : Action → Action
    closes a = record a { status = outcome_status input.status }

    closes_iff :
        (i n sent : ℕ)
        → (((i == n && leb n sent) ≡ true) × (i ≡ n) × (n ≤ sent))
          ⊎ (((i == n && leb n sent) ≡ false) × ((i ≢ n) ⊎ (sent < n)))
    closes_iff i n sent = ground arith

    outcome :
        (status : ReceiptStatus)
        → ((status ≡ ReceiptStatus.success)
            × (record action { status = outcome_status status }
                ≡ record action { status = ActionStatus.confirmed }))
          ⊎ ((status ≡ ReceiptStatus.reverted)
              × (record action { status = outcome_status status }
                  ≡ record action { status = ActionStatus.reverted }))
    outcome ReceiptStatus.success = inl (refl, refl)
    outcome ReceiptStatus.reverted = inr (refl, refl)

    by_test :
        (t : Bool)
        → ((t ≡ true)
            × (input.call_index + 1 ≡ length action.transactions)
            × (length action.transactions ≤ action.sent_count))
          ⊎ ((t ≡ false)
              × ((input.call_index + 1 ≢ length action.transactions)
                  ⊎ (action.sent_count < length action.transactions)))
        → (if t then update_action input.action_id closes store else ok store) ≡ ok after
        → ((row : Action) × (find_action input.action_id after.actions ≡ some row)
            × Ends input action row)
          × (after.receipts ≡ store.receipts)
    by_test true (inl (_, last, sent)) e =
        let u = update_action-ok input.action_id closes store e in
        (
          (
            closes action,
            ap (λ rows. find_action input.action_id rows) u.actions
                ∙ (find_action-replace_same input.action_id closes (λ a. refl) store.actions
                    ∙ ap (λ o. map_option closes o) found),
            inl (last, sent, outcome input.status),
          ),
          u.receipts,
        )
    by_test true (inr (t, _)) e = cc
    by_test false (inl (t, _, _)) e = cc
    by_test false (inr (_, waits)) e =
        let same = sym (ok_inj e) in
        (
          (action, ap (λ s. find_action input.action_id s.actions) same ∙ found, inr (waits, refl)),
          ap (λ s. s.receipts) same,
        )

update_receipts-own :
    (input : ConfirmReceiptInput) (rs : List Receipt)
    → find_receipt input.action_id input.call_index (update_receipts input rs)
      ≡ observed input (find_receipt input.action_id input.call_index rs)
unfolding find_receipt update_receipts
update_receipts-own input [] = refl
update_receipts-own input (r ∷ rs) = ground (arith, update_receipts-own input rs)

update_receipts-others :
    (input : ConfirmReceiptInput) (id i : ℕ) (rs : List Receipt)
    → ((id ≡ input.action_id) × (i ≡ input.call_index))
      ⊎ (find_receipt id i (update_receipts input rs) ≡ find_receipt id i rs)
unfolding find_receipt update_receipts
update_receipts-others input id i [] = inr refl
update_receipts-others input id i (r ∷ rs) = ground (arith, update_receipts-others input id i rs)

-- Where the receipt of a call is confirmed, it carries what the chain said, and every other receipt is as
-- it was. The action's row ends as `confirmed` or `reverted`, by the receipt's status, exactly when the
-- call is its last one and every call was sent; otherwise, as for an approval, it stays as it was.
pub confirm_receipt-Settled :
    (input : ConfirmReceiptInput) (store : Store) (after : Store) (action : Action)
    → find_action input.action_id store.actions ≡ some action
    → confirm_receipt input store ≡ ok after
    → (row : Action) × Settled input store after action row
unfolding confirm_receipt
confirm_receipt-Settled input store after action found e =
    let (_, e1) =
      throw_if-ok (not (all (λ r. receipt_allowed r) (update_receipts input store.receipts)))
        constraint_violation _ e in
    let ((row, there, ends), receipts) = settle-Ends input action _ found (
      subst
        (λ o.
          settle input o (record {
            actions = store.actions;
            simulations = store.simulations;
            receipts = update_receipts input store.receipts;
          })
          ≡ ok after)
        found e1) in
    (
      row,
      record {
        found = there;
        ends = ends;
        own =
            ap (λ rs. find_receipt input.action_id input.call_index rs) receipts
            ∙ update_receipts-own input store.receipts;
        others = λ id i.
            subst
              (λ rs.
                ((id ≡ input.action_id) × (i ≡ input.call_index))
                ⊎ (find_receipt id i rs ≡ find_receipt id i store.receipts))
              (sym receipts) (update_receipts-others input id i store.receipts);
      },
    )

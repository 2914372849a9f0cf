-- ===== src/Actions/Repository/Submission.antt =====
-- `recordSubmission` of packages/db/src/repositories/actions.ts: what a reported hash leaves behind.
use tr4ce_app.Prelude.{
  ℕ, ◌==◌, ◌≡◌, ◌≢◌, inl, inr, refl, sym, ap, ◌∙◌, subst, Bool, false, not, Option, none, some, ok,
  err, arith, is_some, leb, if◌then◌else◌, throw_if-ok, ok_inj, >>=-eq-ok,
}
use tr4ce_app.Actions.Store.{
  submitted, prepared, Action, Receipt, Store, ActionFailure, no_action, vanished, different_hash,
  find_action, replace_action, update_action, find_receipt, count_receipts, insert_receipt,
}
use tr4ce_app.Actions.Store.Lookup.{
  map_option, update_action-ok, find_action-replace_same, insert_receipt-cases,
}
use tr4ce_app.Actions.Repository.{
  required, RecordSubmissionInput, new_receipt, after_submission, call_count_of, record_submission,
}

pub required-ok :
    {A : Type 0} (failure : ActionFailure) (o : Option A) {a : A}
    → required failure o ≡ ok a
    → o ≡ some a
required-ok failure none e = cc
required-ok failure (some b) e = ap (λ x. some x) (ok_inj e)

-- What a successful report leaves: the row it found, the receipts with the hash among them, and the
-- row written from their number.
pub record Reported (input : RecordSubmissionInput) (before after : Store) (sent_count : ℕ)
    : Type 0 where
  pub action : Action
  pub found : find_action input.action_id before.actions ≡ some action
  pub inserted : insert_receipt (new_receipt input) before.receipts ≡ ok after.receipts
  pub receipt : Receipt
  pub kept : find_receipt input.action_id input.call_index after.receipts ≡ some receipt
  pub same_hash : receipt.transaction_hash ≡ input.transaction_hash
  pub counted : sent_count ≡ count_receipts input.action_id after.receipts
  pub rows :
      after.actions
      ≡ replace_action input.action_id
          (after_submission sent_count (leb (call_count_of action) sent_count))
          before.actions
  pub simulations : after.simulations ≡ before.simulations

pub record_submission-Reported :
    (input : RecordSubmissionInput) (store after : Store) (sent_count : ℕ) (all_sent : Bool)
    → record_submission input store ≡ ok (after, sent_count, all_sent)
    → Reported input store after sent_count
unfolding record_submission
record_submission-Reported input store after sent_count all_sent e =
    let (action, found, e1) =
      >>=-eq-ok (required no_action (find_action input.action_id store.actions)) _ e in
    let (receipts, inserted, e2) =
      >>=-eq-ok (insert_receipt (new_receipt input) store.receipts) _ e1 in
    let (existing, kept, e3) =
      >>=-eq-ok (required vanished (find_receipt input.action_id input.call_index receipts)) _ e2 in
    let (matching, e4) =
      throw_if-ok (not (existing.transaction_hash == input.transaction_hash)) different_hash _ e3 in
    let (updated, written, e5) = >>=-eq-ok (update_action input.action_id _ _) _ e4 in
    let u = update_action-ok _ _ _ written in
    let here : updated ≡ after = ap (λ t. t.0) (ok_inj e5) in
    let count : count_receipts input.action_id receipts ≡ sent_count = ap (λ t. t.1) (ok_inj e5) in
    let there : receipts ≡ after.receipts = sym u.receipts ∙ ap (λ s. s.receipts) here in
    record {
      action = action;
      found = required-ok no_action _ found;
      inserted =
          subst (λ rs. insert_receipt (new_receipt input) store.receipts ≡ ok rs) there inserted;
      receipt = existing;
      kept =
          subst (λ rs. find_receipt input.action_id input.call_index rs ≡ some existing) there
            (required-ok vanished _ kept);
      same_hash = ground arith;
      counted = sym count ∙ ap (λ rs. count_receipts input.action_id rs) there;
      rows =
          subst
            (λ n.
              after.actions
              ≡ replace_action input.action_id (after_submission n (leb (call_count_of action) n))
                  store.actions)
            count (sym (ap (λ s. s.actions) here) ∙ u.actions);
      simulations = sym (ap (λ s. s.simulations) here) ∙ u.simulations;
    }

some_inj : {A : Type 0} {a b : A} → some a ≡ some b → a ≡ b
some_inj e = cc

-- The row of the action after a successful report carries the number of its receipts, and is
-- `submitted` when that covers its calls and `prepared` when it does not, whatever it was before.
pub record_submission-row :
    (input : RecordSubmissionInput) (store after : Store) (n : ℕ) (all_sent : Bool)
    (action : Action)
    → find_action input.action_id store.actions ≡ some action
    → record_submission input store ≡ ok (after, n, all_sent)
    → (n ≡ count_receipts input.action_id after.receipts)
      × (find_action input.action_id after.actions
          ≡ some (record action {
            sent_count = n;
            status = if leb (call_count_of action) n then submitted else prepared;
          }))
record_submission-row input store after n all_sent action found e =
    let r = record_submission-Reported input store after n all_sent e in
    let same : r.action ≡ action = some_inj (sym r.found ∙ found) in
    let written : Action → Action = after_submission n (leb (call_count_of r.action) n) in
    (
      r.counted,
      ap (λ rows. find_action input.action_id rows) r.rows
          ∙ (find_action-replace_same input.action_id written (λ a. refl) store.actions
              ∙ (ap (λ o. map_option written o) found
                  ∙ ap (λ a. some (after_submission n (leb (call_count_of a) n) action)) same)),
    )

-- Reporting a call again under the hash that it has is accepted without touching a receipt.
pub record_submission-again :
    (input : RecordSubmissionInput) (store after : Store) (n : ℕ) (all_sent : Bool)
    (receipt : Receipt)
    → find_receipt input.action_id input.call_index store.receipts ≡ some receipt
    → record_submission input store ≡ ok (after, n, all_sent)
    → (after.receipts ≡ store.receipts) × (receipt.transaction_hash ≡ input.transaction_hash)
record_submission-again input store after n all_sent receipt known e =
    let r = record_submission-Reported input store after n all_sent e in
    let unchanged : after.receipts ≡ store.receipts =
      elim (insert_receipt-cases (new_receipt input) store.receipts r.inserted) [
        | inl (_, same) ↦ same
        | inr (absent, _) ↦ absurd (cc (sym absent ∙ ap (λ o. is_some o) known))
      ] in
    let kept : r.receipt ≡ receipt = some_inj (
      sym r.kept
      ∙ (ap (λ rs. find_receipt input.action_id input.call_index rs) unchanged ∙ known)) in
    (unchanged, sym (ap (λ x. x.transaction_hash) kept) ∙ r.same_hash)

-- A hash is never overwritten: a call that was reported under one hash is refused under any other.
pub record_submission-different_hash :
    (input : RecordSubmissionInput) (store : Store) (action : Action) (receipt : Receipt)
    → find_action input.action_id store.actions ≡ some action
    → find_receipt input.action_id input.call_index store.receipts ≡ some receipt
    → receipt.transaction_hash ≢ input.transaction_hash
    → record_submission input store ≡ err different_hash
unfolding record_submission insert_receipt
record_submission-different_hash input store action receipt found known differs =
    let other : (receipt.transaction_hash == input.transaction_hash) ≡ false = ground arith in
    rw found (rw known (rw known (rw other refl)))

-- ===== src/Actions/Service/Resubmission.antt =====
-- What becomes of a settled action when its hash is reported again to `reportSubmission` of
-- apps/api/src/services/action-service.ts.
use tr4ce_app.Prelude.{
  ℕ, ◌≡◌, refl, ap, ◌∙◌, Bool, true, Option, some, ok, arith, is_some, leb, length, if◌then◌else◌,
}
use tr4ce_app.Prelude.Int.{ℤ}
use tr4ce_app.Platform.{Platform}
use tr4ce_app.Actions.Store.{
  submitted, prepared, Action, Receipt, ReceiptStatus, Store, is_sent, action_allowed, find_action,
  find_receipt, count_receipts,
}
use tr4ce_app.Actions.Receipts.{Log, VaultEvent}
use tr4ce_app.Actions.Repository.{RecordSubmissionInput, call_count_of}
use tr4ce_app.Actions.Repository.Submission.{record_submission-row, record_submission-again}
use tr4ce_app.Actions.Repository.InOrder.{InOrder, sent_of}
use tr4ce_app.Actions.Service.{ActionChain, submit, observe_receipt, is_settled}
use tr4ce_app.Actions.Service.InOrder.{submit-recorded}

module _ (p : Platform) (decode : Log → Option VaultEvent) where
  -- In tables whose reports are in order: when a call whose receipt was observed is reported again
  -- and the report is accepted, for an action that the constraints allow and that was sent in full,
  -- whatever its outcome, the action becomes `submitted`, and the look for the receipt that follows
  -- changes nothing, so that the outcome is not written back.
  pub submit-settled :
      (chain : ActionChain) (now : ℤ) (input : RecordSubmissionInput) (store after : Store) (n : ℕ)
      (all_sent : Bool) (action : Action) (receipt : Receipt) (status : ReceiptStatus)
      → InOrder store
      → find_action input.action_id store.actions ≡ some action
      → action_allowed action ≡ true
      → is_sent action.status ≡ true
      → find_receipt input.action_id input.call_index store.receipts ≡ some receipt
      → receipt.status ≡ some status
      → submit input store ≡ ok (after, n, all_sent)
      → (find_action input.action_id after.actions ≡ some (record action { status = submitted }))
        × (observe_receipt p decode chain now input.action_id input.call_index
              input.transaction_hash after
            ≡ ok after)
  unfolding observe_receipt
  submit-settled chain now input store after n all_sent action receipt status o found allowed sent
        known observed e =
      let recorded = submit-recorded input store after n all_sent e in
      let (counted, row) =
        record_submission-row input store after n all_sent action found recorded in
      let (unchanged, _) =
        record_submission-again input store after n all_sent receipt known recorded in
      let count : n ≡ action.sent_count =
        counted
        ∙ (ap (λ rs. count_receipts input.action_id rs) unchanged
            ∙ (o.counted input.action_id ∙ ap (λ a. sent_of a) found)) in
      let full : action.sent_count ≡ length action.transactions = sent_full action allowed sent in
      let settled : is_settled (find_receipt input.action_id input.call_index after.receipts)
          ≡ true =
        ap (λ rs. is_settled (find_receipt input.action_id input.call_index rs)) unchanged
        ∙ (ap (λ r. is_settled r) known ∙ ap (λ s. is_some s) observed) in
      (row ∙ ap (λ a. some a) (rewritten action n count full), rw settled refl)
    where
      sent_full :
          (a : Action)
          → action_allowed a ≡ true
          → is_sent a.status ≡ true
          → a.sent_count ≡ length a.transactions
      sent_full a h s = ground arith

      rewritten :
          (a : Action) (n : ℕ)
          → n ≡ a.sent_count
          → a.sent_count ≡ length a.transactions
          → record a {
            sent_count = n;
            status = if leb (call_count_of a) n then submitted else prepared;
          }
            ≡ record a { status = submitted }
      rewritten a n e f =
          let closed : (if leb (call_count_of a) n then submitted else prepared) ≡ submitted =
            ground arith in
          λ i. record a { sent_count = e i; status = closed i }

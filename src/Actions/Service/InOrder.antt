-- ===== src/Actions/Service/InOrder.antt =====
-- The calls of an action are reported in signing order: `reportSubmission` and `simulateNextCall` of
-- apps/api/src/services/action-service.ts.
use tr4ce_app.Prelude.{
  ℕ, ◌+◌, ◌==◌, ◌≡◌, ◌≢◌, ◌⊎◌, inl, inr, refl, sym, ap, ◌∙◌, subst, Bool, true, false, ◌&&◌, not,
  Result, ok, err, arith, is_some, leb, get_elem?, if◌then◌else◌, throw_if-ok, >>=-eq-ok, ==_iff,
  Bool-cases,
}
use tr4ce_app.Actions.Store.{
  Action, Store, ActionFailure, action_not_found, invalid_request, action_not_available,
  find_action, find_receipt, count_receipts, replace_action,
}
use tr4ce_app.Actions.Store.Lookup.{
  map_option, find_action-replace_same, find_action-replace_other, insert_receipt-cases,
  count_receipts-same,
}
use tr4ce_app.Actions.Repository.{
  required, RecordSubmissionInput, new_receipt, after_submission, call_count_of, record_submission,
}
use tr4ce_app.Actions.Repository.Submission.{Reported, record_submission-Reported, required-ok}
use tr4ce_app.Actions.Repository.InOrder.{sent_of, sent_in, InOrder, InOrder-same, InOrder-extend}
use tr4ce_app.Actions.Service.{submit, refused}

refused-ok : {A : Type 0} (m : Result ActionFailure A) {a : A} → refused m ≡ ok a → m ≡ ok a
refused-ok (ok b) e = e
refused-ok (err failure) e = cc

-- The counts after a report: the row's is the number of its receipts, the others' are as they were.
sent_in-Reported :
    (input : RecordSubmissionInput) (store after : Store) (n : ℕ)
    → Reported input store after n
    → (j : ℕ) → sent_in after j ≡ (if input.action_id == j then n else sent_in store j)
sent_in-Reported input store after n r j =
    ap (λ rows. sent_of (find_action j rows)) r.rows ∙ by_test (Bool-cases (input.action_id == j))
  where
    written : Action → Action
    written = after_submission n (leb (call_count_of r.action) n)

    same_row :
        input.action_id ≡ j
        → sent_of (find_action j (replace_action input.action_id written store.actions)) ≡ n
    same_row e =
        subst
          (λ i. sent_of (find_action i (replace_action input.action_id written store.actions)) ≡ n)
          e
          (ap (λ o. sent_of o)
            (find_action-replace_same input.action_id written (λ a. refl) store.actions
              ∙ ap (λ o. map_option written o) r.found))

    other_row :
        input.action_id ≢ j
        → sent_of (find_action j (replace_action input.action_id written store.actions))
          ≡ sent_in store j
    other_row d =
        ap (λ o. sent_of o)
          (find_action-replace_other input.action_id written (λ a. refl) j store.actions
            (λ e. d (sym e)))

    by_test :
        ((input.action_id == j) ≡ true) ⊎ ((input.action_id == j) ≡ false)
        → sent_of (find_action j (replace_action input.action_id written store.actions))
          ≡ (if input.action_id == j then n else sent_in store j)
    by_test (inl e) =
        same_row ((==_iff _ _).0 e) ∙ sym (ap (λ t. if t then n else sent_in store j) e)
    by_test (inr e) =
        other_row (λ d. cc (sym e ∙ (==_iff _ _).1 d))
        ∙ sym (ap (λ t. if t then n else sent_in store j) e)

-- What the guards of the service let through.
record Guarded (input : RecordSubmissionInput) (store : Store) : Type 0 where
  next :
      is_some (find_receipt input.action_id input.call_index store.receipts) ≡ false
      → input.call_index ≡ sent_in store input.action_id

Reported-InOrder :
    (input : RecordSubmissionInput) (store after : Store) (n : ℕ)
    → Guarded input store
    → Reported input store after n
    → InOrder store
    → InOrder after
Reported-InOrder input store after n g r o =
    elim (insert_receipt-cases (new_receipt input) store.receipts r.inserted) [
      | inl (found, unchanged) ↦
          InOrder-same
            (λ id.
              sents id
              ∙ (ap (λ m. if input.action_id == id then m else sent_in store id)
                    (r.counted
                      ∙ (ap (λ rs. count_receipts input.action_id rs) unchanged
                          ∙ o.counted input.action_id))
                  ∙ at_own id))
            (λ id i. ap (λ rs. is_some (find_receipt id i rs)) unchanged)
            (λ id. ap (λ rs. count_receipts id rs) unchanged) o
      | inr (absent, added) ↦
          InOrder-extend (new_receipt input) added (g.next absent)
            (λ id.
              sents id
              ∙ (ap (λ m. if input.action_id == id then m else sent_in store id)
                    (r.counted
                      ∙ (ap (λ rs. count_receipts input.action_id rs) added
                          ∙ (count_receipts-same (new_receipt input) store.receipts
                              ∙ ap (λ m. m + 1) (o.counted input.action_id))))
                  ∙ at_next id))
            o
    ]
  where
    sents : (id : ℕ) → sent_in after id ≡ (if input.action_id == id then n else sent_in store id)
    sents id = sent_in-Reported input store after n r id

    at_own :
        (id : ℕ)
        → (if input.action_id == id then sent_in store input.action_id else sent_in store id)
          ≡ sent_in store id
    at_own id = elim (Bool-cases (input.action_id == id)) [
      | inl e ↦
          ap (λ t. if t then sent_in store input.action_id else sent_in store id) e
          ∙ ap (λ i. sent_in store i) ((==_iff _ _).0 e)
      | inr e ↦ ap (λ t. if t then sent_in store input.action_id else sent_in store id) e
    ]

    at_next :
        (id : ℕ)
        → (if input.action_id == id then sent_in store input.action_id + 1 else sent_in store id)
          ≡ (if input.action_id == id then sent_in store id + 1 else sent_in store id)
    at_next id = elim (Bool-cases (input.action_id == id)) [
      | inl e ↦
          ap (λ i. if input.action_id == id then sent_in store i + 1 else sent_in store id)
            ((==_iff _ _).0 e)
      | inr e ↦
          ap (λ t. if t then sent_in store input.action_id + 1 else sent_in store id) e
          ∙ sym (ap (λ t. if t then sent_in store id + 1 else sent_in store id) e)
    ]

-- A report that the service accepts was recorded.
pub submit-recorded :
    (input : RecordSubmissionInput) (store after : Store) (n : ℕ) (all_sent : Bool)
    → submit input store ≡ ok (after, n, all_sent)
    → record_submission input store ≡ ok (after, n, all_sent)
unfolding submit
submit-recorded input store after n all_sent e =
    let (stored, _, e1) =
      >>=-eq-ok (required action_not_found (find_action input.action_id store.actions)) _ e in
    let (_, _, e2) =
      >>=-eq-ok (required invalid_request (get_elem? stored.transactions input.call_index)) _ e1 in
    let (_, e3) = throw_if-ok _ action_not_available _ e2 in refused-ok _ e3

-- A report that the service accepts keeps the reported calls of every action in order.
pub submit-InOrder :
    (input : RecordSubmissionInput) (store after : Store) (n : ℕ) (all_sent : Bool)
    → submit input store ≡ ok (after, n, all_sent)
    → InOrder store
    → InOrder after
unfolding submit
submit-InOrder input store after n all_sent e o =
    let (stored, found, e1) =
      >>=-eq-ok (required action_not_found (find_action input.action_id store.actions)) _ e in
    let (call, _, e2) =
      >>=-eq-ok (required invalid_request (get_elem? stored.transactions input.call_index)) _ e1 in
    let (guarded, e3) = throw_if-ok _ action_not_available _ e2 in
    let sent : stored.sent_count ≡ sent_in store input.action_id =
      sym (ap (λ o. sent_of o) (required-ok action_not_found _ found)) in
    Reported-InOrder input store after n
      (record { next = λ absent. next_call _ _ _ guarded absent ∙ sent })
      (record_submission-Reported input store after n all_sent (refused-ok _ e3)) o
  where
    next_call :
        (found : Bool) (i n : ℕ) → (not found && not (i == n)) ≡ false → found ≡ false → i ≡ n
    next_call found i n g a = ground arith

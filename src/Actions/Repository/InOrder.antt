-- ===== src/Actions/Repository/InOrder.antt =====
-- The calls of an action are reported in signing order: what that means of the tables of
-- packages/db/src/repositories/actions.ts, and the writes that leave it so.
pub mod Writes
use tr4ce_app.Prelude.{
  ℕ, ◌+◌, ◌==◌, ◌≡◌, ◌≢◌, ◌⊎◌, inl, inr, refl, sym, ap, ◌∙◌, subst, Bool, true, false, ◌&&◌, not,
  Option, none, some, List, [], ◌∷◌, Result, ok, err, ◌>>=◌, ◌>>◌, throw_if, arith, is_some, ltb,
  leb, all, get_elem?, if◌then◌else◌, throw_if-ok, ok_inj, >>=-eq-ok, Bool-cases, Option-cases,
}
use tr4ce_app.Prelude.Int.{ℤ}
use tr4ce_app.Actions.Store.{
  Action, Receipt, Store, ActionStatus, ActionFailure, constraint_violation, action_not_found,
  invalid_request, action_not_available, is_receipt_of, find_action, replace_action, update_action,
  find_receipt, count_receipts, insert_receipt, receipt_allowed,
}
use tr4ce_app.Actions.Store.Lookup.{
  map_option, Updated, update_action-ok, find_action-replace_same, find_action-replace_other,
  insert_receipt-cases, count_receipts-same, count_receipts-other, find_receipt-same,
  find_receipt-other,
}
use tr4ce_app.Actions.Repository.{
  required, RecordSubmissionInput, new_receipt, after_submission, call_count_of, record_submission,
  ConfirmReceiptInput, update_receipts, confirm_receipt, RecordSimulationInput, record_simulation,
  invalidate_action,
}

abbrev pub sent_of : Option Action → ℕ
sent_of none = 0
sent_of (some a) = a.sent_count

abbrev pub sent_in : Store → ℕ → ℕ
sent_in store id = sent_of (find_action id store.actions)

-- The reported calls of every action are exactly those before its next one, each reported once; an
-- id without an action has no report.
pub record InOrder (store : Store) : Type 0 where
  pub reported : (id i : ℕ) → is_some (find_receipt id i store.receipts) ≡ ltb i (sent_in store id)
  pub counted : (id : ℕ) → count_receipts id store.receipts ≡ sent_in store id

-- An operation that changes neither the counts nor the reported calls.
pub InOrder-same :
    {before after : Store}
    → ((id : ℕ) → sent_in after id ≡ sent_in before id)
    → ((id i : ℕ)
        → is_some (find_receipt id i after.receipts) ≡ is_some (find_receipt id i before.receipts))
    → ((id : ℕ) → count_receipts id after.receipts ≡ count_receipts id before.receipts)
    → InOrder before
    → InOrder after
InOrder-same {before} {after} sents founds counts o = record {
  reported = λ id i. founds id i ∙ (o.reported id i ∙ ap (λ n. ltb i n) (sym (sents id)));
  counted = λ id. counts id ∙ (o.counted id ∙ sym (sents id));
}

pub sent_of-replace :
    (id : ℕ) (f : Action → Action)
    → ((a : Action) → (f a).action_id ≡ a.action_id)
    → ((a : Action) → (f a).sent_count ≡ a.sent_count)
    → (rows : List Action) (j : ℕ)
    → sent_of (find_action j (replace_action id f rows)) ≡ sent_of (find_action j rows)
unfolding find_action replace_action
sent_of-replace id f ids sents [] j = refl
sent_of-replace id f ids sents (a ∷ rows) j =
    ground (arith, sent_of-replace id f ids sents rows j, ids a, sents a)

-- An update of a row that leaves its id and its count alone.
pub InOrder-update :
    (id : ℕ) (f : Action → Action)
    → ((a : Action) → (f a).action_id ≡ a.action_id)
    → ((a : Action) → (f a).sent_count ≡ a.sent_count)
    → {before after : Store} → Updated id f before after
    → InOrder before
    → InOrder after
InOrder-update id f ids sents {before} {after} u o =
    InOrder-same
      (λ j.
        ap (λ rows. sent_of (find_action j rows)) u.actions
        ∙ sent_of-replace id f ids sents before.actions j)
      (λ j i. ap (λ rs. is_some (find_receipt j i rs)) u.receipts)
      (λ j. ap (λ rs. count_receipts j rs) u.receipts) o

pub find_receipt-update :
    (input : ConfirmReceiptInput) (rs : List Receipt) (j i : ℕ)
    → is_some (find_receipt j i (update_receipts input rs)) ≡ is_some (find_receipt j i rs)
unfolding find_receipt update_receipts
find_receipt-update input [] j i = refl
find_receipt-update input (r ∷ rs) j i = ground (arith, find_receipt-update input rs j i)

pub count_receipts-update :
    (input : ConfirmReceiptInput) (rs : List Receipt) (j : ℕ)
    → count_receipts j (update_receipts input rs) ≡ count_receipts j rs
unfolding count_receipts update_receipts
count_receipts-update input [] j = refl
count_receipts-update input (r ∷ rs) j = ground (arith, count_receipts-update input rs j)

-- A report that goes in for the next call.
pub InOrder-extend :
    (r : Receipt) {before after : Store}
    → after.receipts ≡ r ∷ before.receipts
    → r.call_index ≡ sent_in before r.action_id
    → ((j : ℕ)
        → sent_in after j ≡ (if r.action_id == j then sent_in before j + 1 else sent_in before j))
    → InOrder before
    → InOrder after
unfolding find_receipt count_receipts
InOrder-extend r {before} {after} added next sents o = record {
  reported = λ j i. ap (λ rs. is_some (find_receipt j i rs)) added ∙ reported_at j i;
  counted = λ j. ap (λ rs. count_receipts j rs) added ∙ counted_at j;
}
  where
    reported_at :
        (j i : ℕ) → is_some (find_receipt j i (r ∷ before.receipts)) ≡ ltb i (sent_in after j)
    reported_at j i = ground (arith, o.reported j i, sents j)

    counted_at : (j : ℕ) → count_receipts j (r ∷ before.receipts) ≡ sent_in after j
    counted_at j = ground (arith, o.counted j, sents j)

-- ===== src/Actions/Store/Lookup.antt =====
-- What a lookup finds after a write to the tables of packages/db/migrations/0004_prepared_actions.sql.
use tr4ce_app.Prelude.{
  ℕ, ◌+◌, ◌≡◌, ◌≢◌, ◌⊎◌, inl, inr, refl, sym, ap, Bool, true, false, ◌&&◌, not, Option, none, some,
  List, [], ◌∷◌, ok, arith, all, is_some, subst, throw_if, ◌>>◌, throw_if-ok, ok_inj, if◌then◌else◌,
}
use tr4ce_app.Actions.Store.{
  Action, Receipt, Store, constraint_violation, action_allowed, live_unique, find_action,
  replace_action, update_action, find_receipt, count_receipts, insert_receipt, is_receipt_of,
}

abbrev pub map_option : (Action → Action) → Option Action → Option Action
map_option f none = none
map_option f (some a) = some (f a)

-- What an update leaves of the tables.
pub record Updated (id : ℕ) (f : Action → Action) (before after : Store) : Type 0 where
  pub actions : after.actions ≡ replace_action id f before.actions
  pub simulations : after.simulations ≡ before.simulations
  pub receipts : after.receipts ≡ before.receipts
  pub rows_allowed : all (λ a. action_allowed a) after.actions ≡ true
  pub unique : live_unique after.actions ≡ true

pub update_action-ok :
    (id : ℕ) (f : Action → Action) (store : Store) {after : Store}
    → update_action id f store ≡ ok after
    → Updated id f store after
unfolding update_action
update_action-ok id f store {after} e =
    let rows = replace_action id f store.actions in
    let (passed, result) =
      throw_if-ok (not (all (λ a. action_allowed a) rows && live_unique rows)) _ _ e in
    let written = ok_inj result in
    record {
      actions = sym (ap (λ s. s.actions) written);
      simulations = sym (ap (λ s. s.simulations) written);
      receipts = sym (ap (λ s. s.receipts) written);
      rows_allowed =
          subst (λ s. all (λ a. action_allowed a) s.actions ≡ true) written (both _ _ passed).0;
      unique = subst (λ s. live_unique s.actions ≡ true) written (both _ _ passed).1;
    }
  where
    both : (s t : Bool) → not (s && t) ≡ false → (s ≡ true) × (t ≡ true)
    both true true h = (refl, refl)
    both true false h = cc
    both false t h = cc

module _ (id : ℕ) (f : Action → Action) (keeps : (a : Action) → (f a).action_id ≡ a.action_id) where
  pub find_action-replace_same :
      (rows : List Action)
      → find_action id (replace_action id f rows) ≡ map_option f (find_action id rows)
  unfolding find_action replace_action
  find_action-replace_same [] = refl
  find_action-replace_same (a ∷ rows) = ground (arith, find_action-replace_same rows, keeps a)

  pub find_action-replace_other :
      (j : ℕ) (rows : List Action)
      → j ≢ id
      → find_action j (replace_action id f rows) ≡ find_action j rows
  unfolding find_action replace_action
  find_action-replace_other j [] n = refl
  find_action-replace_other j (a ∷ rows) n =
      ground (arith, find_action-replace_other j rows n, keeps a)

-- An insertion leaves the receipts alone, or puts a new one in front.
pub insert_receipt-cases :
    (r : Receipt) (rs : List Receipt) {after : List Receipt}
    → insert_receipt r rs ≡ ok after
    → ((is_some (find_receipt r.action_id r.call_index rs) ≡ true) × (after ≡ rs))
      ⊎ ((is_some (find_receipt r.action_id r.call_index rs) ≡ false) × (after ≡ r ∷ rs))
unfolding insert_receipt
insert_receipt-cases r rs e = cases _ _ rs (r ∷ rs) e
  where
    cases :
        (t u : Bool) (xs ys : List Receipt) {after : List Receipt}
        → (if t then ok xs else (throw_if u constraint_violation >> ok ys)) ≡ ok after
        → ((t ≡ true) × (after ≡ xs)) ⊎ ((t ≡ false) × (after ≡ ys))
    cases true u xs ys e = inl (refl, sym (ok_inj e))
    cases false u xs ys e = inr (refl, sym (ok_inj (throw_if-ok u constraint_violation _ e).1))

pub count_receipts-same :
    (r : Receipt) (rs : List Receipt)
    → count_receipts r.action_id (r ∷ rs) ≡ count_receipts r.action_id rs + 1
unfolding count_receipts
count_receipts-same r rs = ground arith

pub count_receipts-other :
    (id : ℕ) (r : Receipt) (rs : List Receipt)
    → r.action_id ≢ id
    → count_receipts id (r ∷ rs) ≡ count_receipts id rs
unfolding count_receipts
count_receipts-other id r rs n = ground arith

pub find_receipt-same :
    (r : Receipt) (rs : List Receipt) → find_receipt r.action_id r.call_index (r ∷ rs) ≡ some r
unfolding find_receipt
find_receipt-same r rs = ground arith

pub find_receipt-other :
    (id i : ℕ) (r : Receipt) (rs : List Receipt)
    → is_receipt_of id i r ≡ false
    → find_receipt id i (r ∷ rs) ≡ find_receipt id i rs
unfolding find_receipt
find_receipt-other id i r rs n = ground arith

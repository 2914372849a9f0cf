-- ===== src/Actions/Repository/Insertion.antt =====
-- `insertPreparedAction` of packages/db/src/repositories/actions.ts.
use tr4ce_app.Prelude.{
  ℕ, ◌==◌, ◌≡◌, ◌≢◌, ◌⊎◌, inl, inr, refl, sym, ap, ◌∙◌, subst, Bool, true, false, ◌&&◌, not, Option,
  none, some, List, [], ◌∷◌, ok, arith, ==_iff, All, Member, find-satisfies, find-nowhere, is_some,
  throw_if-ok, ok_inj, >>=-eq-ok,
}
use tr4ce_app.Actions.Store.{
  ActionStatus, is_live, is_live_under, Action, Store, no_calls, vanished, constraint_violation,
  action_allowed, find_action, find_live,
}
use tr4ce_app.Actions.Repository.{
  required, is_empty, InsertActionInput, new_action, insert_action, insert_or_read,
  insert_prepared_action,
}
use tr4ce_app.Actions.Repository.Submission.{required-ok}

-- What the lookup of the digest decides: its row comes back and nothing is written, or there is none and
-- the new row stands in front of the others.
abbrev pub Branches : InsertActionInput → Store → Store → Action → Bool → Type 0
Branches input before after stored created =
    ((created ≡ false)
      × (find_live input.calldata_hash before.actions ≡ some stored)
      × (after ≡ before))
    ⊎ ((created ≡ true)
        × (find_live input.calldata_hash before.actions ≡ none)
        × (find_action input.action_id before.actions ≡ none)
        × (stored ≡ new_action input)
        × (after ≡ record {
          actions = new_action input ∷ before.actions;
          simulations = before.simulations;
          receipts = before.receipts;
        }))

insert_or_read-Branches :
    (input : InsertActionInput) (live : Option Action) (store after : Store) (stored : Action)
    (created : Bool)
    → find_live input.calldata_hash store.actions ≡ live
    → insert_or_read input live store ≡ ok (after, stored, created)
    → Branches input store after stored created
unfolding insert_or_read insert_action find_action
insert_or_read-Branches input (some a) store after stored created f e =
    let p = ok_inj e in inl (sym (ap (λ t. t.2) p), f ∙ ap (λ t. some t.1) p, sym (ap (λ t. t.0) p))
insert_or_read-Branches input none store after stored created f e =
    let (inserted, e1, e2) = >>=-eq-ok (insert_action (new_action input) store) _ e in
    let (row, got, e3) =
      >>=-eq-ok (required vanished (find_action input.action_id inserted.actions)) _ e2 in
    let (unused, e4) =
      throw_if-ok (is_some (find_action input.action_id store.actions)) constraint_violation _ e1 in
    let (_, e5) = throw_if-ok (not (action_allowed (new_action input))) constraint_violation _ e4 in
    let p = ok_inj e3 in
    let rows : inserted.actions ≡ new_action input ∷ store.actions =
      sym (ap (λ s. s.actions) (ok_inj e5)) in
    let here : find_action input.action_id (new_action input ∷ store.actions)
        ≡ some (new_action input) =
      ground arith in
    let same : some (new_action input) ≡ some row =
      sym here
      ∙ (sym (ap (λ rs. find_action input.action_id rs) rows)
          ∙ required-ok vanished (find_action input.action_id inserted.actions) got) in
    inr (
      sym (ap (λ t. t.2) p),
      f,
      absent _ unused,
      sym (some_inj same ∙ ap (λ t. t.1) p),
      sym (ap (λ t. t.0) p) ∙ sym (ok_inj e5),
    )
  where
    absent : (o : Option Action) → is_some o ≡ false → o ≡ none
    absent none e = refl
    absent (some a) e = cc

    some_inj : {a b : Action} → some a ≡ some b → a ≡ b
    some_inj e = cc

pub insert_prepared_action-Branches :
    (input : InsertActionInput) (store after : Store) (stored : Action) (created : Bool)
    → insert_prepared_action input store ≡ ok (after, stored, created)
    → Branches input store after stored created
unfolding insert_prepared_action
insert_prepared_action-Branches input store after stored created e =
    let (_, e1) = throw_if-ok (is_empty input.transactions) no_calls _ e in
    insert_or_read-Branches input (find_live input.calldata_hash store.actions) store after stored
      created refl e1

-- The action awaits its signature.
abbrev pub Awaits : Action → Type 0
Awaits a = (a.status ≡ ActionStatus.prepared) ⊎ (a.status ≡ ActionStatus.simulated)

pub live-Awaits :
    (status : ActionStatus)
    → is_live status ≡ true
    → (status ≡ ActionStatus.prepared) ⊎ (status ≡ ActionStatus.simulated)
live-Awaits status e = ground (arith, e)

-- The action stands under the digest and awaits its signature.
abbrev pub StandsUnder : ℕ → Action → Type 0
StandsUnder digest a = (a.calldata_hash ≡ digest) × Awaits a

-- The row that an insertion adds.
pub record Unsent (input : InsertActionInput) (stored : Action) : Type 0 where
  pub action_id : stored.action_id ≡ input.action_id
  pub kind : stored.kind ≡ input.kind
  pub chain_id : stored.chain_id ≡ input.chain_id
  pub account : stored.account ≡ input.account
  pub calldata_hash : stored.calldata_hash ≡ input.calldata_hash
  pub transactions : stored.transactions ≡ input.transactions
  pub previewed : stored.previewed ≡ input.previewed
  pub expires_at : stored.expires_at ≡ input.expires_at
  pub status : stored.status ≡ ActionStatus.prepared
  pub sent_count : stored.sent_count ≡ 0
  pub invalidated_reason : stored.invalidated_reason ≡ none

-- Either a row of the table that stands under the digest comes back and nothing is written, or no row
-- stands under it or has the new id, and one that is prepared and unsent is added.
abbrev pub Prepared : InsertActionInput → Store → Store → Action → Bool → Type 0
Prepared input before after stored created =
    ((created ≡ false)
      × Member stored before.actions
      × StandsUnder input.calldata_hash stored
      × (after ≡ before))
    ⊎ ((created ≡ true)
        × All (λ a. ¬ StandsUnder input.calldata_hash a × (a.action_id ≢ input.action_id))
            before.actions
        × Unsent input stored
        × (after ≡ record {
          actions = stored ∷ before.actions;
          simulations = before.simulations;
          receipts = before.receipts;
        }))

pub find_live-StandsUnder :
    (digest : ℕ) (rows : List Action) (a : Action)
    → find_live digest rows ≡ some a
    → Member a rows × StandsUnder digest a
unfolding find_live
find_live-StandsUnder digest rows a e =
    let (holds, there) = find-satisfies _ rows a e in
    let (same, live) = both (a.calldata_hash == digest) _ holds in
    (there, ((==_iff _ _).0 same, live-Awaits a.status live))
  where
    both : (s t : Bool) → (s && t) ≡ true → (s ≡ true) × (t ≡ true)
    both true t h = (refl, h)
    both false t h = cc

free :
    (digest id : ℕ) (rows : List Action)
    → find_live digest rows ≡ none
    → find_action id rows ≡ none
    → All (λ a. ¬ StandsUnder digest a × (a.action_id ≢ id)) rows
unfolding find_live find_action
free digest id rows l a = go rows (find-nowhere _ rows l) (find-nowhere _ rows a)
  where
    no_row :
        (row : Action)
        → is_live_under digest row ≡ false
        → (row.action_id == id) ≡ false
        → ¬ StandsUnder digest row × (row.action_id ≢ id)
    no_row row l a = (λ h. absurd (awaits h.0 h.1), λ e. absurd (ground (arith, a, e)))
      where
        awaits : row.calldata_hash ≡ digest → Awaits row → ⊥
        awaits e (inl s) = ground (arith, l, e, s)
        awaits e (inr s) = ground (arith, l, e, s)

    go :
        (rows : List Action)
        → All (λ row. is_live_under digest row ≡ false) rows
        → All (λ row. (row.action_id == id) ≡ false) rows
        → All (λ row. ¬ StandsUnder digest row × (row.action_id ≢ id)) rows
    go [] ls us = tt
    go (row ∷ rows) (l, ls) (a, us) = (no_row row l a, go rows ls us)

-- Preparing is idempotent while an action awaits its signature. Either a row of the table with the
-- digest that is `prepared` or `simulated` comes back, and nothing is written; or there is no such row
-- and none with the new id, and exactly one row is added in front of the actions: the input's, which is
-- `prepared`, with no call sent and no reason against it.
pub insert_prepared_action-Prepared :
    (input : InsertActionInput) (store after : Store) (stored : Action) (created : Bool)
    → insert_prepared_action input store ≡ ok (after, stored, created)
    → Prepared input store after stored created
insert_prepared_action-Prepared input store after stored created e =
    elim (insert_prepared_action-Branches input store after stored created e) [
      | inl (old, found, same) ↦
          let (there, under) =
            find_live-StandsUnder input.calldata_hash store.actions stored found in
          inl (old, there, under, same)
      | inr (new, absent, unused, row, written) ↦ inr (
        new,
        free input.calldata_hash input.action_id store.actions absent unused,
        subst (λ a. Unsent input a) (sym row) unsent,
        written
            ∙ ap
                (λ a. record {
                  actions = a ∷ store.actions;
                  simulations = store.simulations;
                  receipts = store.receipts;
                })
                (sym row),
      )
    ]
  where
    unsent : Unsent input (new_action input)
    unsent = record {
      action_id = refl;
      kind = refl;
      chain_id = refl;
      account = refl;
      calldata_hash = refl;
      transactions = refl;
      previewed = refl;
      expires_at = refl;
      status = refl;
      sent_count = refl;
      invalidated_reason = refl;
    }

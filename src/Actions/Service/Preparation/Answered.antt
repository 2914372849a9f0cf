-- ===== src/Actions/Service/Preparation/Answered.antt =====
-- What `prepareAction` of apps/api/src/services/action-service.ts answers.
use tr4ce_app.Prelude.{
  ℕ, ◌≡◌, inl, inr, refl, sym, ap, ◌∙◌, subst, Bool, true, false, Option, none, some, Member, List,
  String, ok, get_elem?, ok_inj, >>=-eq-ok,
}
use tr4ce_app.Platform.{Platform}
use tr4ce_app.Bytes.{hex_to_bytes}
use tr4ce_app.Chain.Prepare.{Answers}
use tr4ce_app.Actions.Store.{
  UnsignedTransaction, Action, Simulation, Store, action_not_available, internal_error, find_live,
}
use tr4ce_app.Actions.Binding.{SimulationResult}
use tr4ce_app.Actions.Repository.{
  required, InsertActionInput, new_simulation, insert_prepared_action, list_simulations,
}
use tr4ce_app.Actions.Repository.Submission.{required-ok}
use tr4ce_app.Actions.Repository.Insertion.{
  Branches, Awaits, find_live-StandsUnder, insert_prepared_action-Branches,
}
use tr4ce_app.Actions.Repository.InOrder.{InOrder}
use tr4ce_app.Actions.Repository.InOrder.Writes.{
  insert_prepared_action-InOrder, record_simulation-InOrder,
}
use tr4ce_app.Actions.Service.{ActionChain, newest, simulation_row, simulate_and_record}
use tr4ce_app.Actions.Service.Plans.{
  PrepareActionRequest, VaultRegistryEntry, Plan, available, plan_for,
}
use tr4ce_app.Actions.Service.Preparation.{
  Database, PreparedAction, bytes_or_error, add_wallet, simulation_for_call, simulate_call_of,
  resume, record_first, insert_simulated, prepare_under, prepare_action,
}
use tr4ce_app.Actions.Service.Preparation.Recorded.{
  Newest, simulation_for_call-Newest, Held, record_simulation-Held, record_simulation-adds,
  newest-recorded,
}

-- The action stands in the table, and the attempt is what the lookup of its next call finds.
record Current (store : Store) (stored : Action) (attempt : Simulation) : Type 0 where
  held : Held store stored
  next : simulation_for_call stored.action_id stored.sent_count store.simulations ≡ some attempt

-- What is answered is of a row of the table that awaits its signature, and shows the newest simulation in
-- the table of that action and of the call at the row's sent count. Its expiry is left out.
pub record Answered (after : Store) (answer : PreparedAction) : Type 0 where
  pub row : Action
  pub there : Member row after.actions
  pub action_id : row.action_id ≡ answer.action_id
  pub awaits : Awaits row
  pub previewed : row.previewed ≡ answer.previewed
  pub attempt : Simulation
  pub next : Newest answer.action_id row.sent_count attempt after.simulations
  pub success : answer.simulation.success ≡ attempt.success
  pub block_number : answer.simulation.block_number ≡ attempt.block_number
  pub block_hash : answer.simulation.block_hash ≡ attempt.block_hash
  pub gas_estimate : answer.simulation.gas_estimate ≡ attempt.gas_estimate

module _ (p : Platform) (provider_key : String) (chain : ActionChain) where
  simulate_and_record-InOrder :
      (stored : Action) (call_index : ℕ) (call : UnsignedTransaction) (store : Store)
      {after : Store}
      → simulate_and_record provider_key chain stored call_index call store ≡ ok after
      → InOrder store
      → InOrder after
  unfolding simulate_and_record
  simulate_and_record-InOrder stored call_index call store e o =
      record_simulation-InOrder _ store e o

  simulate_and_record-Held :
      (stored : Action) (call_index : ℕ) (call : UnsignedTransaction) (store : Store)
      {after : Store}
      → Member stored store.actions
      → simulate_and_record provider_key chain stored call_index call store ≡ ok after
      → Held after stored
  unfolding simulate_and_record
  simulate_and_record-Held stored call_index call store m e =
      record_simulation-Held _ store stored refl m e

  -- Resuming gives the newest attempt of the call that is next, and keeps the tables in order.
  resume-Current :
      (live : Action) (calls : List UnsignedTransaction) (found : Option Simulation)
      (store after : Store) (attempt : Simulation)
      → Member live store.actions
      → Awaits live
      → simulation_for_call live.action_id live.sent_count store.simulations ≡ found
      → resume p provider_key chain live calls found store ≡ ok (after, attempt)
      → Current after live attempt × (InOrder store → InOrder after)
  unfolding resume simulate_call_of
  resume-Current live calls (some a) store after attempt m w f e =
      let same = ok_inj e in
      (
        record {
          held =
              subst (λ t. Held t.0 live) same
                (record {
                  row = live;
                  there = m;
                  action_id = refl;
                  awaits = w;
                  previewed = refl;
                  sent_count = refl;
                });
          next =
              subst
                (λ t. simulation_for_call live.action_id live.sent_count t.0.simulations ≡ some t.1)
                same f;
        },
        λ o. subst (λ t. InOrder t.0) same o,
      )
  resume-Current live calls none store after attempt m w f e =
      let (call, _, e1) =
        >>=-eq-ok (required action_not_available (get_elem? calls live.sent_count)) _ e in
      let (written, recorded, e2) =
        >>=-eq-ok (simulate_and_record provider_key chain live live.sent_count call store) _ e1 in
      let (row, got, e3) =
        >>=-eq-ok
          (required internal_error
            (simulation_for_call live.action_id live.sent_count written.simulations))
          _ e2 in
      let same = ok_inj e3 in
      (
        record {
          held =
              subst (λ t. Held t.0 live) same
                (simulate_and_record-Held live live.sent_count call store m recorded);
          next =
              subst
                (λ t. simulation_for_call live.action_id live.sent_count t.0.simulations ≡ some t.1)
                same (required-ok internal_error _ got);
        },
        λ o.
            subst (λ t. InOrder t.0) same
              (simulate_and_record-InOrder live live.sent_count call store recorded o),
      )

  insert_simulated-Current :
      (input : InsertActionInput) (simulation : SimulationResult) (store after : Store)
      (stored : Action) (attempt : Simulation)
      → find_live input.calldata_hash store.actions ≡ none
      → insert_simulated p provider_key chain input simulation store ≡ ok (after, stored, attempt)
      → Current after stored attempt × (InOrder store → InOrder after)
  unfolding insert_simulated
  insert_simulated-Current input simulation store after stored attempt absent e =
      let (t, inserted, e1) = >>=-eq-ok (insert_prepared_action input store) _ e in
      let (written, recorded, e2) =
        >>=-eq-ok (record_first p provider_key chain t.2 t.1 input.account simulation t.0) _ e1 in
      let (row, got, e3) =
        >>=-eq-ok
          (required internal_error (newest (list_simulations t.1.action_id written.simulations))) _
          e2 in
      subst (λ u. Current u.0 u.1 u.2 × (InOrder store → InOrder u.0)) (ok_inj e3)
        (by_cases t.0 t.1 t.2 written row
          (insert_prepared_action-Branches input store t.0 t.1 t.2 inserted) inserted recorded
          (required-ok internal_error _ got))
    where
      by_cases :
          (inserted : Store) (action : Action) (created : Bool) (written : Store) (row : Simulation)
          → Branches input store inserted action created
          → insert_prepared_action input store ≡ ok (inserted, action, created)
          → record_first p provider_key chain created action input.account simulation inserted
            ≡ ok written
          → newest (list_simulations action.action_id written.simulations) ≡ some row
          → Current written action row × (InOrder store → InOrder written)
      by_cases inserted action false written row (inl (_, found, _)) i r n = cc
      by_cases inserted action true written row (inl (c, found, _)) i r n = cc
      by_cases inserted action false written row (inr (c, _, _, _, _)) i r n = cc
      by_cases inserted action true written row (inr (_, _, _, new, added)) i r n =
          let adds = record_simulation-adds _ inserted r in
          let (first, next) =
            newest-recorded
              (new_simulation (
                simulation_row provider_key action.action_id 0 input.account chain.current_block
                  simulation))
              inserted.simulations action.action_id action.sent_count refl
              (sym (ap (λ a. a.sent_count) new)) in
          (
            record {
              held =
                  record_simulation-Held _ inserted action refl
                    (subst (λ t. Member action t.actions) (sym added) (inl (sym new))) r;
              next =
                  ap (λ l. simulation_for_call action.action_id action.sent_count l) adds
                  ∙ (next
                      ∙ (sym first
                          ∙ (sym (ap (λ l. newest (list_simulations action.action_id l)) adds)
                              ∙ n)));
            },
            λ o.
                record_simulation-InOrder _ inserted r
                  (insert_prepared_action-InOrder input store inserted action true i o),
          )

  prepare_under-Current :
      (new_id : ℕ) (request : PrepareActionRequest) (vault : VaultRegistryEntry) (plan : Plan)
      (digest : ℕ) (version : String) (found : Option Action) (db after : Database)
      (stored : Action) (attempt : Simulation)
      → find_live digest db.tables.actions ≡ found
      → prepare_under p provider_key chain new_id request vault plan digest version found db
        ≡ ok (after, stored, attempt)
      → Current after.tables stored attempt × (InOrder db.tables → InOrder after.tables)
  unfolding prepare_under
  prepare_under-Current new_id request vault plan digest version (some live) db after stored attempt
        f e =
      let (t, resumed, e1) =
        >>=-eq-ok
          (resume p provider_key chain live plan.calls
            (simulation_for_call live.action_id live.sent_count db.tables.simulations) db.tables)
          _ e in
      let stands = find_live-StandsUnder digest db.tables.actions live f in
      subst (λ u. Current u.0.tables u.1 u.2 × (InOrder db.tables → InOrder u.0.tables)) (ok_inj e1)
        (resume-Current live plan.calls _ db.tables t.0 t.1 stands.0 stands.1.1 refl resumed)
  prepare_under-Current new_id request vault plan digest version none db after stored attempt f e =
      let (first, _, e1) = >>=-eq-ok (required internal_error (get_elem? plan.calls 0)) _ e in
      let (address, _, e2) =
        >>=-eq-ok (bytes_or_error (hex_to_bytes (p.codes request.owner))) _ e1 in
      let (wallets, _, e3) = >>=-eq-ok (add_wallet _ db.wallets) _ e2 in
      let (t, stood, e4) = >>=-eq-ok (insert_simulated p provider_key chain _ _ db.tables) _ e3 in
      subst (λ u. Current u.0.tables u.1 u.2 × (InOrder db.tables → InOrder u.0.tables)) (ok_inj e4)
        (insert_simulated-Current _ _ db.tables t.0 t.1 t.2 f stood)

  prepare_action-both :
      (answers : Answers) (new_id : ℕ) (request : PrepareActionRequest) (vault : VaultRegistryEntry)
      (db after : Database) (answer : PreparedAction)
      → prepare_action p provider_key chain answers new_id request vault db ≡ ok (after, answer)
      → Answered after.tables answer × (InOrder db.tables → InOrder after.tables)
  unfolding prepare_action
  prepare_action-both answers new_id request vault db after answer e =
      let (plan, _, e1) =
        >>=-eq-ok (available (plan_for p answers request.operation request vault)) _ e in
      let (digest, _, e2) = >>=-eq-ok (bytes_or_error (hex_to_bytes _)) _ e1 in
      let (t, stood, e3) =
        >>=-eq-ok (prepare_under p provider_key chain new_id request vault plan _ _ _ db) _ e2 in
      let (current, ordered) =
        prepare_under-Current new_id request vault plan _ _ _ db t.0 t.1 t.2 refl stood in
      subst (λ u. Answered u.0.tables u.1 × (InOrder db.tables → InOrder u.0.tables)) (ok_inj e3)
        (
          record {
            row = current.held.row;
            there = current.held.there;
            action_id = current.held.action_id;
            awaits = current.held.awaits;
            previewed = current.held.previewed;
            attempt = t.2;
            next =
                simulation_for_call-Newest t.1.action_id current.held.row.sent_count t.2
                  t.0.tables.simulations
                  (ap (λ n. simulation_for_call t.1.action_id n t.0.tables.simulations)
                      current.held.sent_count
                    ∙ current.next);
            success = refl;
            block_number = refl;
            block_hash = refl;
            gas_estimate = refl;
          },
          ordered,
        )

  -- What a preparation answers is an action of the table that is `prepared` or `simulated`, new or already
  -- there, and the outcome, block and gas figure of the newest simulation in the table of that action and
  -- of the call whose index is the number of its calls that were sent.
  pub prepare_action-Answered :
      (answers : Answers) (new_id : ℕ) (request : PrepareActionRequest) (vault : VaultRegistryEntry)
      (db after : Database) (answer : PreparedAction)
      → prepare_action p provider_key chain answers new_id request vault db ≡ ok (after, answer)
      → Answered after.tables answer
  prepare_action-Answered answers new_id request vault db after answer e =
      (prepare_action-both answers new_id request vault db after answer e).0

  -- A preparation keeps the reported calls of every action in order.
  pub prepare_action-InOrder :
      (answers : Answers) (new_id : ℕ) (request : PrepareActionRequest) (vault : VaultRegistryEntry)
      (db after : Database) (answer : PreparedAction)
      → prepare_action p provider_key chain answers new_id request vault db ≡ ok (after, answer)
      → InOrder db.tables
      → InOrder after.tables
  prepare_action-InOrder answers new_id request vault db after answer e =
      (prepare_action-both answers new_id request vault db after answer e).1

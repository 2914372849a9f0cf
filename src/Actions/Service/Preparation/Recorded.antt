-- ===== src/Actions/Service/Preparation/Recorded.antt =====
-- What is found after a write, for the preparation of apps/api/src/services/action-service.ts.
use tr4ce_app.Prelude.{
  ◌≢◌, ◌⊎◌, ◌==◌, Member, if◌then◌else◌, refl, ℕ, ◌≡◌, inl, inr, sym, ap, ◌∙◌, subst, not, some,
  List, [], ◌∷◌, ok, arith, is_some, throw_if-ok,
}
use tr4ce_app.Actions.Store.{
  Action, replace_action, Simulation, Store, constraint_violation, find_action, simulation_allowed,
}
use tr4ce_app.Actions.Store.Lookup.{update_action-ok}
use tr4ce_app.Actions.Repository.{
  RecordSimulationInput, new_simulation, record_simulation, list_simulations, after_simulation,
}
use tr4ce_app.Actions.Repository.Insertion.{Awaits}
use tr4ce_app.Actions.Service.{newest}
use tr4ce_app.Actions.Service.Preparation.{simulation_for_call}

-- The newest of the simulations that are of the action and of the call.
abbrev pub Newest : ℕ → ℕ → Simulation → List Simulation → Type 0
Newest id n s [] = ⊥
Newest id n s (x ∷ xs) =
    ((x ≡ s) × (s.action_id ≡ id) × (s.call_index ≡ n))
    ⊎ (((x.action_id ≢ id) ⊎ (x.call_index ≢ n)) × Newest id n s xs)

pub simulation_for_call-Newest :
    (id n : ℕ) (s : Simulation) (simulations : List Simulation)
    → simulation_for_call id n simulations ≡ some s
    → Newest id n s simulations
unfolding simulation_for_call list_simulations
simulation_for_call-Newest id n s [] e = cc
simulation_for_call-Newest id n s (x ∷ xs) e =
    ground (arith, e, simulation_for_call-Newest id n s xs)

-- A row of the table that is the action, as it stands now.
pub record Held (store : Store) (stored : Action) : Type 0 where
  pub row : Action
  pub there : Member row store.actions
  pub action_id : row.action_id ≡ stored.action_id
  pub awaits : Awaits row
  pub previewed : row.previewed ≡ stored.previewed
  pub sent_count : row.sent_count ≡ stored.sent_count

Member-replace :
    (f : Action → Action) (a : Action) (rows : List Action)
    → Member a rows
    → Member (f a) (replace_action a.action_id f rows)
unfolding replace_action
Member-replace f a [] m = m
Member-replace f a (r ∷ rows) (inl same) =
    inl
      (subst (λ r. (if r.action_id == a.action_id then f r else r) ≡ f a) (sym same) (ground arith))
Member-replace f a (r ∷ rows) (inr m) = inr (Member-replace f a rows m)

pub record_simulation-Held :
    (input : RecordSimulationInput) (store : Store) (stored : Action) {after : Store}
    → input.action_id ≡ stored.action_id
    → Member stored store.actions
    → record_simulation input store ≡ ok after
    → Held after stored
unfolding record_simulation
record_simulation-Held input store stored {after} same m e =
    let (_, e1) =
      throw_if-ok (not (simulation_allowed (new_simulation input))) constraint_violation _ e in
    let (_, e2) =
      throw_if-ok (not (is_some (find_action input.action_id store.actions))) constraint_violation _
        e1 in
    record {
      row = after_simulation input.expires_at stored;
      there =
          subst (λ rows. Member (after_simulation input.expires_at stored) rows)
            (ap (λ id. replace_action id (after_simulation input.expires_at) store.actions)
                (sym same)
              ∙ sym
                  (update_action-ok input.action_id (after_simulation input.expires_at) _
                    e2).actions)
            (Member-replace (after_simulation input.expires_at) stored store.actions m);
      action_id = refl;
      awaits = inr refl;
      previewed = refl;
      sent_count = refl;
    }

pub record_simulation-adds :
    (input : RecordSimulationInput) (store : Store) {after : Store}
    → record_simulation input store ≡ ok after
    → after.simulations ≡ new_simulation input ∷ store.simulations
unfolding record_simulation
record_simulation-adds input store e =
    let (_, e1) =
      throw_if-ok (not (simulation_allowed (new_simulation input))) constraint_violation _ e in
    let (_, e2) =
      throw_if-ok (not (is_some (find_action input.action_id store.actions))) constraint_violation _
        e1 in
    (update_action-ok _ _ _ e2).simulations

-- A simulation that was just recorded is the newest, of the action and of its call.
pub newest-recorded :
    (s : Simulation) (rest : List Simulation) (id n : ℕ)
    → s.action_id ≡ id
    → s.call_index ≡ n
    → (newest (list_simulations id (s ∷ rest)) ≡ some s)
      × (simulation_for_call id n (s ∷ rest) ≡ some s)
unfolding list_simulations simulation_for_call
newest-recorded s rest id n a c = (ground arith, ground arith)

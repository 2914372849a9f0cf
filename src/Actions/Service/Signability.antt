-- ===== src/Actions/Service/Signability.antt =====
-- `actionSignability` of apps/api/src/services/action-service.ts: when a stored action may be signed.
use tr4ce_app.Prelude.{
  ℕ, ◌+◌, ◌≤◌, ◌≡◌, ◌↔◌, refl, sym, ap, ◌∙◌, subst, Bool, true, not, Option, none, some, String, ok,
  arith, is_some, ok_inj, ◌>>=◌,
}
use tr4ce_app.Prelude.Int.{ℤ, ◌≤ℤ◌}
use tr4ce_app.Actions.Store.{Action, Simulation, Store, is_live, action_not_found, find_action}
use tr4ce_app.Actions.Repository.{required, list_simulations}
use tr4ce_app.Actions.Service.{
  ActionChain, ActionStatusResponse, judge, newest, status_response, action_signability,
}

-- The newest attempt is a success of the very call that is next, with both budgets unspent.
pub record Covered (stored : Action) (attempt : Option Simulation) (block : ℕ) (now : ℤ)
    : Type 0 where
  pub simulation : Simulation
  pub latest : attempt ≡ some simulation
  pub succeeded : simulation.success ≡ true
  pub next : simulation.call_index ≡ stored.sent_count
  pub in_blocks : block ≤ simulation.block_number + 3
  pub in_time : now ≤ℤ stored.expires_at

judge-signable_iff :
    (stored : Action) (attempt : Option Simulation) (block : ℕ) (now : ℤ)
    → ((judge stored attempt block now).0 ≡ true)
      ↔ ((is_live stored.status ≡ true) × Covered stored attempt block now)
unfolding judge
judge-signable_iff stored none block now = (λ e. ground arith, λ (l, c). cc c.latest)
judge-signable_iff stored (some s) block now = (
  λ e. (
    ground arith,
    record {
      simulation = s;
      latest = refl;
      succeeded = ground arith;
      next = ground arith;
      in_blocks = ground arith;
      in_time = ground arith;
    },
  ),
  λ (l, c).
      let same = some_inj c.latest in
      let won : s.success ≡ true = ap (λ x. x.success) same ∙ c.succeeded in
      let called : s.call_index ≡ stored.sent_count = ap (λ x. x.call_index) same ∙ c.next in
      let blocks : block ≤ s.block_number + 3 =
        subst (λ x. block ≤ x.block_number + 3) (sym same) c.in_blocks in
      ground (arith, c.in_time),
)
  where
    some_inj : {a b : Simulation} → some a ≡ some b → a ≡ b
    some_inj e = cc

-- A verdict against a live action always says why; a verdict for one gives no reason.
judge-reason :
    (stored : Action) (attempt : Option Simulation) (block : ℕ) (now : ℤ)
    → is_live stored.status ≡ true
    → is_some (judge stored attempt block now).1 ≡ not (judge stored attempt block now).0
unfolding judge
judge-reason stored none block now l = ground arith
judge-reason stored (some s) block now l = ground arith

module _ (chain : ActionChain) (now : ℤ) (store : Store) (id : ℕ) (stored : Action) where
  abbrev verdict : Bool × Option String
  verdict =
      judge stored (newest (list_simulations stored.action_id store.simulations))
        chain.current_block.number now

  answer-of :
      (response : ActionStatusResponse)
      → find_action id store.actions ≡ some stored
      → action_signability chain now store id ≡ ok response
      → status_response stored store chain.current_block.number now ≡ response
  unfolding action_signability
  answer-of response found e = ok_inj (
      sym (
        ap
          (λ o. required action_not_found o >>= λ a.
            ok (status_response a store chain.current_block.number now))
          found)
      ∙ e)

  -- An action is answered to be signable exactly when it awaits a signature and its newest simulation
  -- succeeded, was of the call that is next, is at most three blocks old, and has not run out of time.
  pub action_signability-signable_iff :
      (response : ActionStatusResponse)
      → find_action id store.actions ≡ some stored
      → action_signability chain now store id ≡ ok response
      → (response.signable ≡ true) ↔ (
          (is_live stored.status ≡ true)
          × Covered stored
              (newest (list_simulations stored.action_id store.simulations))
              chain.current_block.number
              now)
  unfolding status_response
  action_signability-signable_iff response found e =
      subst
        (λ b. (b ≡ true) ↔ (
          (is_live stored.status ≡ true)
          × Covered stored (newest (list_simulations stored.action_id store.simulations))
              chain.current_block.number now))
        (ap (λ r. r.signable) (answer-of response found e))
        (judge-signable_iff stored _ chain.current_block.number now)

  -- For an action that awaits a signature, the answer has a reason exactly when it is not signable.
  pub action_signability-reason :
      (response : ActionStatusResponse)
      → find_action id store.actions ≡ some stored
      → is_live stored.status ≡ true
      → action_signability chain now store id ≡ ok response
      → is_some response.reason ≡ not response.signable
  unfolding status_response
  action_signability-reason response found live e =
      subst (λ r. is_some r.reason ≡ not r.signable) (answer-of response found e)
        (judge-reason stored _ chain.current_block.number now live)

-- ===== src/Actions/Service/Preparation.antt =====
-- `prepareAction` of apps/api/src/services/action-service.ts, from the plan of its calls to its answer.
pub mod Recorded
pub mod Answered
use tr4ce_app.Prelude.{
  ℕ, ◌+◌, ◌*◌, ◌==◌, Bool, true, false, Option, none, some, List, [], ◌∷◌, ◌++◌, String, Result, ok,
  err, ◌>>=◌, ◌>>◌, throw_if, if◌then◌else◌, any, find, get_elem?,
}
use tr4ce_app.Prelude.Int.{ℤ, pos, pos_part}
use tr4ce_app.Prelude.Text.{join}
use tr4ce_app.Platform.{Platform}
use tr4ce_app.Bytes.{Text, Bytes, HexError, bytes_equal, hex_to_bytes}
use tr4ce_app.Identifiers.{wallet_id}
use tr4ce_app.Chain.Prepare.{
  Answers, PrepareFailure, DepositRequest, RedeemRequest, prepare_deposit, prepare_redeem,
}
use tr4ce_app.Actions.Store.{
  ActionKind, UnsignedTransaction, Action, Simulation, Store, ActionFailure, constraint_violation,
  action_not_available, internal_error, find_live,
}
use tr4ce_app.Actions.Binding.{SimulationResult, action_digest}
use tr4ce_app.Actions.Repository.{
  required, InsertActionInput, insert_prepared_action, record_simulation, list_simulations,
}
use tr4ce_app.Actions.Service.Plans.{
  PrepareActionRequest, VaultRegistryEntry, Plan, available, plan_for,
}
use tr4ce_app.Actions.Service.{Block, ActionChain, newest, simulation_row, simulate_and_record}

-- A row of `wallet` of packages/db/migrations/0002_reports_and_policies.sql.
pub record Wallet : Type 0 where
  pub id : Text
  pub address : Bytes

pub record Database : Type 0 where
  pub wallets : List Wallet
  pub tables : Store

-- `simulation` of `preparedActionV1Schema`; the status and the reason codes are both the attempt's success.
pub record ActionSimulation : Type 0 where
  pub success : Bool
  pub block_number : ℕ
  pub block_hash : ℕ
  pub expires_at : ℤ
  pub gas_estimate : Option ℕ

-- `preparedActionV1Schema` of packages/domain/src/actions.ts; the version is a literal.
pub record PreparedAction : Type 0 where
  pub action_id : ℕ
  pub operation : ActionKind
  pub vault : String
  pub asset : String
  pub owner : String
  pub receiver : String
  pub amount : ℕ
  pub transactions : List UnsignedTransaction
  pub previewed : ℕ
  pub simulation : ActionSimulation

abbrev pub shown : Action → Simulation → ActionSimulation
shown stored attempt = record {
  success = attempt.success;
  block_number = attempt.block_number;
  block_hash = attempt.block_hash;
  expires_at = stored.expires_at;
  gas_estimate = attempt.gas_estimate;
}

abbrev pub build_prepared_action :
    Action
    → PrepareActionRequest
    → VaultRegistryEntry
    → List UnsignedTransaction
    → Simulation
    → PreparedAction
build_prepared_action stored request vault transactions attempt = record {
  action_id = stored.action_id;
  operation = request.operation;
  vault = vault.address;
  asset = vault.asset_address;
  owner = request.owner;
  receiver = request.receiver;
  amount = request.amount;
  transactions = transactions;
  previewed = stored.previewed;
  simulation = shown stored attempt;
}

-- An error that the service does not name is answered as `INTERNAL_ERROR`.
abbrev pub bytes_or_error : Result HexError Bytes → Result ActionFailure Bytes
bytes_or_error (ok bytes) = ok bytes
bytes_or_error (err failure) = err internal_error

-- The number that a column of bytes denotes.
abbrev number_of : ℕ → Bytes → ℕ
number_of n [] = n
number_of n (b ∷ bytes) = number_of (n * 256 + b) bytes

-- `ON CONFLICT (id) DO NOTHING`, under the unique address.
abbrev pub add_wallet : Wallet → List Wallet → Result ActionFailure (List Wallet)
add_wallet new wallets =
    if any (λ w. bytes_equal w.id new.id) wallets
    then ok wallets
    else if any (λ w. bytes_equal w.address new.address) wallets
    then err constraint_violation
    else ok (new ∷ wallets)

unfoldable pub simulation_for_call : ℕ → ℕ → List Simulation → Option Simulation
simulation_for_call action_id call_index simulations =
    find (λ s. s.call_index == call_index) (list_simulations action_id simulations)

module _ (p : Platform) (provider_key : String) (chain : ActionChain) where
  -- The simulation that was just recorded is always found.
  unfoldable pub simulate_call_of :
      Action → ℕ → Option UnsignedTransaction → Store → Result ActionFailure (Store × Simulation)
  simulate_call_of stored call_index call store = do
    given ← required action_not_available call
    after ← simulate_and_record provider_key chain stored call_index given store
    attempt ←
        required internal_error (simulation_for_call stored.action_id call_index after.simulations)
    ok (after, attempt)

  -- The simulation of the call that is next: the newest on record, or one that is run now.
  unfoldable pub resume :
      Action
      → List UnsignedTransaction
      → Option Simulation
      → Store
      → Result ActionFailure (Store × Simulation)
  resume live calls (some attempt) store = ok (store, attempt)
  resume live calls none store =
      simulate_call_of live live.sent_count (get_elem? calls live.sent_count) store

  abbrev pub new_input :
      ℕ
      → PrepareActionRequest
      → VaultRegistryEntry
      → Plan
      → ℕ
      → String
      → SimulationResult
      → InsertActionInput
  new_input new_id request vault plan digest capability_version simulation = record {
    action_id = new_id;
    wallet_id = p.from_codes (wallet_id p (p.codes request.owner));
    vault_id = vault.vault_id;
    report_id = request.report_id;
    kind = request.operation;
    chain_id = request.chain_id;
    account = request.owner;
    calldata_hash = digest;
    capability_version = capability_version;
    transactions = plan.calls;
    previewed = plan.previewed;
    expires_at = pos simulation.expires_at;
  }

  abbrev pub record_first :
      Bool → Action → String → SimulationResult → Store → Result ActionFailure Store
  record_first false stored owner simulation store = ok store
  record_first true stored owner simulation store =
      record_simulation
        (simulation_row provider_key stored.action_id 0 owner chain.current_block simulation) store

  -- The transaction that stores an action with its first simulation, and the read of it that follows.
  unfoldable pub insert_simulated :
      InsertActionInput
      → SimulationResult
      → Store
      → Result ActionFailure (Store × Action × Simulation)
  insert_simulated input simulation store = do
    (inserted, stored, created) ← insert_prepared_action input store
    after ← record_first created stored input.account simulation inserted
    attempt ← required internal_error (newest (list_simulations stored.action_id after.simulations))
    ok (after, stored, attempt)

  -- A plan has a first call. The owner's wallet goes in with the action.
  unfoldable pub prepare_under :
      ℕ
      → PrepareActionRequest
      → VaultRegistryEntry
      → Plan
      → ℕ
      → String
      → Option Action
      → Database
      → Result ActionFailure (Database × Action × Simulation)
  prepare_under new_id request vault plan digest capability_version (some live) db = do
    (after, attempt) ←
        resume live plan.calls
          (simulation_for_call live.action_id live.sent_count db.tables.simulations) db.tables
    ok (record { wallets = db.wallets; tables = after }, live, attempt)
  prepare_under new_id request vault plan digest capability_version none db = do
    first ← required internal_error (get_elem? plan.calls 0)
    let simulation = chain.simulate request.owner first chain.current_block capability_version
    address ← bytes_or_error (hex_to_bytes (p.codes request.owner))
    wallets ←
        add_wallet (record { id = wallet_id p (p.codes request.owner); address = address })
          db.wallets
    (after, stored, attempt) ←
        insert_simulated (new_input new_id request vault plan digest capability_version simulation)
          simulation db.tables
    ok (record { wallets = wallets; tables = after }, stored, attempt)

  unfoldable pub prepare_action :
      Answers
      → ℕ
      → PrepareActionRequest
      → VaultRegistryEntry
      → Database
      → Result ActionFailure (Database × PreparedAction)
  prepare_action answers new_id request vault db = do
    plan ← available (plan_for p answers request.operation request vault)
    let capability_version = join "@" (vault.adapter_key ∷ vault.adapter_version ∷ [])
    digest ← bytes_or_error (
        hex_to_bytes
          (p.codes (action_digest p request.chain_id request.owner plan.calls capability_version)))
    (after, stored, attempt) ←
        prepare_under new_id request vault plan (number_of 0 digest) capability_version
          (find_live (number_of 0 digest) db.tables.actions) db
    ok (after, build_prepared_action stored request vault plan.calls attempt)

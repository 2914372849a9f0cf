-- ===== src/Actions/Binding.antt =====
-- packages/chain/src/simulate.ts: a simulation, bound to the conditions that it ran under. The gas
-- estimate of the provider is the parameter `estimate`.
pub mod Signable
use tr4ce_app.Prelude.{
  ℕ, ◌+◌, ◌*◌, Bool, true, false, not, Option, none, some, List, [], ◌∷◌, String, Result, ok, err,
  if◌then◌else◌, ltb, map, get_elem?,
}
use tr4ce_app.Prelude.Int.{pos}
use tr4ce_app.Prelude.Text.{str_eq, join}
use tr4ce_app.Platform.{Platform}
use tr4ce_app.Actions.Store.{CallKind, UnsignedTransaction}

-- The seven bound fields, with the chain.
pub record SimulationBinding : Type 0 where
  pub chain_id : ℕ
  pub account : String
  pub to : String
  pub data_hash : String
  pub value : String
  pub block_number : String
  pub block_hash : String
  pub capability_version : String

abbrev pub expiry_blocks : ℕ
expiry_blocks = 3

abbrev pub expiry_seconds : ℕ
expiry_seconds = 60

pub data SimulationStatus : Type 0 where
  succeeded failed : SimulationStatus

-- What an estimate throws: the message's first line, and the data of the revert.
pub record EstimateError : Type 0 where
  pub revert_data : Option String
  pub message : String

pub record SimulationResult : Type 0 where
  pub status : SimulationStatus
  pub binding : SimulationBinding
  pub gas_estimate : Option ℕ
  pub revert_data : Option String
  pub message : Option String
  pub expires_at_block : ℕ
  -- milliseconds
  pub expires_at : ℕ

pub record SimulateOptions : Type 0 where
  pub account : String
  pub call : UnsignedTransaction
  pub block_number : ℕ
  pub block_hash : String
  pub block_timestamp : ℕ
  pub capability_version : String

pub data SignabilityVerdict : Type 0 where
  signable simulation_failed binding_changed block_budget_spent : SignabilityVerdict
  time_budget_spent : SignabilityVerdict

abbrev is_failed : SimulationStatus → Bool
is_failed succeeded = false
is_failed failed = true

abbrev kind_text : CallKind → String
kind_text CallKind.approve = "approve"
kind_text CallKind.deposit = "deposit"
kind_text CallKind.redeem = "redeem"

module _ (p : Platform) where
  abbrev pub binding_of : SimulateOptions → SimulationBinding
  binding_of options = record {
    chain_id = options.call.chain_id;
    account = options.account;
    to = options.call.to;
    data_hash = p.keccak_of_hex options.call.data_hex;
    value = p.show_int (pos options.call.value);
    block_number = p.show_int (pos options.block_number);
    block_hash = options.block_hash;
    capability_version = options.capability_version;
  }

  simulation_of : SimulateOptions → Result EstimateError ℕ → SimulationResult
  simulation_of options (ok gas) = record {
    status = succeeded;
    binding = binding_of options;
    gas_estimate = some gas;
    revert_data = none;
    message = none;
    expires_at_block = options.block_number + expiry_blocks;
    expires_at = (options.block_timestamp + expiry_seconds) * 1000;
  }
  simulation_of options (err error) = record {
    status = failed;
    binding = binding_of options;
    gas_estimate = none;
    revert_data = error.revert_data;
    message = some error.message;
    expires_at_block = options.block_number + expiry_blocks;
    expires_at = (options.block_timestamp + expiry_seconds) * 1000;
  }

  unfoldable pub simulate_call :
      (SimulateOptions → Result EstimateError ℕ) → SimulateOptions → SimulationResult
  unfolding simulation_of
  simulate_call estimate options = simulation_of options (estimate options)

  unfoldable pub binding_digest : SimulationBinding → String
  binding_digest b = p.keccak_of_text (
      join "|" (
        p.show_int (pos b.chain_id)
        ∷ p.to_lower b.account
        ∷ p.to_lower b.to
        ∷ p.to_lower b.data_hash
        ∷ b.value
        ∷ b.block_number
        ∷ p.to_lower b.block_hash
        ∷ b.capability_version
        ∷ []))

  call_text : UnsignedTransaction → String
  call_text call = join ":" (
      p.to_lower call.to
      ∷ p.to_lower (p.keccak_of_hex call.data_hex)
      ∷ p.show_int (pos call.value)
      ∷ kind_text call.kind
      ∷ [])

  unfoldable pub action_digest : ℕ → String → List UnsignedTransaction → String → String
  unfolding call_text
  action_digest chain_id account calls capability_version = p.keccak_of_text (
      join "|" (
        p.show_int (pos chain_id)
        ∷ p.to_lower account
        ∷ capability_version
        ∷ map (λ call. call_text call) calls))

  unfoldable pub check_signable : SimulationResult → SimulationBinding → ℕ → ℕ → SignabilityVerdict
  check_signable simulation current current_block now =
      if is_failed simulation.status
      then simulation_failed
      else if not (str_eq (binding_digest current) (binding_digest simulation.binding))
      then binding_changed
      else if ltb simulation.expires_at_block current_block
      then block_budget_spent
      else if ltb simulation.expires_at now
      then time_budget_spent
      else signable

-- `calls[sentCount] ?? null`
unfoldable pub next_call_to_simulate : List UnsignedTransaction → ℕ → Option UnsignedTransaction
next_call_to_simulate calls sent_count = get_elem? calls sent_count

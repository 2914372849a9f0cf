-- ===== src/Actions/Store.antt =====
-- The tables of packages/db/migrations/0004_prepared_actions.sql, with the constraints that refuse a
-- row: what packages/db/src/repositories/actions.ts writes to. A column of hexadecimal bytes is the
-- number that the bytes denote, an action's id the number after `act_`, and a time its milliseconds.
-- The length checks of bytes and the foreign keys to wallet, vault and report are left out.
pub mod Lookup
use tr4ce_app.Prelude.{
  ℕ, ◌==◌, Bool, true, false, ◌&&◌, ◌||◌, not, Option, none, some, List, [], ◌∷◌, String, Result,
  ok, ◌>>=◌, ◌>>◌, throw_if, if◌then◌else◌, leb, is_some, any, all, keep, find, length,
}
use tr4ce_app.Prelude.Int.{ℤ}

pub data ActionStatus : Type 0 where
  prepared simulated submitted confirmed reverted expired invalidated : ActionStatus

pub data ActionKind : Type 0 where
  deposit redeem : ActionKind

pub data CallKind : Type 0 where
  approve deposit redeem : CallKind

pub data RevertClass : Type 0 where
  -- `none` of the source
  no_revert reverted out_of_gas provider_unavailable unclassified : RevertClass

pub data ReceiptStatus : Type 0 where
  success reverted : ReceiptStatus

-- `unsignedTransactionSchema` of packages/domain/src/actions.ts
pub record UnsignedTransaction : Type 0 where
  pub chain_id : ℕ
  pub to : String
  pub data_hex : String
  pub value : ℕ
  pub kind : CallKind

pub record Action : Type 0 where
  pub action_id : ℕ
  pub wallet_id : String
  pub vault_id : String
  pub report_id : Option String
  pub kind : ActionKind
  pub chain_id : ℕ
  pub account : String
  pub calldata_hash : ℕ
  pub capability_version : String
  pub transactions : List UnsignedTransaction
  pub sent_count : ℕ
  pub previewed : ℕ
  pub status : ActionStatus
  pub expires_at : ℤ
  pub invalidated_reason : Option String

pub record Simulation : Type 0 where
  pub action_id : ℕ
  pub call_index : ℕ
  pub block_number : ℕ
  pub block_hash : ℕ
  pub account : String
  pub success : Bool
  pub gas_estimate : Option ℕ
  pub revert_class : RevertClass
  pub provider_key : String

pub record Receipt : Type 0 where
  pub action_id : ℕ
  pub call_index : ℕ
  pub chain_id : ℕ
  pub transaction_hash : ℕ
  pub confirmed_block_number : Option ℕ
  pub confirmed_block_hash : Option ℕ
  pub status : Option ReceiptStatus
  pub gas_used : Option ℕ
  pub effective_gas_price : Option ℕ
  pub actual_amount : Option ℕ
  pub observed_at : Option ℤ

-- The simulations stand newest first.
pub record Store : Type 0 where
  pub actions : List Action
  pub simulations : List Simulation
  pub receipts : List Receipt

-- The errors of the repository, and of the service over it.
pub data ActionFailure : Type 0 where
  no_calls no_action vanished different_hash : ActionFailure
  -- what the database refuses
  constraint_violation : ActionFailure
  action_not_found action_not_available invalid_request internal_error : ActionFailure

-- `LIVE_STATUSES`
abbrev pub is_live : ActionStatus → Bool
is_live prepared = true
is_live simulated = true
is_live submitted = false
is_live confirmed = false
is_live reverted = false
is_live expired = false
is_live invalidated = false

abbrev pub is_sent : ActionStatus → Bool
is_sent submitted = true
is_sent confirmed = true
is_sent reverted = true
is_sent prepared = false
is_sent simulated = false
is_sent expired = false
is_sent invalidated = false

abbrev pub is_withdrawn : ActionStatus → Bool
is_withdrawn expired = true
is_withdrawn invalidated = true
is_withdrawn prepared = false
is_withdrawn simulated = false
is_withdrawn submitted = false
is_withdrawn confirmed = false
is_withdrawn reverted = false

abbrev pub same : Bool → Bool → Bool
same true b = b
same false b = not b

-- The CHECKs of `prepared_action` that relate its columns.
abbrev pub action_allowed : Action → Bool
action_allowed a =
    leb 1 (length a.transactions)
    && leb a.sent_count (length a.transactions)
    && (not (is_sent a.status) || a.sent_count == length a.transactions)
    && same (is_withdrawn a.status) (is_some a.invalidated_reason)

abbrev is_none_class : RevertClass → Bool
is_none_class no_revert = true
is_none_class reverted = false
is_none_class out_of_gas = false
is_none_class provider_unavailable = false
is_none_class unclassified = false

-- `simulation_success_shape_check`
abbrev pub simulation_allowed : Simulation → Bool
simulation_allowed s = same s.success (is_some s.gas_estimate && is_none_class s.revert_class)

-- `transaction_receipt_confirmation_check`
abbrev pub receipt_allowed : Receipt → Bool
receipt_allowed r =
    same (is_some r.confirmed_block_number) (is_some r.confirmed_block_hash)
    && same (is_some r.confirmed_block_number) (is_some r.status)
    && same (is_some r.confirmed_block_number) (is_some r.observed_at)

unfoldable pub find_action : ℕ → List Action → Option Action
find_action id actions = find (λ a. a.action_id == id) actions

abbrev pub is_live_under : ℕ → Action → Bool
is_live_under digest a = a.calldata_hash == digest && is_live a.status

unfoldable pub find_live : ℕ → List Action → Option Action
find_live digest actions = find (λ a. is_live_under digest a) actions

-- `prepared_action_live_binding_key`: one live action under a digest.
unfoldable pub live_unique : List Action → Bool
live_unique [] = true
live_unique (a ∷ actions) =
    let rest = live_unique actions in
    (not (is_live a.status) || not (any (λ b. is_live_under a.calldata_hash b) actions)) && rest

unfoldable pub replace_action : ℕ → (Action → Action) → List Action → List Action
replace_action id f [] = []
replace_action id f (a ∷ actions) =
    let rest = replace_action id f actions in (if a.action_id == id then f a else a) ∷ rest

-- `UPDATE prepared_action SET ... WHERE id = ...`
unfoldable pub update_action : ℕ → (Action → Action) → Store → Result ActionFailure Store
update_action id f store = do
  let rows = replace_action id f store.actions
  throw_if (not (all (λ a. action_allowed a) rows && live_unique rows)) constraint_violation
  ok (record { actions = rows; simulations = store.simulations; receipts = store.receipts })

abbrev pub is_receipt_of : ℕ → ℕ → Receipt → Bool
is_receipt_of id call_index r = r.action_id == id && r.call_index == call_index

unfoldable pub find_receipt : ℕ → ℕ → List Receipt → Option Receipt
find_receipt id call_index receipts = find (λ r. is_receipt_of id call_index r) receipts

unfoldable pub count_receipts : ℕ → List Receipt → ℕ
count_receipts id receipts = length (keep (λ r. r.action_id == id) receipts)

-- `INSERT ... ON CONFLICT (prepared_action_id, call_index) DO NOTHING`, where
-- `transaction_receipt_hash_key` refuses a hash that the chain has already.
unfoldable pub insert_receipt : Receipt → List Receipt → Result ActionFailure (List Receipt)
insert_receipt r receipts =
    if is_some (find_receipt r.action_id r.call_index receipts) then ok receipts else do
      throw_if
          (any (λ q. q.chain_id == r.chain_id && q.transaction_hash == r.transaction_hash) receipts)
          constraint_violation
      ok (r ∷ receipts)

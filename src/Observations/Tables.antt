-- ===== src/Observations/Tables.antt =====
-- The tables of packages/db/migrations/0001_registry_observations.sql and 0002_reports_and_policies.sql
-- that promotion, reorganisations and reports write, with the constraints that refuse a row. A time is
-- its milliseconds. Left out are the columns that only hold the database's clock, the length checks
-- of bytes and the foreign keys to registry and policy rows.
use tr4ce_app.Prelude.{
  ℕ, ◌==◌, Bool, true, false, ◌&&◌, ◌||◌, not, Option, none, some, List, [], ◌∷◌, is_some, any, ltb,
  if◌then◌else◌,
}
use tr4ce_app.Prelude.Int.{ℤ}
use tr4ce_app.Domain.{FlowKind, deposit, withdraw, share_transfer, TransferKind, ReasonCode}
use tr4ce_app.Bytes.{Text, Bytes, bytes_equal}

pub data CallStatus : Type 0 where
  ok partial reverted unspecified : CallStatus

pub record VaultFlow : Type 0 where
  pub id : Text
  pub vault_id : Text
  pub chain_id : ℕ
  pub block_number : ℕ
  pub block_hash : Bytes
  pub block_time : ℤ
  pub transaction_hash : Bytes
  pub log_index : ℕ
  pub kind : FlowKind
  pub transfer_kind : Option TransferKind
  pub sender : Option Bytes
  pub owner : Option Bytes
  pub receiver : Option Bytes
  pub assets : Option ℕ
  pub shares : ℕ
  pub canonical : Bool
  pub schema_version : Text

pub record VaultSnapshot : Type 0 where
  pub id : Text
  pub vault_id : Text
  pub capability_id : Text
  pub chain_id : ℕ
  pub block_number : ℕ
  pub block_hash : Bytes
  pub block_time : ℤ
  pub total_assets : Option ℕ
  pub total_supply : Option ℕ
  pub one_share_units : ℕ
  pub one_share_assets : Option ℕ
  pub call_status : CallStatus
  pub call_errors : List (Text × Text)
  pub trigger_activity : Bool
  pub trigger_checkpoint : Bool
  pub trigger_anchor : Bool
  pub canonical : Bool
  pub schema_version : Text

pub data ReportStatus : Type 0 where
  pass fail unknown not_evaluated : ReportStatus

pub record ReportRow : Type 0 where
  pub id : Text
  pub vault_id : Text
  pub chain_id : ℕ
  pub policy_version_id : Option Text
  pub as_of_block_number : ℕ
  pub as_of_block_hash : Bytes
  pub as_of_time : ℤ
  pub window_seconds : ℕ
  pub actual_elapsed_seconds : Option ℕ
  pub calculation_version : Text
  pub schema_version : Text
  pub status : ReportStatus
  pub result_json : Text
  pub canonical_input_hash : Bytes
  pub canonical : Bool
  pub invalidated_at : Option ℤ
  pub invalidation_reason : Option ReasonCode

-- The one observation that a citation names: `report_observation_exactly_one_check`.
pub data ObservationRef : Type 0 where
  flow snapshot rpc_call : Text → ObservationRef

pub record Citation : Type 0 where
  pub id : Text
  pub report_id : Text
  pub vault_id : Text
  pub observation : ObservationRef
  pub purpose : Text
  pub ordinal : ℕ

pub record ReorgInvalidation : Type 0 where
  pub id : Text
  pub chain_id : ℕ
  pub block_number : ℕ
  pub orphaned_block_hash : Bytes
  pub canonical_block_hash : Bytes
  pub subject_kind : Text
  pub subject_id : Text
  pub reason_code : ReasonCode

pub record CursorRow : Type 0 where
  pub chain_id : ℕ
  pub stream_key : Text
  pub block_number : ℕ
  pub block_hash : Bytes
  pub schema_version : Text

pub record Tables : Type 0 where
  pub flows : List VaultFlow
  pub snapshots : List VaultSnapshot
  pub reports : List ReportRow
  pub citations : List Citation
  pub invalidations : List ReorgInvalidation
  pub cursors : List CursorRow

-- The errors thrown.
pub data Failure : Type 0 where
  unsupported_schema_version unknown_vault no_capability bad_call_errors bad_hex : Failure
  -- what the database refuses
  constraint_violation : Failure
  -- `ReportCitationError`
  no_citations different_schema_version vanished : Failure
  chain_not_registered provider_has_no_block : Failure

-- `column IN (ids)`
abbrev pub contains : Text → List Text → Bool
contains id ids = any (λ other. bytes_equal other id) ids

-- The flag of the row with the id, the primary key; none where there is no such row.
unfoldable pub flow_canonical : Text → List VaultFlow → Option Bool
flow_canonical id [] = none
flow_canonical id (row ∷ rows) =
    let rest = flow_canonical id rows in if bytes_equal row.id id then some row.canonical else rest

unfoldable pub snapshot_canonical : Text → List VaultSnapshot → Option Bool
snapshot_canonical id [] = none
snapshot_canonical id (row ∷ rows) =
    let rest = snapshot_canonical id rows in
    if bytes_equal row.id id then some row.canonical else rest

unfoldable pub report_canonical : Text → List ReportRow → Option Bool
report_canonical id [] = none
report_canonical id (row ∷ rows) =
    let rest = report_canonical id rows in
    if bytes_equal row.id id then some row.canonical else rest

abbrev kind_number : FlowKind → ℕ
kind_number deposit = 0
kind_number withdraw = 1
kind_number share_transfer = 2

-- `vault_flow_event_key`
abbrev pub same_event : VaultFlow → VaultFlow → Bool
same_event a b =
    a.chain_id == b.chain_id
    && bytes_equal a.block_hash b.block_hash
    && bytes_equal a.transaction_hash b.transaction_hash
    && a.log_index == b.log_index
    && kind_number a.kind == kind_number b.kind

-- `vault_flow_transfer_kind_presence_check`
abbrev pub flow_allowed : VaultFlow → Bool
flow_allowed row = presence row.kind row.transfer_kind
  where
    presence : FlowKind → Option TransferKind → Bool
    presence share_transfer kind = is_some kind
    presence deposit kind = not (is_some kind)
    presence withdraw kind = not (is_some kind)

-- `vault_snapshot_identity_key`
abbrev pub same_identity : VaultSnapshot → VaultSnapshot → Bool
same_identity a b =
    bytes_equal a.vault_id b.vault_id
    && bytes_equal a.block_hash b.block_hash
    && bytes_equal a.schema_version b.schema_version

abbrev errors_presence : CallStatus → List (Text × Text) → Bool
errors_presence ok [] = true
errors_presence ok (e ∷ errors) = false
errors_presence partial [] = false
errors_presence partial (e ∷ errors) = true
errors_presence reverted [] = false
errors_presence reverted (e ∷ errors) = true
errors_presence unspecified [] = false
errors_presence unspecified (e ∷ errors) = true

-- The checks on the errors, the unit and the triggers of a snapshot.
abbrev pub snapshot_allowed : VaultSnapshot → Bool
snapshot_allowed row =
    errors_presence row.call_status row.call_errors
    && ltb 0 row.one_share_units
    && (row.trigger_activity || row.trigger_checkpoint || row.trigger_anchor)

-- ===== src/Observations/Promote.antt =====
-- `promoteRange` of packages/db/src/repositories/observations.ts: the confirmed rows of the sink that
-- are copied into the observation tables. The caller's transaction is rolled back on an error.
pub mod Flags
pub mod Copied
pub mod Complete
use tr4ce_app.Prelude.{
  ℕ, Bool, true, not, Option, none, some, List, [], ◌∷◌, ◌++◌, Result, ok, err, ◌>>=◌, ◌>>◌,
  throw_if, ◌&&◌, all, any, keep, map, length, ltb, is_some, if◌then◌else◌,
}
use tr4ce_app.Platform.{Platform}
use tr4ce_app.Domain.{FlowKind, TransferKind}
use tr4ce_app.Bytes.{Text, Bytes, HexError, hex_to_bytes, bytes_equal, lower}
use tr4ce_app.Identifiers.{vault_flow_id, vault_snapshot_id}
use tr4ce_app.Observations.Tables.{
  VaultFlow, VaultSnapshot, Tables, Failure, unsupported_schema_version, unknown_vault,
  no_capability, bad_call_errors, bad_hex, contains,
}
use tr4ce_app.Observations.Registry.{VaultLookupEntry, lookup_vault, resolve_capability_at}
use tr4ce_app.Observations.Staging.{
  RawEventRow, RawDeposit, RawWithdraw, RawShareTransfer, RawVaultSnapshot, Staging, event_in_range,
  in_range,
}
use tr4ce_app.Observations.Upsert.{upsert_flow_row, upsert_snapshot_row}

pub record PromoteRangeOptions : Type 0 where
  pub chain_id : ℕ
  pub from_block : ℕ
  pub to_block : ℕ
  pub lookup : List VaultLookupEntry
  pub accepted_schema_versions : List Text

pub record Attested : Type 0 where
  pub block_number : ℕ
  pub block_hash : Text
  pub schema_version : Text

pub record PromoteRangeResult : Type 0 where
  pub deposits : ℕ
  pub withdrawals : ℕ
  pub share_transfers : ℕ
  pub snapshots : ℕ
  pub attested : Option Attested

-- Reading a text in hexadecimal, which throws where it is none.
abbrev pub read_hex : Text → Result Failure Bytes
read_hex hex = parsed (hex_to_bytes hex)
  where
    parsed : Result HexError Bytes → Result Failure Bytes
    parsed (ok bytes) = ok bytes
    parsed (err e) = err bad_hex

abbrev read_hex_or_null : Option Text → Result Failure (Option Bytes)
read_hex_or_null none = ok none
read_hex_or_null (some hex) = do bytes ← read_hex hex; ok (some bytes)

-- `FlowUpsert`, less the entry, which is looked up when the row is written.
pub record FlowUpsert : Type 0 where
  pub row : RawEventRow
  pub kind : FlowKind
  pub transfer_kind : Option TransferKind
  pub sender : Option Text
  pub owner : Option Text
  pub receiver : Option Text
  pub assets : Option ℕ
  pub shares : ℕ

abbrev pub of_deposit : RawDeposit → FlowUpsert
of_deposit d = record {
  row = d.event;
  kind = FlowKind.deposit;
  transfer_kind = none;
  sender = some d.sender;
  owner = some d.owner;
  receiver = none;
  assets = some d.assets;
  shares = d.shares;
}

abbrev pub of_withdrawal : RawWithdraw → FlowUpsert
of_withdrawal w = record {
  row = w.event;
  kind = FlowKind.withdraw;
  transfer_kind = none;
  sender = some w.sender;
  owner = some w.owner;
  receiver = some w.receiver;
  assets = some w.assets;
  shares = w.shares;
}

-- A share transfer moves no assets: none, not zero.
abbrev pub of_transfer : RawShareTransfer → FlowUpsert
of_transfer t = record {
  row = t.event;
  kind = FlowKind.share_transfer;
  transfer_kind = some t.transfer_kind;
  sender = some t.from_address;
  owner = some t.from_address;
  receiver = some t.to_address;
  assets = none;
  shares = t.shares;
}

abbrev pub required : {A : Type 0} → Failure → Option A → Result Failure A
required failure none = err failure
required failure (some a) = ok a

unfoldable pub upsert_flow :
    Platform → FlowUpsert → VaultLookupEntry → List VaultFlow → Result Failure (List VaultFlow)
upsert_flow p input entry rows = do
  let row = input.row
  sender ← read_hex_or_null input.sender
  owner ← read_hex_or_null input.owner
  receiver ← read_hex_or_null input.receiver
  block_hash ← read_hex row.block_hash
  transaction_hash ← read_hex row.transaction_hash
  upsert_flow_row
      (record {
        id =
            vault_flow_id p row.chain_id row.block_hash row.transaction_hash row.log_index
              input.kind;
        vault_id = entry.id;
        chain_id = row.chain_id;
        block_number = row.block_number;
        block_hash = block_hash;
        block_time = row.block_time;
        transaction_hash = transaction_hash;
        log_index = row.log_index;
        kind = input.kind;
        transfer_kind = input.transfer_kind;
        sender = sender;
        owner = owner;
        receiver = receiver;
        assets = input.assets;
        shares = input.shares;
        canonical = true;
        schema_version = row.schema_version;
      })
      rows

unfoldable pub upsert_snapshot :
    Platform
    → ℕ
    → RawVaultSnapshot
    → VaultLookupEntry
    → List VaultSnapshot
    → Result Failure (List VaultSnapshot)
upsert_snapshot p chain_id row entry rows = do
  capability_id ← required no_capability (resolve_capability_at entry row.block_number)
  call_errors ← required bad_call_errors (p.parse_call_errors row.call_errors)
  block_hash ← read_hex row.block_hash
  upsert_snapshot_row
      (record {
        id = vault_snapshot_id p chain_id row.vault row.block_hash row.schema_version;
        vault_id = entry.id;
        capability_id = capability_id;
        chain_id = chain_id;
        block_number = row.block_number;
        block_hash = block_hash;
        block_time = row.block_time;
        total_assets = row.total_assets;
        total_supply = row.total_supply;
        one_share_units = row.one_share_units;
        one_share_assets = row.one_share_assets;
        call_status = row.call_status;
        call_errors = call_errors;
        trigger_activity = row.trigger_activity;
        trigger_checkpoint = row.trigger_checkpoint;
        trigger_anchor = row.trigger_anchor;
        canonical = true;
        schema_version = row.schema_version;
      })
      rows

-- The three loops over events, one list after the other. The entry is there: see `known_vaults`.
unfoldable pub promote_flows :
    Platform
    → List VaultLookupEntry
    → List FlowUpsert
    → List VaultFlow
    → Result Failure (List VaultFlow)
promote_flows p lookup [] rows = ok rows
promote_flows p lookup (input ∷ inputs) rows = do
  entry ← required unknown_vault (lookup_vault (lower input.row.vault) lookup)
  written ← upsert_flow p input entry rows
  promote_flows p lookup inputs written

unfoldable pub promote_snapshots :
    Platform
    → ℕ
    → List VaultLookupEntry
    → List RawVaultSnapshot
    → List VaultSnapshot
    → Result Failure (List VaultSnapshot)
promote_snapshots p chain_id lookup [] rows = ok rows
promote_snapshots p chain_id lookup (row ∷ inputs) rows = do
  entry ← required unknown_vault (lookup_vault (lower row.vault) lookup)
  written ← upsert_snapshot p chain_id row entry rows
  promote_snapshots p chain_id lookup inputs written

-- `attest`, over the rows in the order in which they are written.
abbrev attest : Attested → Option Attested → Option Attested
attest row none = some row
attest row (some best) = if ltb best.block_number row.block_number then some row else some best

unfoldable pub attest_all : List Attested → Option Attested → Option Attested
attest_all [] best = best
attest_all (row ∷ rows) best = attest_all rows (attest row best)

abbrev of_event : FlowUpsert → Attested
of_event input = record {
  block_number = input.row.block_number;
  block_hash = input.row.block_hash;
  schema_version = input.row.schema_version;
}

abbrev of_snapshot : RawVaultSnapshot → Attested
of_snapshot row = record {
  block_number = row.block_number;
  block_hash = row.block_hash;
  schema_version = row.schema_version;
}

-- The rows that one run reads, in the order in which it writes them.
pub record Batch : Type 0 where
  pub deposits : List RawDeposit
  pub withdrawals : List RawWithdraw
  pub transfers : List RawShareTransfer
  pub snapshots : List RawVaultSnapshot

unfoldable pub read_batch : ℕ → ℕ → ℕ → Staging → Batch
read_batch chain_id from_block to_block staging = record {
  deposits = keep (λ d. event_in_range chain_id from_block to_block d.event) staging.deposits;
  withdrawals = keep (λ w. event_in_range chain_id from_block to_block w.event) staging.withdrawals;
  transfers = keep (λ t. event_in_range chain_id from_block to_block t.event) staging.transfers;
  snapshots =
      keep (λ s. in_range chain_id from_block to_block s.chain_id s.block_number) staging.snapshots;
}

abbrev pub flow_inputs : Batch → List FlowUpsert
flow_inputs batch =
    map of_deposit batch.deposits
    ++ map of_withdrawal batch.withdrawals
    ++ map of_transfer batch.transfers

-- `assertSchemaVersions`
abbrev pub accepted_versions : List Text → Batch → Bool
accepted_versions accepted batch =
    all (λ i. contains i.row.schema_version accepted) (flow_inputs batch)
    && all (λ s. contains s.schema_version accepted) batch.snapshots

-- `assertKnownVaults`
abbrev pub known_vaults : List VaultLookupEntry → Batch → Bool
known_vaults lookup batch =
    all (λ i. is_some (lookup_vault (lower i.row.vault) lookup)) (flow_inputs batch)
    && all (λ s. is_some (lookup_vault (lower s.vault) lookup)) batch.snapshots

abbrev pub nothing_promoted : PromoteRangeResult
nothing_promoted = record {
  deposits = 0;
  withdrawals = 0;
  share_transfers = 0;
  snapshots = 0;
  attested = none;
}

abbrev result_of : Batch → PromoteRangeResult
result_of batch = record {
  deposits = length batch.deposits;
  withdrawals = length batch.withdrawals;
  share_transfers = length batch.transfers;
  snapshots = length batch.snapshots;
  attested = attest_all (map of_event (flow_inputs batch) ++ map of_snapshot batch.snapshots) none;
}

unfoldable pub promote_batch :
    Platform → PromoteRangeOptions → Batch → Tables → Result Failure (Tables × PromoteRangeResult)
promote_batch p options batch tables = do
  throw_if (not (accepted_versions options.accepted_schema_versions batch))
      unsupported_schema_version
  throw_if (not (known_vaults options.lookup batch)) unknown_vault
  flows ← promote_flows p options.lookup (flow_inputs batch) tables.flows
  snapshots ← promote_snapshots p options.chain_id options.lookup batch.snapshots tables.snapshots
  ok (record tables { flows = flows; snapshots = snapshots }, result_of batch)

unfoldable pub promote_range :
    Platform → PromoteRangeOptions → Staging → Tables → Result Failure (Tables × PromoteRangeResult)
promote_range p options staging tables =
    if ltb options.to_block options.from_block
    then ok (tables, nothing_promoted)
    else promote_batch p options
        (read_batch options.chain_id options.from_block options.to_block staging) tables

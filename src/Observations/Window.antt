-- ===== src/Observations/Window.antt =====
-- packages/db/src/repositories/evidence-window.ts: the observations that a report is built from. Of rows
-- at one block, which the database may return in any order, the one that stands first is taken.
pub mod Ends
pub mod Opens
use tr4ce_app.Prelude.{
  ℕ, ◌+◌, Bool, true, false, ◌&&◌, not, Option, none, some, List, [], ◌∷◌, keep, map, leb, ltb,
  is_some, find, if◌then◌else◌,
}
use tr4ce_app.Prelude.Int.{ℤ}
use tr4ce_app.Domain.{FlowKind, TransferKind}
use tr4ce_app.Bytes.{Text, bytes_equal, bytes_to_hex}
use tr4ce_app.Observations.Tables.{CallStatus, VaultFlow, VaultSnapshot, Tables}

pub record SnapshotRow : Type 0 where
  pub id : Text
  pub vault_id : Text
  pub capability_id : Text
  pub block_number : ℕ
  pub block_hash : Text
  pub block_time : ℤ
  pub total_assets : Option ℕ
  pub total_supply : Option ℕ
  pub one_share_units : ℕ
  pub one_share_assets : Option ℕ
  pub call_status : CallStatus
  pub schema_version : Text

pub record FlowRowWithId : Type 0 where
  pub id : Text
  pub kind : FlowKind
  pub transfer_kind : Option TransferKind
  pub assets : Option ℕ
  pub shares : ℕ
  pub canonical : Bool

pub record AdapterRow : Type 0 where
  pub id : Text
  pub adapter_key : Text
  pub adapter_version : Text

pub record ObservationWindow : Type 0 where
  pub end : Option SnapshotRow
  pub start : Option SnapshotRow
  pub start_is_earliest_available : Bool
  pub flows : List FlowRowWithId
  pub capability : Option AdapterRow

pub record ObservationWindowOptions : Type 0 where
  pub vault_id : Text
  pub as_of_block : ℕ
  pub start_block : ℕ

-- The conditions of the two queries.
abbrev pub at_or_below : Text → ℕ → VaultSnapshot → Bool
at_or_below vault_id block_number row =
    bytes_equal row.vault_id vault_id && row.canonical && leb row.block_number block_number

abbrev pub strictly_below : Text → ℕ → VaultSnapshot → Bool
strictly_below vault_id block_number row =
    bytes_equal row.vault_id vault_id && row.canonical && ltb row.block_number block_number

abbrev pub later_of : VaultSnapshot → Option VaultSnapshot → Option VaultSnapshot
later_of row none = some row
later_of row (some best) = if leb best.block_number row.block_number then some row else some best

abbrev pub earlier_of : VaultSnapshot → Option VaultSnapshot → Option VaultSnapshot
earlier_of row none = some row
earlier_of row (some best) = if leb row.block_number best.block_number then some row else some best

-- `ORDER BY block_number DESC LIMIT 1`
unfoldable pub latest : (VaultSnapshot → Bool) → List VaultSnapshot → Option VaultSnapshot
latest p [] = none
latest p (row ∷ rows) =
    let rest = latest p rows in elim (p row) [ true ↦ later_of row rest | false ↦ rest ]

-- `ORDER BY block_number ASC LIMIT 1`
unfoldable pub earliest : (VaultSnapshot → Bool) → List VaultSnapshot → Option VaultSnapshot
earliest p [] = none
earliest p (row ∷ rows) =
    let rest = earliest p rows in elim (p row) [ true ↦ earlier_of row rest | false ↦ rest ]

unfoldable pub latest_snapshot_at_or_below : Text → ℕ → Tables → Option VaultSnapshot
latest_snapshot_at_or_below vault_id block_number tables =
    latest (at_or_below vault_id block_number) tables.snapshots

unfoldable pub earliest_snapshot_below : Text → ℕ → Tables → Option VaultSnapshot
earliest_snapshot_below vault_id block_number tables =
    earliest (strictly_below vault_id block_number) tables.snapshots

-- `usable`: the requested opening, where it is strictly below the end.
abbrev pub usable_start : VaultSnapshot → Option VaultSnapshot → Option VaultSnapshot
usable_start end none = none
usable_start end (some requested) =
    if ltb requested.block_number end.block_number then some requested else none

abbrev pub or_earliest : Option VaultSnapshot → Option VaultSnapshot → Option VaultSnapshot
or_earliest none fallback = fallback
or_earliest (some row) fallback = some row

abbrev pub usable_at : ObservationWindowOptions → VaultSnapshot → Tables → Option VaultSnapshot
usable_at options end tables =
    usable_start end (latest_snapshot_at_or_below options.vault_id options.start_block tables)

unfoldable pub opening : ObservationWindowOptions → VaultSnapshot → Tables → Option VaultSnapshot
opening options end tables =
    or_earliest (usable_at options end tables)
      (earliest_snapshot_below options.vault_id end.block_number tables)

-- `gte(blockNumber, nextBlock(start))`, which is left out where there is no opening.
abbrev pub after_start : Option VaultSnapshot → ℕ → Bool
after_start none block_number = true
after_start (some start) block_number = leb (start.block_number + 1) block_number

abbrev pub flow_in_window : Text → Option VaultSnapshot → ℕ → VaultFlow → Bool
flow_in_window vault_id start end_block row =
    bytes_equal row.vault_id vault_id
    && row.canonical
    && after_start start row.block_number
    && leb row.block_number end_block

-- `ORDER BY block_number ASC`
unfoldable pub insert_flow : VaultFlow → List VaultFlow → List VaultFlow
insert_flow row [] = row ∷ []
insert_flow row (r ∷ rows) =
    let rest = insert_flow row rows in
    if leb row.block_number r.block_number then row ∷ r ∷ rows else r ∷ rest

unfoldable pub order_flows : List VaultFlow → List VaultFlow
order_flows [] = []
order_flows (row ∷ rows) = insert_flow row (order_flows rows)

unfoldable pub window_flows : Text → Option VaultSnapshot → ℕ → Tables → List VaultFlow
window_flows vault_id start end_block tables =
    order_flows (keep (λ r. flow_in_window vault_id start end_block r) tables.flows)

abbrev pub to_snapshot_row : VaultSnapshot → SnapshotRow
to_snapshot_row row = record {
  id = row.id;
  vault_id = row.vault_id;
  capability_id = row.capability_id;
  block_number = row.block_number;
  block_hash = bytes_to_hex row.block_hash;
  block_time = row.block_time;
  total_assets = row.total_assets;
  total_supply = row.total_supply;
  one_share_units = row.one_share_units;
  one_share_assets = row.one_share_assets;
  call_status = row.call_status;
  schema_version = row.schema_version;
}

abbrev pub snapshot_row_or_null : Option VaultSnapshot → Option SnapshotRow
snapshot_row_or_null none = none
snapshot_row_or_null (some row) = some (to_snapshot_row row)

abbrev flow_row : VaultFlow → FlowRowWithId
flow_row row = record {
  id = row.id;
  kind = row.kind;
  transfer_kind = row.transfer_kind;
  assets = row.assets;
  shares = row.shares;
  canonical = row.canonical;
}

abbrev pub empty_window : ObservationWindow
empty_window = record {
  end = none;
  start = none;
  start_is_earliest_available = false;
  flows = [];
  capability = none;
}

abbrev pub window_to :
    ObservationWindowOptions → List AdapterRow → Tables → Option VaultSnapshot → ObservationWindow
window_to options adapters tables none = empty_window
window_to options adapters tables (some end) =
    let start = opening options end tables in
    record {
      end = some (to_snapshot_row end);
      start = snapshot_row_or_null start;
      start_is_earliest_available = not (is_some (usable_at options end tables)) && is_some start;
      flows = map flow_row (window_flows options.vault_id start end.block_number tables);
      capability = find (λ a. bytes_equal a.id end.capability_id) adapters;
    }

unfoldable pub read_observation_window :
    ObservationWindowOptions → List AdapterRow → Tables → ObservationWindow
read_observation_window options adapters tables =
    window_to options adapters tables
      (latest_snapshot_at_or_below options.vault_id options.as_of_block tables)

-- ===== src/Worker/Tests/Sample.antt =====
-- One vault with a deposit and a snapshot at block 5, for the tests of the worker.
use tr4ce_app.Prelude.{Bool, true, false, none, some, [], ◌∷◌, Result, ok, err}
use tr4ce_app.Prelude.Int.{pos}
use tr4ce_app.Platform.Plain.{plain}
use tr4ce_app.Bytes.{Text}
use tr4ce_app.Observations.Tables.{Tables, flow, pass, CallStatus}
use tr4ce_app.Observations.Registry.{Registry}
use tr4ce_app.Observations.Staging.{RawDeposit, RawVaultSnapshot, Staging}
use tr4ce_app.Domain.{FlowKind}
use tr4ce_app.Observations.Promote.{
  PromoteRangeOptions, PromoteRangeResult, nothing_promoted, promote_range,
}
use tr4ce_app.Observations.Reports.{InsertReportInput, StoredReport, insert_report}
use tr4ce_app.Worker.Confirmed.{
  World, PromoteOptions, PromoteOutcome, idle, Totals, stream_key, accepted_version,
  promote_confirmed,
}
use tr4ce_app.Worker.DeepReorg.{
  ReconcileOptions, ReconcileOutcome, nothing_invalidated, reconcile_deep_reorg,
}
use tr4ce_app.Worker.Reachable.{empty_tables}

abbrev pub value_or : {E A : Type 0} → A → Result E A → A
value_or default (ok a) = a
value_or default (err e) = default

-- `0x01`, `0xaa` and `0xbb`
abbrev pub vault_address : Text
vault_address = 48 ∷ 120 ∷ 48 ∷ 49 ∷ []

abbrev pub hash_a : Text
hash_a = 48 ∷ 120 ∷ 97 ∷ 97 ∷ []

abbrev pub hash_b : Text
hash_b = 48 ∷ 120 ∷ 98 ∷ 98 ∷ []

abbrev pub deposited : RawDeposit
deposited = record {
  event = record {
    chain_id = 8;
    block_hash = hash_a;
    transaction_hash = hash_b;
    log_index = 0;
    block_number = 5;
    block_time = pos 100;
    vault = vault_address;
    schema_version = accepted_version;
  };
  sender = vault_address;
  owner = vault_address;
  assets = 70;
  shares = 60;
}

abbrev pub observed : RawVaultSnapshot
observed = record {
  chain_id = 8;
  vault = vault_address;
  block_hash = hash_a;
  schema_version = accepted_version;
  block_number = 5;
  block_time = pos 100;
  total_assets = some 70;
  total_supply = some 60;
  one_share_units = 1;
  one_share_assets = some 1;
  call_status = CallStatus.ok;
  call_errors = [];
  trigger_activity = true;
  trigger_checkpoint = false;
  trigger_anchor = false;
}

abbrev pub staging : Staging
staging = record {
  deposits = deposited ∷ [];
  withdrawals = [];
  transfers = [];
  snapshots = observed ∷ [];
  sink_blocks = 9 ∷ [];
}

abbrev pub registry : Registry
registry = record {
  networks = record { chain_id = 8; confirmation_depth = 2; enabled = true } ∷ [];
  vaults = record { id = 1 ∷ []; chain_id = 8; address = 1 ∷ []; share_decimals = 6 } ∷ [];
  capabilities =
      record { id = 2 ∷ []; vault_id = 1 ∷ []; effective_from_block = 3; effective_to_block = none }
      ∷ [];
}

abbrev pub world : World
world = record { registry = registry; staging = staging; canonical_hash_at = λ n. some hash_a }

abbrev pub options : PromoteOptions
options = record { chain_id = 8; rpc_head = 10; window_start = 3; max_blocks_per_run = 100 }

abbrev pub no_totals : Totals
no_totals = record {
  deposits = 0;
  withdrawals = 0;
  share_transfers = 0;
  snapshots = 0;
  last = none;
}

-- The tables after one run.
abbrev pub promoted_run : Tables × PromoteOutcome
promoted_run =
    value_or (empty_tables, idle none) (promote_confirmed plain options world empty_tables)

-- A chain that has another block 5 now.
abbrev pub reorganised : ReconcileOptions
reorganised = record {
  chain_id = 8;
  canonical_hash_at = λ n. some hash_b;
  from_block = 3;
  now = pos 900;
}

-- A flow and a snapshot of block 5 that were promoted, and the cursor behind them.
abbrev pub stored_tables : Tables
stored_tables = record {
  flows =
      record {
        id = 11 ∷ [];
        vault_id = 1 ∷ [];
        chain_id = 8;
        block_number = 5;
        block_hash = 170 ∷ [];
        block_time = pos 100;
        transaction_hash = 187 ∷ [];
        log_index = 0;
        kind = FlowKind.deposit;
        transfer_kind = none;
        sender = some (1 ∷ []);
        owner = some (1 ∷ []);
        receiver = none;
        assets = some 70;
        shares = 60;
        canonical = true;
        schema_version = accepted_version;
      }
      ∷ [];
  snapshots =
      record {
        id = 12 ∷ [];
        vault_id = 1 ∷ [];
        capability_id = 2 ∷ [];
        chain_id = 8;
        block_number = 5;
        block_hash = 170 ∷ [];
        block_time = pos 100;
        total_assets = some 70;
        total_supply = some 60;
        one_share_units = 1;
        one_share_assets = some 1;
        call_status = CallStatus.ok;
        call_errors = [];
        trigger_activity = true;
        trigger_checkpoint = false;
        trigger_anchor = false;
        canonical = true;
        schema_version = accepted_version;
      }
      ∷ [];
  reports = [];
  citations = [];
  invalidations = [];
  cursors =
      record {
        chain_id = 8;
        stream_key = stream_key;
        block_number = 9;
        block_hash = 170 ∷ [];
        schema_version = accepted_version;
      }
      ∷ [];
}

-- A provider that has lost block 5.
abbrev pub silent : ReconcileOptions
silent = record reorganised { canonical_hash_at = λ n. none }

-- A report on the deposit.
abbrev pub report_input : InsertReportInput
report_input = record {
  report_id = 7 ∷ [];
  canonical_input_hash = 99 ∷ 99 ∷ [];
  vault_id = 1 ∷ [];
  chain_id = 8;
  policy_version_id = some (4 ∷ []);
  as_of_block_number = 5;
  as_of_block_hash = hash_a;
  as_of_time = pos 100;
  window_seconds = 3600;
  actual_elapsed_seconds = none;
  calculation_version = accepted_version;
  schema_version = accepted_version;
  status = pass;
  result_json = 123 ∷ 125 ∷ [];
  citations = record { observation = flow (11 ∷ []); purpose = 3 ∷ [] } ∷ [];
}

abbrev pub reported : Tables × StoredReport × Bool
reported =
    value_or
      (
        empty_tables,
        record { report_id = []; result_json = []; status = pass; canonical = false },
        false,
      )
      (insert_report plain report_input stored_tables)

-- The tables after the repair, and its outcome.
abbrev pub repaired : Tables × ReconcileOutcome
repaired =
    value_or
      (
        empty_tables,
        record { checked = 0; orphaned = []; invalidated = nothing_invalidated; rewound_to = none },
      )
      (reconcile_deep_reorg plain reorganised stored_tables)

-- The range of the blocks that the sample has.
abbrev pub whole_range : PromoteRangeOptions
whole_range = record {
  chain_id = 8;
  from_block = 3;
  to_block = 9;
  lookup =
      record {
        id = 1 ∷ [];
        chain_id = 8;
        address = vault_address;
        share_decimals = 6;
        capabilities =
            record { id = 2 ∷ []; effective_from_block = 3; effective_to_block = none } ∷ [];
      }
      ∷ [];
  accepted_schema_versions = accepted_version ∷ [];
}

abbrev pub copied : Tables × PromoteRangeResult
copied =
    value_or (empty_tables, nothing_promoted) (promote_range plain whole_range staging empty_tables)

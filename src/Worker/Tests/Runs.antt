-- ===== src/Worker/Tests/Runs.antt =====
-- Runs of the worker on the sample, and the theorems applied to them.
use tr4ce_app.Prelude.{◌≡◌, refl, true, ok, is_some}
use tr4ce_app.Prelude.Int.{◌-ℤ◌}
use tr4ce_app.Platform.Plain.{plain}
use tr4ce_app.Bytes.{bytes_equal, bytes_to_hex, bytes_text, hex_to_bytes, parse_pairs}
use tr4ce_app.Identifiers.{entity_name, uuid_v5, vault_flow_id, vault_snapshot_id}
use tr4ce_app.Observations.Tables.{flow_canonical, snapshot_canonical}
use tr4ce_app.Observations.Registry.{
  read_network, lookup_vault, load_vault_lookup, resolve_capability_at, resolve_windows,
}
use tr4ce_app.Observations.Staging.{read_sink_head}
use tr4ce_app.Observations.Upsert.{upsert_flow_row, upsert_snapshot_row, write_flow, write_snapshot}
use tr4ce_app.Observations.Promote.{
  promote_range, promote_batch, read_batch, promote_flows, promote_snapshots, attest_all,
  upsert_flow, upsert_snapshot,
}
use tr4ce_app.Observations.Cursors.{read_application_cursor, put_cursor, write_application_cursor}
use tr4ce_app.Worker.Promotion.{promotion_ceiling, next_range}
use tr4ce_app.Worker.Confirmed.{run_range, run_below, promote_confirmed, promote_loop}
use tr4ce_app.Worker.Confirmed.Advance.{Advances, promote_confirmed-Advances}
use tr4ce_app.Worker.Confirmed.Loop.{promote_loop-Ends}
use tr4ce_app.Observations.Promote.Complete.{Copied, promote_range-Copied}
use tr4ce_app.Observations.Promote.Flags.{Promoted, promote_range-Promoted}
use tr4ce_app.Worker.Reachable.{empty_tables, start, later, promote, Reachable-Sound}
use tr4ce_app.Observations.Sound.{Sound}
use tr4ce_app.Worker.Tests.Sample.{
  world, options, no_totals, staging, whole_range, copied, promoted_run,
}

promoted_ok : promote_confirmed plain options world empty_tables ≡ ok promoted_run
unfolding promote_confirmed read_network run_below promotion_ceiling read_sink_head ◌-ℤ◌ run_range
    next_range read_application_cursor promote_range promote_batch read_batch bytes_equal
    lookup_vault load_vault_lookup bytes_to_hex bytes_text promote_flows hex_to_bytes parse_pairs
    entity_name uuid_v5 vault_flow_id vault_snapshot_id put_cursor write_application_cursor
    attest_all promote_snapshots upsert_flow upsert_snapshot resolve_capability_at resolve_windows
    flow_canonical snapshot_canonical upsert_flow_row upsert_snapshot_row write_flow write_snapshot
promoted_ok = refl

promote_confirmed-Advances_example :
    Advances plain options world empty_tables promoted_run.0 promoted_run.1
promote_confirmed-Advances_example =
    promote_confirmed-Advances plain options world empty_tables promoted_run.0 promoted_run.1
      promoted_ok

Reachable-Sound_example : Sound promoted_run.0
Reachable-Sound_example =
    Reachable-Sound plain (later start (promote options world promoted_run.1 promoted_ok))

promote_loop-Ends_example :
    is_some (promote_loop plain options (λ n. world) 12 0 empty_tables no_totals) ≡ true
promote_loop-Ends_example = promote_loop-Ends plain options (λ n. world) empty_tables no_totals

copied_ok : promote_range plain whole_range staging empty_tables ≡ ok copied
unfolding promote_range promote_batch read_batch bytes_equal lookup_vault promote_flows hex_to_bytes
    parse_pairs entity_name uuid_v5 vault_flow_id vault_snapshot_id attest_all promote_snapshots
    upsert_flow upsert_snapshot resolve_capability_at resolve_windows flow_canonical
    snapshot_canonical upsert_flow_row upsert_snapshot_row write_flow write_snapshot bytes_text
copied_ok = refl

promote_range-Promoted_example : Promoted empty_tables copied.0
promote_range-Promoted_example =
    promote_range-Promoted plain whole_range staging empty_tables copied.0 copied.1 copied_ok

promote_range-Copied_example :
    Copied plain whole_range.chain_id whole_range.from_block whole_range.to_block staging copied.0
promote_range-Copied_example =
    promote_range-Copied plain whole_range staging empty_tables copied.0 copied.1 copied_ok

-- ===== src/Worker/Confirmed.antt =====
-- apps/worker/src/promote-confirmed.ts: one run of promotion, and the loop that runs until it has caught
-- up.
pub mod Advance
pub mod Loop
use tr4ce_app.Prelude.{
  ℕ, ◌+◌, zero, suc, Bool, Option, none, some, List, [], ◌∷◌, Result, ok, err, ◌>>=◌, or_else,
}
use tr4ce_app.Prelude.Int.{ℤ, pos_part}
use tr4ce_app.Platform.{Platform}
use tr4ce_app.Bytes.{Text}
use tr4ce_app.Observations.Tables.{Tables, Failure, chain_not_registered, provider_has_no_block}
use tr4ce_app.Observations.Registry.{NetworkRow, Registry, read_network, load_vault_lookup}
use tr4ce_app.Observations.Staging.{Staging, read_sink_head}
use tr4ce_app.Observations.Promote.{Attested, PromoteRangeResult, required, promote_range}
use tr4ce_app.Observations.Cursors.{block_of, read_application_cursor, write_application_cursor}
use tr4ce_app.Worker.Promotion.{promotion_ceiling, BlockRange, next_range}

-- `STREAM_KEY`: erc4626-promotion
abbrev pub stream_key : Text
stream_key =
    101 ∷ 114 ∷ 99 ∷ 52 ∷ 54 ∷ 50 ∷ 54 ∷ 45 ∷ 112 ∷ 114 ∷ 111 ∷ 109 ∷ 111 ∷ 116 ∷ 105 ∷ 111 ∷ 110
    ∷ []

-- The first of `ACCEPTED_SCHEMA_VERSIONS`, which is its only one: 1.0.0
abbrev pub accepted_version : Text
accepted_version = 49 ∷ 46 ∷ 48 ∷ 46 ∷ 48 ∷ []

-- What one run meets: the registry, the sink's rows, and the provider's answers. The least window start
-- of the manifest is a number here.
pub record World : Type 0 where
  pub registry : Registry
  pub staging : Staging
  pub canonical_hash_at : ℕ → Option Text

pub record PromoteOptions : Type 0 where
  pub chain_id : ℕ
  pub rpc_head : ℕ
  pub window_start : ℕ
  pub max_blocks_per_run : ℕ

pub record PromoteOutcome : Type 0 where
  pub range : Option BlockRange
  pub promoted : Option PromoteRangeResult
  pub ceiling : Option ℤ
  pub cursor_advanced_to : Option ℕ

abbrev pub idle : Option ℤ → PromoteOutcome
idle ceiling = record {
  range = none;
  promoted = none;
  ceiling = ceiling;
  cursor_advanced_to = none;
}

abbrev attested_version : Option Attested → Option Text
attested_version none = none
attested_version (some a) = some a.schema_version

unfoldable pub run_range :
    Platform
    → PromoteOptions
    → World
    → ℤ
    → Option BlockRange
    → Tables
    → Result Failure (Tables × PromoteOutcome)
run_range p options world ceiling none tables = ok (tables, idle (some ceiling))
run_range p options world ceiling (some range) tables = do
  -- the range's end is at or above its start, so it is no negative number
  let to_block = pos_part range.to_block
  cursor_hash ← required provider_has_no_block (world.canonical_hash_at to_block)
  (copied, promoted) ←
      promote_range p
        (record {
          chain_id = options.chain_id;
          from_block = range.from_block;
          to_block = to_block;
          lookup = load_vault_lookup options.chain_id world.registry;
          accepted_schema_versions = accepted_version ∷ [];
        })
        world.staging tables
  written ←
      write_application_cursor
        (record {
          chain_id = options.chain_id;
          stream_key = stream_key;
          block_number = to_block;
          block_hash = cursor_hash;
          schema_version = or_else (attested_version promoted.attested) accepted_version;
        })
        copied
  ok (
    written,
    record {
      range = some range;
      promoted = some promoted;
      ceiling = some ceiling;
      cursor_advanced_to = some to_block;
    },
  )

abbrev pub cursor_block : PromoteOptions → Tables → Option ℕ
cursor_block options tables = block_of (read_application_cursor options.chain_id stream_key tables)

unfoldable pub run_below :
    Platform → PromoteOptions → World → Option ℤ → Tables → Result Failure (Tables × PromoteOutcome)
run_below p options world none tables = ok (tables, idle none)
run_below p options world (some ceiling) tables =
    run_range p options world ceiling
      (next_range (record {
        cursor_block = cursor_block options tables;
        ceiling = ceiling;
        window_start = options.window_start;
        max_blocks_per_run = options.max_blocks_per_run;
      }))
      tables

unfoldable pub promote_confirmed :
    Platform → PromoteOptions → World → Tables → Result Failure (Tables × PromoteOutcome)
promote_confirmed p options world tables = do
  network ← required chain_not_registered (read_network options.chain_id world.registry)
  let ceiling =
      promotion_ceiling options.rpc_head network.confirmation_depth
        (read_sink_head world.staging.sink_blocks)
  run_below p options world ceiling tables

pub record Totals : Type 0 where
  pub deposits : ℕ
  pub withdrawals : ℕ
  pub share_transfers : ℕ
  pub snapshots : ℕ
  pub last : Option ℕ

abbrev pub add_totals : PromoteRangeResult → Option ℕ → Totals → Totals
add_totals promoted advanced_to totals = record {
  deposits = totals.deposits + promoted.deposits;
  withdrawals = totals.withdrawals + promoted.withdrawals;
  share_transfers = totals.share_transfers + promoted.share_transfers;
  snapshots = totals.snapshots + promoted.snapshots;
  last = advanced_to;
}

-- What the loop of `main` leaves.
pub record LoopEnd : Type 0 where
  pub tables : Tables
  pub totals : Totals
  pub ceiling : Option ℤ

-- The body's break, or its next turn.
abbrev pub turn :
    (Tables → PromoteRangeResult → Option ℕ → Option (Result Failure LoopEnd))
    → Totals
    → Result Failure (Tables × PromoteOutcome)
    → Option (Result Failure LoopEnd)
turn again totals (err failure) = some (err failure)
turn again totals (ok (tables, outcome)) = next outcome.range outcome.promoted
  where
    stop : Option (Result Failure LoopEnd)
    stop = some (ok (record { tables = tables; totals = totals; ceiling = outcome.ceiling }))

    next : Option BlockRange → Option PromoteRangeResult → Option (Result Failure LoopEnd)
    next none promoted = stop
    next (some range) none = stop
    next (some range) (some promoted) = again tables promoted outcome.cursor_advanced_to

-- The `for (;;)` of `main`, on fuel: none is a loop that has not ended yet. Each turn meets a world of
-- its own.
unfoldable pub promote_loop :
    Platform
    → PromoteOptions
    → (ℕ → World)
    → ℕ
    → ℕ
    → Tables
    → Totals
    → Option (Result Failure LoopEnd)
promote_loop p options worlds zero n tables totals = none
promote_loop p options worlds (suc fuel) n tables totals =
    turn
      (λ t promoted advanced_to.
        promote_loop p options worlds fuel (suc n) t (add_totals promoted advanced_to totals))
      totals (promote_confirmed p options (worlds n) tables)

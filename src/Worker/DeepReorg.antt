-- ===== src/Worker/DeepReorg.antt =====
-- apps/worker/src/reconcile-deep-reorg.ts: a reorganisation deeper than the confirmation depth is found
-- and repaired. The provider answers the same whenever it is asked.
pub mod Agrees
pub mod Repaired
pub mod Reconciled
pub mod Rewound
use tr4ce_app.Prelude.{
  ℕ, ◌+◌, ◌-◌, Bool, not, Option, none, some, List, [], ◌∷◌, Result, ok, ◌>>=◌, length, leb, ltb,
  if◌then◌else◌,
}
use tr4ce_app.Prelude.Int.{ℤ}
use tr4ce_app.Platform.{Platform}
use tr4ce_app.Bytes.{Text, bytes_equal, lower}
use tr4ce_app.Observations.Tables.{Tables, Failure, provider_has_no_block}
use tr4ce_app.Observations.Promote.{required}
use tr4ce_app.Observations.Orphans.{
  OrphanedBlock, PromotedBlockHash, list_promoted_block_hashes, InvalidationResult,
  invalidate_orphaned_block,
}
use tr4ce_app.Observations.Cursors.{
  ApplicationCursor, read_application_cursor, rewind_application_cursor,
}
use tr4ce_app.Worker.Confirmed.{stream_key}

pub record ReconcileOptions : Type 0 where
  pub chain_id : ℕ
  pub canonical_hash_at : ℕ → Option Text
  -- with the manifest's least window start where none is given
  pub from_block : ℕ
  -- the clock at the repair
  pub now : ℤ

pub record ReconcileOutcome : Type 0 where
  pub checked : ℕ
  pub orphaned : List OrphanedBlock
  pub invalidated : InvalidationResult
  pub rewound_to : Option ℕ

abbrev pub add_orphan : PromotedBlockHash → Text → List OrphanedBlock → List OrphanedBlock
add_orphan block canonical_hash orphaned =
    if not (bytes_equal canonical_hash (lower block.block_hash))
    then record {
      block_number = block.block_number;
      orphaned_block_hash = block.block_hash;
      canonical_block_hash = canonical_hash;
    }
      ∷ orphaned
    else orphaned

-- The first loop. A missing answer is no evidence of a reorganisation: it throws.
unfoldable pub find_orphans :
    (ℕ → Option Text) → List PromotedBlockHash → Result Failure (List OrphanedBlock)
find_orphans canonical_hash_at [] = ok []
find_orphans canonical_hash_at (block ∷ blocks) = do
  canonical_hash ← required provider_has_no_block (canonical_hash_at block.block_number)
  rest ← find_orphans canonical_hash_at blocks
  ok (add_orphan block canonical_hash rest)

-- `reduce`, from the first orphan.
unfoldable pub shallowest : OrphanedBlock → List OrphanedBlock → OrphanedBlock
shallowest lowest [] = lowest
shallowest lowest (candidate ∷ orphaned) =
    shallowest (if ltb candidate.block_number lowest.block_number then candidate else lowest)
      orphaned

abbrev pub nothing_invalidated : InvalidationResult
nothing_invalidated = record { flows = 0; snapshots = 0; reports = 0 }

abbrev add_result : InvalidationResult → InvalidationResult → InvalidationResult
add_result totals result = record {
  flows = totals.flows + result.flows;
  snapshots = totals.snapshots + result.snapshots;
  reports = totals.reports + result.reports;
}

unfoldable pub invalidate_all :
    Platform
    → ℤ
    → ℕ
    → List OrphanedBlock
    → Tables
    → InvalidationResult
    → Result Failure (Tables × InvalidationResult)
invalidate_all p now chain_id [] tables totals = ok (tables, totals)
invalidate_all p now chain_id (orphan ∷ orphaned) tables totals = do
  (after, result) ← invalidate_orphaned_block p now chain_id orphan tables
  invalidate_all p now chain_id orphaned after (add_result totals result)

-- The cursor goes back to the block below the shallowest orphan, with the hash that the chain has
-- there; subtraction on ℕ stops at 0, as `Math.max(n - 1, 0)` does.
unfoldable pub rewind_to :
    ReconcileOptions → ℕ → ApplicationCursor → Tables → Result Failure (Tables × Option ℕ)
rewind_to options anchor cursor tables = do
  anchor_hash ← required provider_has_no_block (options.canonical_hash_at anchor)
  after ←
      rewind_application_cursor
        (record {
          chain_id = options.chain_id;
          stream_key = stream_key;
          block_number = anchor;
          block_hash = anchor_hash;
          schema_version = cursor.schema_version;
        })
        tables
  ok (after, some anchor)

unfoldable pub rewind :
    ReconcileOptions → ℕ → Option ApplicationCursor → Tables → Result Failure (Tables × Option ℕ)
rewind options lowest none tables = ok (tables, none)
rewind options lowest (some cursor) tables =
    if leb lowest cursor.block_number
    then rewind_to options (lowest - 1) cursor tables
    else ok (tables, none)

-- The transaction.
unfoldable pub repair :
    Platform
    → ReconcileOptions
    → ℕ
    → List OrphanedBlock
    → Tables
    → Result Failure (Tables × ReconcileOutcome)
repair p options checked [] tables = ok (
  tables,
  record { checked = checked; orphaned = []; invalidated = nothing_invalidated; rewound_to = none },
)
repair p options checked (orphan ∷ orphaned) tables = do
  let lowest = shallowest orphan orphaned
  (cleared, totals) ←
      invalidate_all p options.now options.chain_id (orphan ∷ orphaned) tables nothing_invalidated
  (after, rewound_to) ←
      rewind options lowest.block_number
        (read_application_cursor options.chain_id stream_key cleared) cleared
  ok (
    after,
    record {
      checked = checked;
      orphaned = orphan ∷ orphaned;
      invalidated = totals;
      rewound_to = rewound_to;
    },
  )

unfoldable pub reconcile_deep_reorg :
    Platform → ReconcileOptions → Tables → Result Failure (Tables × ReconcileOutcome)
reconcile_deep_reorg p options tables = do
  let promoted = list_promoted_block_hashes options.chain_id options.from_block tables
  orphaned ← find_orphans options.canonical_hash_at promoted
  repair p options (length promoted) orphaned tables

-- ===== src/Observations/Orphans.antt =====
-- The deep reorganisations of packages/db/src/repositories/observations.ts: which blocks were promoted,
-- and what is withdrawn with a block that is no longer on the chain. Nothing is deleted.
pub mod Lookups
pub mod Withdrawn
use tr4ce_app.Prelude.{
  ℕ, ◌==◌, Bool, true, false, ◌&&◌, ◌||◌, not, Option, none, some, List, [], ◌∷◌, ◌++◌, Result, ok,
  ◌>>=◌, ◌>>◌, throw_if, all, any, keep, map, length, leb, if◌then◌else◌,
}
use tr4ce_app.Prelude.Int.{ℤ}
use tr4ce_app.Platform.{Platform}
use tr4ce_app.Domain.{reorg_invalidated}
use tr4ce_app.Bytes.{Text, Bytes, bytes_equal, bytes_to_hex}
use tr4ce_app.Identifiers.{
  reorg_invalidation_id, vault_flow_word, vault_snapshot_word, evidence_report_word,
}
use tr4ce_app.Observations.Tables.{
  VaultFlow, VaultSnapshot, ReportRow, Citation, ObservationRef, flow, snapshot, rpc_call,
  ReorgInvalidation, Tables, Failure, constraint_violation, contains,
}
use tr4ce_app.Observations.Promote.{read_hex}

pub record OrphanedBlock : Type 0 where
  pub block_number : ℕ
  pub orphaned_block_hash : Text
  pub canonical_block_hash : Text

pub record PromotedBlockHash : Type 0 where
  pub block_number : ℕ
  pub block_hash : Text

abbrev pub flow_from : ℕ → ℕ → VaultFlow → Bool
flow_from chain_id from_block row =
    row.chain_id == chain_id && row.canonical && leb from_block row.block_number

abbrev pub snapshot_from : ℕ → ℕ → VaultSnapshot → Bool
snapshot_from chain_id from_block row =
    row.chain_id == chain_id && row.canonical && leb from_block row.block_number

abbrev pub hash_of_flow : VaultFlow → PromotedBlockHash
hash_of_flow row = record {
  block_number = row.block_number;
  block_hash = bytes_to_hex row.block_hash;
}

abbrev pub hash_of_snapshot : VaultSnapshot → PromotedBlockHash
hash_of_snapshot row = record {
  block_number = row.block_number;
  block_hash = bytes_to_hex row.block_hash;
}

abbrev pub same_block : PromotedBlockHash → PromotedBlockHash → Bool
same_block a b = a.block_number == b.block_number && bytes_equal a.block_hash b.block_hash

-- `UNION`, which keeps one of each.
unfoldable pub distinct : List PromotedBlockHash → List PromotedBlockHash
distinct [] = []
distinct (block ∷ blocks) =
    let rest = distinct blocks in if any (λ b. same_block block b) rest then rest else block ∷ rest

-- `ORDER BY block_number`
unfoldable pub insert_block : PromotedBlockHash → List PromotedBlockHash → List PromotedBlockHash
insert_block block [] = block ∷ []
insert_block block (b ∷ blocks) =
    let rest = insert_block block blocks in
    if leb block.block_number b.block_number then block ∷ b ∷ blocks else b ∷ rest

unfoldable pub order_blocks : List PromotedBlockHash → List PromotedBlockHash
order_blocks [] = []
order_blocks (block ∷ blocks) = insert_block block (order_blocks blocks)

unfoldable pub list_promoted_block_hashes : ℕ → ℕ → Tables → List PromotedBlockHash
list_promoted_block_hashes chain_id from_block tables = order_blocks (
    distinct (
      map hash_of_snapshot (keep (λ r. snapshot_from chain_id from_block r) tables.snapshots)
      ++ map hash_of_flow (keep (λ r. flow_from chain_id from_block r) tables.flows)))

-- The rows of one block that are canonical.
abbrev pub flow_at : ℕ → ℕ → Bytes → VaultFlow → Bool
flow_at chain_id block_number hash row =
    row.chain_id == chain_id
    && row.block_number == block_number
    && bytes_equal row.block_hash hash
    && row.canonical

abbrev pub snapshot_at : ℕ → ℕ → Bytes → VaultSnapshot → Bool
snapshot_at chain_id block_number hash row =
    row.chain_id == chain_id
    && row.block_number == block_number
    && bytes_equal row.block_hash hash
    && row.canonical

abbrev pub flow_id : VaultFlow → Text
flow_id row = row.id

abbrev pub snapshot_id : VaultSnapshot → Text
snapshot_id row = row.id

abbrev pub report_id : ReportRow → Text
report_id row = row.id

-- `UPDATE ... SET canonical = false WHERE id IN (ids)`
abbrev pub withdraw_flow : List Text → VaultFlow → VaultFlow
withdraw_flow ids row = if contains row.id ids then record row { canonical = false } else row

abbrev pub withdraw_snapshot : List Text → VaultSnapshot → VaultSnapshot
withdraw_snapshot ids row = if contains row.id ids then record row { canonical = false } else row

abbrev pub withdraw_report : ℤ → List Text → ReportRow → ReportRow
withdraw_report now ids row =
    if contains row.id ids
    then record row {
      canonical = false;
      invalidated_at = some now;
      invalidation_reason = some reorg_invalidated;
    }
    else row

-- One of the orphaned rows is what the citation names. An `IN` over no ids is false, so this is the
-- condition whichever of the two lists is empty.
abbrev pub cites : List Text → List Text → ObservationRef → Bool
cites flow_ids snapshot_ids (flow id) = contains id flow_ids
cites flow_ids snapshot_ids (snapshot id) = contains id snapshot_ids
cites flow_ids snapshot_ids (rpc_call id) = false

-- The join of a canonical report with the citations.
abbrev pub is_dependent : List Text → List Text → List Citation → ReportRow → Bool
is_dependent flow_ids snapshot_ids citations row =
    row.canonical
    && any (λ c. bytes_equal c.report_id row.id && cites flow_ids snapshot_ids c.observation)
        citations

pub record InvalidationResult : Type 0 where
  pub flows : ℕ
  pub snapshots : ℕ
  pub reports : ℕ

abbrev invalidation_row :
    Platform → ℕ → OrphanedBlock → Bytes → Bytes → Text → Text → ReorgInvalidation
invalidation_row p chain_id orphan orphaned_hash canonical_hash kind id = record {
  id = reorg_invalidation_id p kind id orphan.canonical_block_hash;
  chain_id = chain_id;
  block_number = orphan.block_number;
  orphaned_block_hash = orphaned_hash;
  canonical_block_hash = canonical_hash;
  subject_kind = kind;
  subject_id = id;
  reason_code = reorg_invalidated;
}

-- `ON CONFLICT (id) DO NOTHING`, row by row.
unfoldable pub append_invalidations :
    List ReorgInvalidation → List ReorgInvalidation → List ReorgInvalidation
append_invalidations [] stored = stored
append_invalidations (row ∷ rows) stored =
    append_invalidations rows
      (if any (λ r. bytes_equal r.id row.id) stored then stored else stored ++ row ∷ [])

-- The audit rows; the table refuses a pair of hashes that do not differ.
unfoldable pub audit :
    Platform
    → ℕ
    → OrphanedBlock
    → Bytes
    → List Text
    → List Text
    → List Text
    → List ReorgInvalidation
    → Result Failure (List ReorgInvalidation)
audit p chain_id orphan orphaned_hash [] [] [] stored = ok stored
audit p chain_id orphan orphaned_hash flow_ids snapshot_ids report_ids stored = do
  canonical_hash ← read_hex orphan.canonical_block_hash
  throw_if (bytes_equal orphaned_hash canonical_hash) constraint_violation
  let row = invalidation_row p chain_id orphan orphaned_hash canonical_hash
  ok (
      append_invalidations
        (map (λ id. row vault_flow_word id) flow_ids
          ++ map (λ id. row vault_snapshot_word id) snapshot_ids
          ++ map (λ id. row evidence_report_word id) report_ids)
        stored)

-- The ids of the rows of the block, and of the reports that rest on them.
abbrev pub orphaned_flows : ℕ → ℕ → Bytes → Tables → List Text
orphaned_flows chain_id block_number hash tables =
    map flow_id (keep (λ r. flow_at chain_id block_number hash r) tables.flows)

abbrev pub orphaned_snapshots : ℕ → ℕ → Bytes → Tables → List Text
orphaned_snapshots chain_id block_number hash tables =
    map snapshot_id (keep (λ r. snapshot_at chain_id block_number hash r) tables.snapshots)

abbrev pub dependents : List Text → List Text → Tables → List Text
dependents flow_ids snapshot_ids tables =
    map report_id (keep (λ r. is_dependent flow_ids snapshot_ids tables.citations r) tables.reports)

abbrev pub withdrawn :
    ℤ → List Text → List Text → List Text → List ReorgInvalidation → Tables → Tables
withdrawn now flow_ids snapshot_ids report_ids invalidations tables = record tables {
  flows = map (withdraw_flow flow_ids) tables.flows;
  snapshots = map (withdraw_snapshot snapshot_ids) tables.snapshots;
  reports = map (withdraw_report now report_ids) tables.reports;
  invalidations = invalidations;
}

unfoldable pub invalidate_orphaned_block :
    Platform → ℤ → ℕ → OrphanedBlock → Tables → Result Failure (Tables × InvalidationResult)
invalidate_orphaned_block p now chain_id orphan tables = do
  hash ← read_hex orphan.orphaned_block_hash
  let flow_ids = orphaned_flows chain_id orphan.block_number hash tables
  let snapshot_ids = orphaned_snapshots chain_id orphan.block_number hash tables
  let report_ids = dependents flow_ids snapshot_ids tables
  invalidations ← audit p chain_id orphan hash flow_ids snapshot_ids report_ids tables.invalidations
  ok (
    withdrawn now flow_ids snapshot_ids report_ids invalidations tables,
    record {
      flows = length flow_ids;
      snapshots = length snapshot_ids;
      reports = length report_ids;
    },
  )

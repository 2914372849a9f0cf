-- ===== src/Observations/Orphans/Withdrawn.antt =====
-- What is left of an orphaned block in packages/db/src/repositories/observations.ts, and of the reports
-- that rest on it.
use tr4ce_app.Prelude.{
  ℕ, ◌≡◌, refl, ap, subst, false, List, [], ◌∷◌, ok, map, any, arith, >>=-eq-ok, ok_inj,
}
use tr4ce_app.Prelude.Int.{ℤ}
use tr4ce_app.Platform.{Platform}
use tr4ce_app.Bytes.{Text, Bytes}
use tr4ce_app.Observations.Tables.{VaultFlow, VaultSnapshot, ReorgInvalidation, Tables}
use tr4ce_app.Observations.Promote.{read_hex}
use tr4ce_app.Observations.Orphans.{
  OrphanedBlock, InvalidationResult, flow_id, snapshot_id, flow_at, snapshot_at, withdraw_flow,
  withdraw_snapshot, orphaned_flows, orphaned_snapshots, dependents, withdrawn, audit,
  invalidate_orphaned_block,
}
use tr4ce_app.Observations.Orphans.Lookups.{Selected, map-keep-Selected}

-- The tables after the block's rows and their dependents are withdrawn.
abbrev pub tables_after : ℤ → ℕ → ℕ → Bytes → List ReorgInvalidation → Tables → Tables
tables_after now chain_id block_number hash invalidations tables =
    let flow_ids = orphaned_flows chain_id block_number hash tables in
    let snapshot_ids = orphaned_snapshots chain_id block_number hash tables in
    withdrawn now flow_ids snapshot_ids (dependents flow_ids snapshot_ids tables) invalidations
      tables

-- The run that succeeded: the hash that was read, and the tables that it left.
pub invalidate_orphaned_block-ok :
    (p : Platform) (now : ℤ) (chain_id : ℕ) (orphan : OrphanedBlock) (tables : Tables)
    {after : Tables} {result : InvalidationResult}
    → invalidate_orphaned_block p now chain_id orphan tables ≡ ok (after, result)
    → (hash : Bytes) × (rows : List ReorgInvalidation) × (read_hex orphan.orphaned_block_hash
        ≡ ok hash)
      × (tables_after now chain_id orphan.block_number hash rows tables ≡ after)
unfolding invalidate_orphaned_block
invalidate_orphaned_block-ok p now chain_id orphan tables e =
    let (hash, h, e1) = >>=-eq-ok (read_hex orphan.orphaned_block_hash) _ e in
    let (rows, _, e2) = >>=-eq-ok (audit p chain_id orphan hash _ _ _ tables.invalidations) _ e1 in
    (hash, rows, h, ap (λ t. t.0) (ok_inj e2))

module _ (chain_id block_number : ℕ) (hash : Bytes) where
  no_flow-withdrawn :
      (ids : List Text) (rows : List VaultFlow)
      → Selected flow_id (λ r. flow_at chain_id block_number hash r) ids rows
      → any (λ r. flow_at chain_id block_number hash r) (map (withdraw_flow ids) rows) ≡ false
  no_flow-withdrawn ids [] h = refl
  no_flow-withdrawn ids (r ∷ rows) h = grind (arith, h, no_flow-withdrawn ids rows)

  no_snapshot-withdrawn :
      (ids : List Text) (rows : List VaultSnapshot)
      → Selected snapshot_id (λ r. snapshot_at chain_id block_number hash r) ids rows
      → any (λ r. snapshot_at chain_id block_number hash r) (map (withdraw_snapshot ids) rows)
        ≡ false
  no_snapshot-withdrawn ids [] h = refl
  no_snapshot-withdrawn ids (r ∷ rows) h = grind (arith, h, no_snapshot-withdrawn ids rows)

-- No row of the block is canonical any more.
pub record BlockGone (chain_id block_number : ℕ) (hash : Bytes) (tables : Tables) : Type 0 where
  pub flows : any (λ r. flow_at chain_id block_number hash r) tables.flows ≡ false
  pub snapshots : any (λ r. snapshot_at chain_id block_number hash r) tables.snapshots ≡ false

-- Invalidating an orphaned block leaves no canonical flow or snapshot of that chain, number and hash.
pub invalidate_orphaned_block-BlockGone :
    (p : Platform) (now : ℤ) (chain_id : ℕ) (orphan : OrphanedBlock) (tables : Tables)
    {after : Tables} {result : InvalidationResult}
    → invalidate_orphaned_block p now chain_id orphan tables ≡ ok (after, result)
    → (hash : Bytes) × (read_hex orphan.orphaned_block_hash ≡ ok hash)
      × BlockGone chain_id orphan.block_number hash after
invalidate_orphaned_block-BlockGone p now chain_id orphan tables e =
    let (hash, rows, h, left) = invalidate_orphaned_block-ok p now chain_id orphan tables e in
    let n = orphan.block_number in
    (
      hash,
      h,
      subst (BlockGone chain_id n hash) left (record {
        flows =
            no_flow-withdrawn chain_id n hash (orphaned_flows chain_id n hash tables) tables.flows
              (map-keep-Selected flow_id (λ r. flow_at chain_id n hash r) tables.flows);
        snapshots =
            no_snapshot-withdrawn chain_id n hash (orphaned_snapshots chain_id n hash tables)
              tables.snapshots
              (map-keep-Selected snapshot_id (λ r. snapshot_at chain_id n hash r) tables.snapshots);
      }),
    )

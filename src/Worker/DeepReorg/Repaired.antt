-- ===== src/Worker/DeepReorg/Repaired.antt =====
-- Withdrawing the orphans of apps/worker/src/reconcile-deep-reorg.ts, one after the other.
use tr4ce_app.Prelude.{
  ℕ, ◌≡◌, refl, sym, ap, ◌∙◌, subst, Bool, true, ◌||◌, not, Option, List, [], ◌∷◌, ok, map, all,
  arith, All, >>=-eq-ok, ok_inj,
}
use tr4ce_app.Prelude.Int.{ℤ}
use tr4ce_app.Platform.{Platform}
use tr4ce_app.Bytes.{Text, Bytes, bytes_equal, bytes_to_hex}
use tr4ce_app.Bytes.Equality.{bytes_equal_iff}
use tr4ce_app.Bytes.RoundTrip.{AreBytes, hex_to_bytes-bytes_to_hex}
use tr4ce_app.Observations.Tables.{VaultFlow, VaultSnapshot, Tables}
use tr4ce_app.Observations.Promote.{read_hex}
use tr4ce_app.Observations.Orphans.{
  OrphanedBlock, InvalidationResult, flow_from, snapshot_from, hash_of_flow, hash_of_snapshot,
  flow_id, snapshot_id, flow_at, snapshot_at, withdraw_flow, withdraw_snapshot,
  invalidate_orphaned_block, orphaned_flows, orphaned_snapshots,
}
use tr4ce_app.Observations.Orphans.Lookups.{Selected, map-keep-Selected}
use tr4ce_app.Observations.Orphans.Withdrawn.{invalidate_orphaned_block-ok}
use tr4ce_app.Worker.DeepReorg.{invalidate_all}
use tr4ce_app.Worker.DeepReorg.Agrees.{sorted_out}

read_hex-bytes_to_hex : (b : Bytes) → AreBytes b → read_hex (bytes_to_hex b) ≡ ok b
read_hex-bytes_to_hex b h = rw (hex_to_bytes-bytes_to_hex b h)

named_hash :
    (text : Text) (b hash : Bytes)
    → AreBytes b
    → read_hex text ≡ ok hash
    → bytes_equal text (bytes_to_hex b) ≡ true
    → bytes_equal b hash ≡ true
named_hash text b hash small read same =
    let spelled = (bytes_equal_iff text (bytes_to_hex b)).0 same in
    (bytes_equal_iff b hash).1
      (ok_inj (sym (read_hex-bytes_to_hex b small) ∙ (ap (λ t. read_hex t) (sym spelled) ∙ read)))

abbrev pub FlowsAreBytes : List VaultFlow → Type 0
FlowsAreBytes rows = All (λ r. AreBytes r.block_hash) rows

abbrev pub SnapshotsAreBytes : List VaultSnapshot → Type 0
SnapshotsAreBytes rows = All (λ r. AreBytes r.block_hash) rows

module _ (canonical_hash_at : ℕ → Option Text) (chain_id from_block : ℕ) where
  -- The row is on the chain, or in one of the blocks that are still to be withdrawn.
  abbrev pub flow_left : List OrphanedBlock → VaultFlow → Bool
  flow_left orphaned r =
      not (flow_from chain_id from_block r)
      || sorted_out canonical_hash_at orphaned (hash_of_flow r)

  abbrev pub snapshot_left : List OrphanedBlock → VaultSnapshot → Bool
  snapshot_left orphaned r =
      not (snapshot_from chain_id from_block r)
      || sorted_out canonical_hash_at orphaned (hash_of_snapshot r)

  withdraw-flow_left :
      (o : OrphanedBlock) (orphaned : List OrphanedBlock) (hash : Bytes) (ids : List Text)
      (rows : List VaultFlow)
      → read_hex o.orphaned_block_hash ≡ ok hash
      → Selected flow_id (λ r. flow_at chain_id o.block_number hash r) ids rows
      → FlowsAreBytes rows
      → all (λ r. flow_left (o ∷ orphaned) r) rows ≡ true
      → all (λ r. flow_left orphaned r) (map (withdraw_flow ids) rows) ≡ true
  withdraw-flow_left o orphaned hash ids [] read s small h = refl
  withdraw-flow_left o orphaned hash ids (r ∷ rows) read s (here, small) h = ground (
    arith,
    s,
    h,
    named_hash o.orphaned_block_hash r.block_hash hash here read,
    λ (e : Selected flow_id (λ q. flow_at chain_id o.block_number hash q) ids rows).
        withdraw-flow_left o orphaned hash ids rows read e small,
  )

  withdraw-snapshot_left :
      (o : OrphanedBlock) (orphaned : List OrphanedBlock) (hash : Bytes) (ids : List Text)
      (rows : List VaultSnapshot)
      → read_hex o.orphaned_block_hash ≡ ok hash
      → Selected snapshot_id (λ r. snapshot_at chain_id o.block_number hash r) ids rows
      → SnapshotsAreBytes rows
      → all (λ r. snapshot_left (o ∷ orphaned) r) rows ≡ true
      → all (λ r. snapshot_left orphaned r) (map (withdraw_snapshot ids) rows) ≡ true
  withdraw-snapshot_left o orphaned hash ids [] read s small h = refl
  withdraw-snapshot_left o orphaned hash ids (r ∷ rows) read s (here, small) h = ground (
    arith,
    s,
    h,
    named_hash o.orphaned_block_hash r.block_hash hash here read,
    λ (e : Selected snapshot_id (λ q. snapshot_at chain_id o.block_number hash q) ids rows).
        withdraw-snapshot_left o orphaned hash ids rows read e small,
  )

withdraw_flow-hash :
    (ids : List Text) (r : VaultFlow) → (withdraw_flow ids r).block_hash ≡ r.block_hash
withdraw_flow-hash ids r = ground arith

withdraw_snapshot-hash :
    (ids : List Text) (r : VaultSnapshot) → (withdraw_snapshot ids r).block_hash ≡ r.block_hash
withdraw_snapshot-hash ids r = ground arith

withdraw-FlowsAreBytes :
    (ids : List Text) (rows : List VaultFlow)
    → FlowsAreBytes rows
    → FlowsAreBytes (map (withdraw_flow ids) rows)
withdraw-FlowsAreBytes ids [] h = tt
withdraw-FlowsAreBytes ids (r ∷ rows) (here, h) =
    (subst AreBytes (sym (withdraw_flow-hash ids r)) here, withdraw-FlowsAreBytes ids rows h)

withdraw-SnapshotsAreBytes :
    (ids : List Text) (rows : List VaultSnapshot)
    → SnapshotsAreBytes rows
    → SnapshotsAreBytes (map (withdraw_snapshot ids) rows)
withdraw-SnapshotsAreBytes ids [] h = tt
withdraw-SnapshotsAreBytes ids (r ∷ rows) (here, h) = (
  subst AreBytes (sym (withdraw_snapshot-hash ids r)) here,
  withdraw-SnapshotsAreBytes ids rows h,
)

-- The columns of hashes hold bytes.
abbrev pub HashesAreBytes : Tables → Type 0
HashesAreBytes tables = FlowsAreBytes tables.flows × SnapshotsAreBytes tables.snapshots

-- Every canonical row from the block on is on the chain, or in a block that is still to be withdrawn.
abbrev pub Left : (ℕ → Option Text) → ℕ → ℕ → List OrphanedBlock → Tables → Type 0
Left canonical_hash_at chain_id from_block orphaned tables =
    (all (λ r. flow_left canonical_hash_at chain_id from_block orphaned r) tables.flows ≡ true)
    × (all (λ r. snapshot_left canonical_hash_at chain_id from_block orphaned r) tables.snapshots
        ≡ true)

pub invalidate_all-Left :
    (canonical_hash_at : ℕ → Option Text) (from_block : ℕ) (p : Platform) (now : ℤ) (chain_id : ℕ)
    (orphaned : List OrphanedBlock) (tables : Tables) (totals : InvalidationResult) {after : Tables}
    {result : InvalidationResult}
    → invalidate_all p now chain_id orphaned tables totals ≡ ok (after, result)
    → HashesAreBytes tables
    → Left canonical_hash_at chain_id from_block orphaned tables
    → Left canonical_hash_at chain_id from_block [] after
unfolding invalidate_all
invalidate_all-Left canonical_hash_at from_block p now chain_id [] tables totals e small h =
    subst (Left canonical_hash_at chain_id from_block []) (ap (λ t. t.0) (ok_inj e)) h
invalidate_all-Left canonical_hash_at from_block p now chain_id (o ∷ orphaned) tables totals e small
      h =
    let (step, s, e1) = >>=-eq-ok (invalidate_orphaned_block p now chain_id o tables) _ e in
    let (hash, rows, read, left) = invalidate_orphaned_block-ok p now chain_id o tables s in
    let n = o.block_number in
    let flow_ids = orphaned_flows chain_id n hash tables in
    let snapshot_ids = orphaned_snapshots chain_id n hash tables in
    let flows =
      withdraw-flow_left canonical_hash_at chain_id from_block o orphaned hash flow_ids tables.flows
        read (map-keep-Selected flow_id (λ r. flow_at chain_id n hash r) tables.flows) small.0
        h.0 in
    let snapshots =
      withdraw-snapshot_left canonical_hash_at chain_id from_block o orphaned hash snapshot_ids
        tables.snapshots read
        (map-keep-Selected snapshot_id (λ r. snapshot_at chain_id n hash r) tables.snapshots)
        small.1 h.1 in
    invalidate_all-Left canonical_hash_at from_block p now chain_id orphaned step.0 _ e1
      (subst HashesAreBytes left (
        withdraw-FlowsAreBytes flow_ids tables.flows small.0,
        withdraw-SnapshotsAreBytes snapshot_ids tables.snapshots small.1,
      ))
      (subst (Left canonical_hash_at chain_id from_block orphaned) left (flows, snapshots))

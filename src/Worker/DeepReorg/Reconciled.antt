-- ===== src/Worker/DeepReorg/Reconciled.antt =====
-- What `reconcileDeepReorg` of apps/worker/src/reconcile-deep-reorg.ts leaves where it succeeds, and when
-- it does not.
use tr4ce_app.Prelude.{
  ℕ, ◌-◌, ◌≤◌, ◌≡◌, ◌⊎◌, inl, inr, refl, sym, ap, ◌∙◌, subst, true, false, ◌||◌, not, Option, none,
  some, List, [], ◌∷◌, ok, all, leb, length, arith, >>=-eq-ok, ok_inj, if-cases, the_ok,
}
use tr4ce_app.Platform.{Platform}
use tr4ce_app.Bytes.{Text}
use tr4ce_app.Observations.Tables.{VaultFlow, VaultSnapshot, Tables, Failure, provider_has_no_block}
use tr4ce_app.Observations.Promote.{required}
use tr4ce_app.Observations.Orphans.{
  OrphanedBlock, InvalidationResult, flow_from, snapshot_from, hash_of_flow, hash_of_snapshot,
  list_promoted_block_hashes,
}
use tr4ce_app.Observations.Cursors.{
  ApplicationCursor, OnlyCursor, block_of, read_application_cursor, rewind_application_cursor,
  write_application_cursor-read,
}
use tr4ce_app.Worker.Confirmed.{stream_key}
use tr4ce_app.Worker.DeepReorg.{
  ReconcileOptions, ReconcileOutcome, find_orphans, shallowest, nothing_invalidated, invalidate_all,
  rewind_to, rewind, repair, reconcile_deep_reorg,
}
use tr4ce_app.Worker.DeepReorg.Agrees.{agrees, sorted_out, promoted-all, find_orphans-all}
use tr4ce_app.Worker.DeepReorg.Repaired.{
  flow_left, snapshot_left, HashesAreBytes, Left, invalidate_all-Left,
}

-- Every canonical row from a block on has the hash that the chain has at its number.
pub record OnChain (canonical_hash_at : ℕ → Option Text) (chain_id from_block : ℕ) (tables : Tables)
    : Type 0 where
  pub flows :
      all
        (λ r. not (flow_from chain_id from_block r) || agrees canonical_hash_at (hash_of_flow r))
        tables.flows
      ≡ true
  pub snapshots :
      all
        (λ r.
          not (snapshot_from chain_id from_block r)
          || agrees canonical_hash_at (hash_of_snapshot r))
        tables.snapshots
      ≡ true

module _ (canonical_hash_at : ℕ → Option Text) (chain_id from_block : ℕ) where
  flows-none_left :
      (rows : List VaultFlow)
      → all (λ r. flow_left canonical_hash_at chain_id from_block [] r) rows ≡ true
      → all
          (λ r. not (flow_from chain_id from_block r) || agrees canonical_hash_at (hash_of_flow r))
          rows
        ≡ true
  flows-none_left [] h = refl
  flows-none_left (r ∷ rows) h = ground (arith, h, flows-none_left rows)

  snapshots-none_left :
      (rows : List VaultSnapshot)
      → all (λ r. snapshot_left canonical_hash_at chain_id from_block [] r) rows ≡ true
      → all
          (λ r.
            not (snapshot_from chain_id from_block r)
            || agrees canonical_hash_at (hash_of_snapshot r))
          rows
        ≡ true
  snapshots-none_left [] h = refl
  snapshots-none_left (r ∷ rows) h = ground (arith, h, snapshots-none_left rows)

  Left-OnChain :
      (tables : Tables)
      → Left canonical_hash_at chain_id from_block [] tables
      → OnChain canonical_hash_at chain_id from_block tables
  Left-OnChain tables (f, s) = record {
    flows = flows-none_left tables.flows f;
    snapshots = snapshots-none_left tables.snapshots s;
  }

unmoved : (tables : Tables) → OnlyCursor tables tables
unmoved tables = record {
  flows = refl;
  snapshots = refl;
  reports = refl;
  citations = refl;
  invalidations = refl;
}

-- The cursor stands below the block, or at 0.
abbrev pub Below : ReconcileOptions → ℕ → Tables → Type 0
Below options lowest tables =
    (c : ℕ)
    → block_of (read_application_cursor options.chain_id stream_key tables) ≡ some c
    → c ≤ lowest - 1

rewind_to-Below :
    (options : ReconcileOptions) (lowest : ℕ) (cursor : ApplicationCursor) (tables : Tables)
    {after : Tables} {rewound_to : Option ℕ}
    → rewind_to options (lowest - 1) cursor tables ≡ ok (after, rewound_to)
    → OnlyCursor tables after × Below options lowest after
unfolding rewind_to rewind_application_cursor
rewind_to-Below options lowest cursor tables e =
    let (hash, _, e1) =
      >>=-eq-ok (required provider_has_no_block (options.canonical_hash_at (lowest - 1))) _ e in
    let (written, w, e2) = >>=-eq-ok (rewind_application_cursor _ tables) _ e1 in
    let (read, only) = write_application_cursor-read _ tables w in
    subst (λ t. OnlyCursor tables t × Below options lowest t) (ap (λ t. t.0) (ok_inj e2))
      (only, λ c found. at_anchor c (sym read ∙ found))
  where
    at_anchor : (c : ℕ) → some (lowest - 1) ≡ some c → c ≤ lowest - 1
    at_anchor c e = ground arith

rewind-Below :
    (options : ReconcileOptions) (lowest : ℕ) (cursor : Option ApplicationCursor) (tables : Tables)
    {after : Tables} {rewound_to : Option ℕ}
    → read_application_cursor options.chain_id stream_key tables ≡ cursor
    → rewind options lowest cursor tables ≡ ok (after, rewound_to)
    → OnlyCursor tables after × Below options lowest after
unfolding rewind
rewind-Below options lowest none tables r e =
    subst (λ t. OnlyCursor tables t × Below options lowest t) (ap (λ t. t.0) (ok_inj e))
      (unmoved tables, λ c found. absent c (sym (ap block_of r) ∙ found))
  where
    absent : (c : ℕ) → block_of none ≡ some c → c ≤ lowest - 1
    absent c e = cc
rewind-Below options lowest (some cursor) tables {after = after} {rewound_to = rewound_to} r e =
    by_case (if-cases (leb lowest cursor.block_number) e)
  where
    short :
        (c : ℕ)
        → leb lowest cursor.block_number ≡ false
        → some cursor.block_number ≡ some c
        → c ≤ lowest - 1
    short c s f = ground arith

    by_case :
        ((leb lowest cursor.block_number ≡ true)
            × (rewind_to options (lowest - 1) cursor tables ≡ ok (after, rewound_to)))
          ⊎ ((leb lowest cursor.block_number ≡ false)
              × (the_ok Failure {A = Tables × Option ℕ} (tables, none) ≡ ok (after, rewound_to)))
        → OnlyCursor tables after × Below options lowest after
    by_case (inl (_, ran)) = rewind_to-Below options lowest cursor tables ran
    by_case (inr (s, done)) =
        subst (λ t. OnlyCursor tables t × Below options lowest t) (ap (λ t. t.0) (ok_inj done))
          (unmoved tables, λ c found. short c s (sym (ap block_of r) ∙ found))

pub shallowest-lowest :
    (lowest : OrphanedBlock) (orphaned : List OrphanedBlock)
    → (leb (shallowest lowest orphaned).block_number lowest.block_number ≡ true)
      × (all (λ o. leb (shallowest lowest orphaned).block_number o.block_number) orphaned ≡ true)
unfolding shallowest
shallowest-lowest lowest [] = (ground arith, refl)
shallowest-lowest lowest (o ∷ orphaned) =
    ground (arith, shallowest-lowest lowest orphaned, shallowest-lowest o orphaned)

-- The parts of a repair that found orphans.
pub repair-parts :
    (p : Platform) (options : ReconcileOptions) (checked : ℕ) (orphan : OrphanedBlock)
    (orphaned : List OrphanedBlock) (tables : Tables) {after : Tables} {outcome : ReconcileOutcome}
    → repair p options checked (orphan ∷ orphaned) tables ≡ ok (after, outcome)
    → (cleared : Tables) × (totals : InvalidationResult) × (invalidate_all p options.now
          options.chain_id
          (orphan ∷ orphaned)
          tables
          nothing_invalidated
        ≡ ok (cleared, totals))
      × OnlyCursor cleared after
      × Below options (shallowest orphan orphaned).block_number after
      × (outcome.orphaned ≡ orphan ∷ orphaned)
unfolding repair
repair-parts p options checked orphan orphaned tables e =
    let lowest = shallowest orphan orphaned in
    let (step, s, e1) =
      >>=-eq-ok
        (invalidate_all p options.now options.chain_id (orphan ∷ orphaned) tables
          nothing_invalidated)
        _ e in
    let cursor = read_application_cursor options.chain_id stream_key step.0 in
    let (moved, w, e2) = >>=-eq-ok (rewind options lowest.block_number cursor step.0) _ e1 in
    let done = ok_inj e2 in
    let (only, below) = rewind-Below options lowest.block_number cursor step.0 refl w in
    (
      step.0,
      step.1,
      s,
      subst (λ t. OnlyCursor step.0 t) (ap (λ t. t.0) done) only,
      subst (Below options lowest.block_number) (ap (λ t. t.0) done) below,
      sym (ap (λ t. t.1.orphaned) done),
    )

OnChain-OnlyCursor :
    (canonical_hash_at : ℕ → Option Text) (chain_id from_block : ℕ) (before after : Tables)
    → OnlyCursor before after
    → OnChain canonical_hash_at chain_id from_block before
    → OnChain canonical_hash_at chain_id from_block after
OnChain-OnlyCursor canonical_hash_at chain_id from_block before after only h = record {
  flows =
      subst
        (λ rs.
          all
            (λ r.
              not (flow_from chain_id from_block r) || agrees canonical_hash_at (hash_of_flow r))
            rs
          ≡ true)
        (sym only.flows) h.flows;
  snapshots =
      subst
        (λ rs.
          all
            (λ r.
              not (snapshot_from chain_id from_block r)
              || agrees canonical_hash_at (hash_of_snapshot r))
            rs
          ≡ true)
        (sym only.snapshots) h.snapshots;
}

repair-OnChain :
    (p : Platform) (options : ReconcileOptions) (checked : ℕ) (orphaned : List OrphanedBlock)
    (tables : Tables) {after : Tables} {outcome : ReconcileOutcome}
    → repair p options checked orphaned tables ≡ ok (after, outcome)
    → HashesAreBytes tables
    → Left options.canonical_hash_at options.chain_id options.from_block orphaned tables
    → OnChain options.canonical_hash_at options.chain_id options.from_block after
unfolding repair
repair-OnChain p options checked [] tables e small h =
    subst (OnChain options.canonical_hash_at options.chain_id options.from_block)
      (ap (λ t. t.0) (ok_inj e))
      (Left-OnChain options.canonical_hash_at options.chain_id options.from_block tables h)
repair-OnChain p options checked (o ∷ orphaned) tables {after = after} e small h =
    let (cleared, totals, s, only, _, _) = repair-parts p options checked o orphaned tables e in
    OnChain-OnlyCursor options.canonical_hash_at options.chain_id options.from_block cleared after
      only
      (Left-OnChain options.canonical_hash_at options.chain_id options.from_block cleared (
        invalidate_all-Left options.canonical_hash_at options.from_block p options.now
          options.chain_id (o ∷ orphaned) tables nothing_invalidated s small h))

-- Where reconciliation succeeds over rows whose hashes are bytes, every flow and snapshot that is still
-- canonical, from the block it checks from, has the hash that the chain has at its number.
pub reconcile_deep_reorg-OnChain :
    (p : Platform) (options : ReconcileOptions) (tables after : Tables) (outcome : ReconcileOutcome)
    → HashesAreBytes tables
    → reconcile_deep_reorg p options tables ≡ ok (after, outcome)
    → OnChain options.canonical_hash_at options.chain_id options.from_block after
unfolding reconcile_deep_reorg
reconcile_deep_reorg-OnChain p options tables after outcome small e =
    let promoted = list_promoted_block_hashes options.chain_id options.from_block tables in
    let (orphaned, f, e1) = >>=-eq-ok (find_orphans options.canonical_hash_at promoted) _ e in
    repair-OnChain p options (length promoted) orphaned tables e1 small (
      promoted-all (λ b. sorted_out options.canonical_hash_at orphaned b) options.chain_id
        options.from_block tables (find_orphans-all options.canonical_hash_at promoted orphaned f))

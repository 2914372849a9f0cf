-- ===== src/Worker/DeepReorg/Rewound.antt =====
-- Where `reconcileDeepReorg` of apps/worker/src/reconcile-deep-reorg.ts leaves the cursor, and what a
-- provider's missing answer does.
use tr4ce_app.Prelude.{
  ℕ, ◌+◌, ◌-◌, ◌≤◌, zero, suc, ◌⊎◌, inl, inr, false, All, ◌≡◌, refl, sym, ap, subst, Bool, true,
  ◌&&◌, not, Option, some, List, [], ◌∷◌, ok, err, all, any, leb, is_some, length, arith, >>=-eq-ok,
  ok_inj,
}
use tr4ce_app.Platform.{Platform}
use tr4ce_app.Bytes.{Text}
use tr4ce_app.Observations.Tables.{Tables, provider_has_no_block}
use tr4ce_app.Observations.Orphans.{OrphanedBlock, PromotedBlockHash, list_promoted_block_hashes}
use tr4ce_app.Observations.Cursors.{block_of, read_application_cursor}
use tr4ce_app.Worker.Confirmed.{stream_key}
use tr4ce_app.Worker.DeepReorg.{
  ReconcileOptions, ReconcileOutcome, find_orphans, shallowest, repair, reconcile_deep_reorg,
}
use tr4ce_app.Worker.DeepReorg.Reconciled.{shallowest-lowest, repair-parts}

-- The run that follows a cursor at `c` starts at or below the orphan's number, unless that is 0, which
-- no cursor stands below: there the cursor is left at 0.
abbrev pub Covered : ℕ → OrphanedBlock → Type 0
Covered c o = (c + 1 ≤ o.block_number) ⊎ ((o.block_number ≡ 0) × (c ≡ 0))

all-Covered :
    (c lowest : ℕ) (orphaned : List OrphanedBlock)
    → c ≤ lowest - 1
    → all (λ o. leb lowest o.block_number) orphaned ≡ true
    → All (Covered c) orphaned
all-Covered c lowest [] h k = tt
all-Covered c lowest (o ∷ orphaned) h k =
    let (here, there) = both (leb lowest o.block_number) _ k in
    (covered c lowest o.block_number h here, all-Covered c lowest orphaned h there)
  where
    both : (a b : Bool) → (a && b) ≡ true → (a ≡ true) × (b ≡ true)
    both true b e = (refl, e)
    both false b e = cc

    covered :
        (c lowest n : ℕ) → c ≤ lowest - 1 → leb lowest n ≡ true → (c + 1 ≤ n) ⊎ ((n ≡ 0) × (c ≡ 0))
    covered c lowest zero h k = inr (refl, ground (arith, h, k))
    covered c lowest (suc n) h k = inl (ground (arith, h, k))

repair-below :
    (p : Platform) (options : ReconcileOptions) (checked : ℕ) (orphaned : List OrphanedBlock)
    (tables : Tables) {after : Tables} {outcome : ReconcileOutcome} (c : ℕ)
    → repair p options checked orphaned tables ≡ ok (after, outcome)
    → block_of (read_application_cursor options.chain_id stream_key after) ≡ some c
    → All (Covered c) outcome.orphaned
unfolding repair
repair-below p options checked [] tables c e found =
    subst (λ os. All (Covered c) os) (ap (λ t. t.1.orphaned) (ok_inj e)) tt
repair-below p options checked (o ∷ orphaned) tables c e found =
    let (_, _, _, _, below, same) = repair-parts p options checked o orphaned tables e in
    let lowest = (shallowest o orphaned).block_number in
    let (here, there) = shallowest-lowest o orphaned in
    subst (λ os. All (Covered c) os) (sym same)
      (all-Covered c lowest (o ∷ orphaned) (below c found) (both here there))
  where
    both : {a b : Bool} → a ≡ true → b ≡ true → (a && b) ≡ true
    both e f = cc

-- Where reconciliation succeeds and leaves a cursor, the block after the cursor is at or below every
-- block that it found orphaned; for an orphan at block 0, which no cursor stands below, the cursor is 0.
pub reconcile_deep_reorg-rewound :
    (p : Platform) (options : ReconcileOptions) (tables after : Tables) (outcome : ReconcileOutcome)
    (c : ℕ)
    → reconcile_deep_reorg p options tables ≡ ok (after, outcome)
    → block_of (read_application_cursor options.chain_id stream_key after) ≡ some c
    → All (Covered c) outcome.orphaned
unfolding reconcile_deep_reorg
reconcile_deep_reorg-rewound p options tables after outcome c e found =
    let promoted = list_promoted_block_hashes options.chain_id options.from_block tables in
    let (orphaned, _, e1) = >>=-eq-ok (find_orphans options.canonical_hash_at promoted) _ e in
    repair-below p options (length promoted) orphaned tables c e1 found

abbrev pub unanswered : (ℕ → Option Text) → PromotedBlockHash → Bool
unanswered canonical_hash_at block = not (is_some (canonical_hash_at block.block_number))

find_orphans-unanswered :
    (canonical_hash_at : ℕ → Option Text) (blocks : List PromotedBlockHash)
    → any (λ b. unanswered canonical_hash_at b) blocks ≡ true
    → find_orphans canonical_hash_at blocks ≡ err provider_has_no_block
unfolding find_orphans
find_orphans-unanswered canonical_hash_at [] h = cc
find_orphans-unanswered canonical_hash_at (b ∷ blocks) h =
    ground (arith, h, find_orphans-unanswered canonical_hash_at blocks)

-- A provider that has no answer for one promoted block stops reconciliation with an error: a missing
-- answer withdraws nothing.
pub reconcile_deep_reorg-unanswered :
    (p : Platform) (options : ReconcileOptions) (tables : Tables)
    → any
        (λ b. unanswered options.canonical_hash_at b)
        (list_promoted_block_hashes options.chain_id options.from_block tables)
      ≡ true
    → reconcile_deep_reorg p options tables ≡ err provider_has_no_block
unfolding reconcile_deep_reorg
reconcile_deep_reorg-unanswered p options tables h = rw (
    find_orphans-unanswered options.canonical_hash_at
      (list_promoted_block_hashes options.chain_id options.from_block tables) h)

-- ===== src/Worker/Reachable.antt =====
-- Every sequence of what the worker and the API do to the observations and the reports: runs of
-- apps/worker/src/promote-confirmed.ts and apps/worker/src/reconcile-deep-reorg.ts, and the insertions of
-- packages/db/src/repositories/reports.ts.
use tr4ce_app.Prelude.{
  ℕ, ◌≡◌, inl, inr, sym, ap, ◌∙◌, subst, Bool, [], ◌∷◌, List, ok, length, is_some, All, >>=-eq-ok,
  ok_inj,
}
use tr4ce_app.Prelude.Int.{ℤ}
use tr4ce_app.Platform.{Platform}
use tr4ce_app.Observations.Tables.{
  ObservationRef, flow, snapshot, rpc_call, Citation, Tables, flow_canonical, snapshot_canonical,
  report_canonical,
}
use tr4ce_app.Observations.Orphans.{
  OrphanedBlock, InvalidationResult, list_promoted_block_hashes, invalidate_orphaned_block,
}
use tr4ce_app.Observations.Cursors.{OnlyCursor}
use tr4ce_app.Observations.Reports.{InsertReportInput, StoredReport, insert_report}
use tr4ce_app.Observations.Sound.{Stands, Backed, Sound, All-imp, Promoted-Sound}
use tr4ce_app.Observations.Sound.Orphans.{invalidate_orphaned_block-Sound}
use tr4ce_app.Observations.Sound.Reports.{insert_report-Sound}
use tr4ce_app.Worker.Confirmed.{World, PromoteOptions, PromoteOutcome, promote_confirmed}
use tr4ce_app.Worker.Confirmed.Advance.{Advances, promote_confirmed-Advances}
use tr4ce_app.Worker.DeepReorg.{
  ReconcileOptions, ReconcileOutcome, find_orphans, invalidate_all, nothing_invalidated, repair,
  reconcile_deep_reorg,
}
use tr4ce_app.Worker.DeepReorg.Reconciled.{repair-parts}

Stands-OnlyCursor :
    (o : ObservationRef) (before after : Tables)
    → OnlyCursor before after
    → Stands o before
    → Stands o after
Stands-OnlyCursor (flow id) before after only h = ap (λ rs. flow_canonical id rs) only.flows ∙ h
Stands-OnlyCursor (snapshot id) before after only h =
    ap (λ rs. snapshot_canonical id rs) only.snapshots ∙ h
Stands-OnlyCursor (rpc_call id) before after only h = tt

OnlyCursor-Sound : (before after : Tables) → OnlyCursor before after → Sound before → Sound after
OnlyCursor-Sound before after only h =
    subst (λ cs. All (Backed after) cs) (sym only.citations) (All-imp before.citations step h)
  where
    step : (c : Citation) → Backed before c → Backed after c
    step c (there, stands) = (
      ap (λ rs. is_some (report_canonical c.report_id rs)) only.reports ∙ there,
      λ canonical.
          Stands-OnlyCursor c.observation before after only
            (stands (ap (λ rs. report_canonical c.report_id rs) (sym only.reports) ∙ canonical)),
    )

promote_confirmed-Sound :
    (p : Platform) (options : PromoteOptions) (world : World) (before after : Tables)
    (outcome : PromoteOutcome)
    → promote_confirmed p options world before ≡ ok (after, outcome)
    → Sound before
    → Sound after
promote_confirmed-Sound p options world before after outcome e h =
    by_case (promote_confirmed-Advances p options world before after outcome e)
  where
    by_case : Advances p options world before after outcome → Sound after
    by_case (inl (_, _, same, _)) = subst Sound (sym same) h
    by_case (inr (range, ceiling, end, _, _, _, _, ran)) =
        let (middle, promoted, only) = ran.kept in
        OnlyCursor-Sound middle after only (Promoted-Sound before middle promoted h)

invalidate_all-Sound :
    (p : Platform) (now : ℤ) (chain_id : ℕ) (orphaned : List OrphanedBlock) (tables : Tables)
    (totals : InvalidationResult) {after : Tables} {result : InvalidationResult}
    → invalidate_all p now chain_id orphaned tables totals ≡ ok (after, result)
    → Sound tables
    → Sound after
unfolding invalidate_all
invalidate_all-Sound p now chain_id [] tables totals e h = subst Sound (ap (λ t. t.0) (ok_inj e)) h
invalidate_all-Sound p now chain_id (o ∷ orphaned) tables totals e h =
    let (step, s, e1) = >>=-eq-ok (invalidate_orphaned_block p now chain_id o tables) _ e in
    invalidate_all-Sound p now chain_id orphaned step.0 _ e1
      (invalidate_orphaned_block-Sound p now chain_id o tables s h)

repair-Sound :
    (p : Platform) (options : ReconcileOptions) (checked : ℕ) (orphaned : List OrphanedBlock)
    (tables : Tables) {after : Tables} {outcome : ReconcileOutcome}
    → repair p options checked orphaned tables ≡ ok (after, outcome)
    → Sound tables
    → Sound after
unfolding repair
repair-Sound p options checked [] tables e h = subst Sound (ap (λ t. t.0) (ok_inj e)) h
repair-Sound p options checked (o ∷ orphaned) tables {after = after} e h =
    let (cleared, _, s, only, _, _) = repair-parts p options checked o orphaned tables e in
    OnlyCursor-Sound cleared after only (
      invalidate_all-Sound p options.now options.chain_id (o ∷ orphaned) tables nothing_invalidated
        s h)

reconcile_deep_reorg-Sound :
    (p : Platform) (options : ReconcileOptions) (before after : Tables) (outcome : ReconcileOutcome)
    → reconcile_deep_reorg p options before ≡ ok (after, outcome)
    → Sound before
    → Sound after
unfolding reconcile_deep_reorg
reconcile_deep_reorg-Sound p options before after outcome e h =
    let promoted = list_promoted_block_hashes options.chain_id options.from_block before in
    let (orphaned, _, e1) = >>=-eq-ok (find_orphans options.canonical_hash_at promoted) _ e in
    repair-Sound p options (length promoted) orphaned before e1 h

abbrev pub empty_tables : Tables
empty_tables = record {
  flows = [];
  snapshots = [];
  reports = [];
  citations = [];
  invalidations = [];
  cursors = [];
}

module _ (p : Platform) where
  -- One operation that succeeded, whatever the chain, the sink and the clock were.
  pub data Step : Tables → Tables → Type 0 where
    promote :
        {before after : Tables} (options : PromoteOptions) (world : World)
        (outcome : PromoteOutcome)
        → promote_confirmed p options world before ≡ ok (after, outcome)
        → Step before after
    reconcile :
        {before after : Tables} (options : ReconcileOptions) (outcome : ReconcileOutcome)
        → reconcile_deep_reorg p options before ≡ ok (after, outcome)
        → Step before after
    report :
        {before after : Tables} (input : InsertReportInput) (stored : StoredReport) (created : Bool)
        → insert_report p input before ≡ ok (after, stored, created)
        → Step before after

  pub data Reachable : Tables → Type 0 where
    start : Reachable empty_tables
    later : {before after : Tables} → Reachable before → Step before after → Reachable after

-- In every state that promotion, reconciliation and the writing of reports reach from empty tables, each
-- citation belongs to a stored report, and what a canonical report cites is there and canonical.
pub Reachable-Sound : (p : Platform) {tables : Tables} → Reachable p tables → Sound tables
Reachable-Sound p start = tt
Reachable-Sound p (later {before} {after} r (promote options world outcome e)) =
    promote_confirmed-Sound p options world before after outcome e (Reachable-Sound p r)
Reachable-Sound p (later {before} {after} r (reconcile options outcome e)) =
    reconcile_deep_reorg-Sound p options before after outcome e (Reachable-Sound p r)
Reachable-Sound p (later {before} {after} r (report input stored created e)) =
    insert_report-Sound p input before e (Reachable-Sound p r)

-- ===== src/Observations/Sound/Orphans.antt =====
-- `invalidateOrphanedBlock` of packages/db/src/repositories/observations.ts withdraws every report that
-- rests on what it withdraws.
use tr4ce_app.Prelude.{
  ℕ, ◌≡◌, ◌⊎◌, inl, inr, refl, ap, ◌∙◌, subst, Bool, true, false, ◌&&◌, ◌||◌, some, List, [], ◌∷◌,
  ok, any, All, Bool-cases,
}
use tr4ce_app.Prelude.Int.{ℤ}
use tr4ce_app.Platform.{Platform}
use tr4ce_app.Bytes.{Text, Bytes, bytes_equal}
use tr4ce_app.Bytes.Equality.{bytes_equal_self}
use tr4ce_app.Observations.Tables.{
  ReportRow, ObservationRef, flow, snapshot, rpc_call, Citation, ReorgInvalidation, Tables,
  contains, report_canonical,
}
use tr4ce_app.Observations.Orphans.{
  OrphanedBlock, InvalidationResult, cites, is_dependent, orphaned_flows, orphaned_snapshots,
  dependents, invalidate_orphaned_block,
}
use tr4ce_app.Observations.Orphans.Lookups.{
  flow_canonical-kept, snapshot_canonical-kept, report_canonical-withdrawn,
  report_canonical-selected, report_canonical-still_there,
}
use tr4ce_app.Observations.Orphans.Withdrawn.{tables_after, invalidate_orphaned_block-ok}
use tr4ce_app.Observations.Sound.{Stands, Backed, Sound}

-- Going through a list, with what each element makes true of the whole of it.
All-within :
    {P Q : Citation → Type 0} (whole cs : List Citation)
    → ((q : Citation → Bool) → any q cs ≡ true → any q whole ≡ true)
    → ((c : Citation) → ((q : Citation → Bool) → q c ≡ true → any q whole ≡ true) → P c → Q c)
    → All P cs
    → All Q cs
All-within whole [] inside h t = tt
All-within whole (c ∷ cs) inside h (x, xs) = (
  h c (λ q e. inside q (ap (λ b. b || any q cs) e)) x,
  All-within whole cs (λ q e. inside q (or_last (q c) e)) h xs,
)
  where
    or_last : (b : Bool) {d : Bool} → d ≡ true → (b || d) ≡ true
    or_last true e = refl
    or_last false e = e

module _ (now : ℤ) (chain_id block_number : ℕ) (hash : Bytes) (rows : List ReorgInvalidation)
    (tables : Tables) where
  abbrev flow_ids : List Text
  flow_ids = orphaned_flows chain_id block_number hash tables

  abbrev snapshot_ids : List Text
  snapshot_ids = orphaned_snapshots chain_id block_number hash tables

  abbrev after : Tables
  after = tables_after now chain_id block_number hash rows tables

  Stands-uncited :
      (o : ObservationRef)
      → cites flow_ids snapshot_ids o ≡ false
      → Stands o tables
      → Stands o after
  Stands-uncited (flow id) u h = flow_canonical-kept id flow_ids tables.flows u ∙ h
  Stands-uncited (snapshot id) u h = snapshot_canonical-kept id snapshot_ids tables.snapshots u ∙ h
  Stands-uncited (rpc_call id) u h = tt

  -- A canonical report with an orphaned citation is among the dependents.
  cited-dependent :
      (c : Citation)
      → ((q : Citation → Bool) → q c ≡ true → any q tables.citations ≡ true)
      → cites flow_ids snapshot_ids c.observation ≡ true
      → report_canonical c.report_id tables.reports ≡ some true
      → contains c.report_id (dependents flow_ids snapshot_ids tables) ≡ true
  cited-dependent c inside u h =
      report_canonical-selected (λ r. is_dependent flow_ids snapshot_ids tables.citations r)
        c.report_id tables.reports depends h
    where
      depends :
          (r : ReportRow)
          → r.id ≡ c.report_id
          → r.canonical ≡ true
          → is_dependent flow_ids snapshot_ids tables.citations r ≡ true
      depends r same canonical = both canonical (
          inside (λ d. bytes_equal d.report_id r.id && cites flow_ids snapshot_ids d.observation)
            (both (ap (λ i. bytes_equal c.report_id i) same ∙ bytes_equal_self c.report_id) u))
        where
          both : {a b : Bool} → a ≡ true → b ≡ true → (a && b) ≡ true
          both e f = cc

  Backed-after :
      (c : Citation)
      → ((q : Citation → Bool) → q c ≡ true → any q tables.citations ≡ true)
      → Backed tables c
      → Backed after c
  Backed-after c inside (there, stands) = (
    report_canonical-still_there now c.report_id (dependents flow_ids snapshot_ids tables)
        tables.reports there,
    λ canonical.
        let (kept, was) =
          report_canonical-withdrawn now c.report_id (dependents flow_ids snapshot_ids tables)
            tables.reports canonical in
        by_cases kept was (Bool-cases (cites flow_ids snapshot_ids c.observation)),
  )
    where
      by_cases :
          contains c.report_id (dependents flow_ids snapshot_ids tables) ≡ false
          → report_canonical c.report_id tables.reports ≡ some true
          → (cites flow_ids snapshot_ids c.observation ≡ true)
            ⊎ (cites flow_ids snapshot_ids c.observation ≡ false)
          → Stands c.observation after
      by_cases kept was (inl u) = cc (kept, cited-dependent c inside u was)
      by_cases kept was (inr u) = Stands-uncited c.observation u (stands was)

-- A deep reorganisation leaves no canonical report on a withdrawn observation.
pub invalidate_orphaned_block-Sound :
    (p : Platform) (now : ℤ) (chain_id : ℕ) (orphan : OrphanedBlock) (tables : Tables)
    {after : Tables} {result : InvalidationResult}
    → invalidate_orphaned_block p now chain_id orphan tables ≡ ok (after, result)
    → Sound tables
    → Sound after
invalidate_orphaned_block-Sound p now chain_id orphan tables e h =
    let (hash, rows, _, left) = invalidate_orphaned_block-ok p now chain_id orphan tables e in
    subst Sound left (
      All-within tables.citations tables.citations (λ q e. e)
        (Backed-after now chain_id orphan.block_number hash rows tables) h)

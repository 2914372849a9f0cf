-- ===== src/Observations/Sound.antt =====
-- What holds of the tables of packages/db at all times: a canonical report rests on canonical
-- observations only.
pub mod Orphans
pub mod Reports
use tr4ce_app.Prelude.{
  ℕ, ◌+◌, ◌≡◌, ◌⊎◌, inl, inr, refl, sym, ap, ◌∙◌, subst, Bool, true, false, ◌&&◌, ◌||◌, not, Option,
  none, some, List, [], ◌∷◌, ◌++◌, ok, map, any, keep, arith, is_some, All, Bool-cases, throw_if-ok,
  ok_inj, >>=-eq-ok, if-cases,
}
use tr4ce_app.Prelude.Int.{ℤ}
use tr4ce_app.Platform.{Platform}
use tr4ce_app.Bytes.{Text, Bytes, bytes_equal}
use tr4ce_app.Bytes.Equality.{bytes_equal_iff, bytes_equal_self}
use tr4ce_app.Observations.Tables.{
  VaultFlow, VaultSnapshot, ReportRow, ObservationRef, flow, snapshot, rpc_call, Citation, Tables,
  contains, flow_canonical, snapshot_canonical, report_canonical,
}
use tr4ce_app.Observations.Upsert.{Kept}
use tr4ce_app.Observations.Promote.Flags.{Promoted}
use tr4ce_app.Observations.Orphans.{
  report_id, cites, is_dependent, withdraw_report, orphaned_flows, orphaned_snapshots, dependents,
}
use tr4ce_app.Observations.Orphans.Lookups.{
  flow_canonical-kept, snapshot_canonical-kept, report_canonical-withdrawn,
  report_canonical-selected,
}
use tr4ce_app.Observations.Orphans.Withdrawn.{tables_after}

-- The observation is there and is canonical; the answer to a call is never withdrawn.
abbrev pub Stands : ObservationRef → Tables → Type 0
Stands (flow id) tables = flow_canonical id tables.flows ≡ some true
Stands (snapshot id) tables = snapshot_canonical id tables.snapshots ≡ some true
Stands (rpc_call id) tables = Unit

-- The report of the citation is there, and while it is canonical so is what it cites.
abbrev pub Backed : Tables → Citation → Type 0
Backed tables c =
    (is_some (report_canonical c.report_id tables.reports) ≡ true)
    × (report_canonical c.report_id tables.reports ≡ some true → Stands c.observation tables)

abbrev pub Sound : Tables → Type 0
Sound tables = All (Backed tables) tables.citations

pub All-imp :
    {P Q : Citation → Type 0} (cs : List Citation)
    → ((c : Citation) → P c → Q c)
    → All P cs
    → All Q cs
All-imp [] h t = tt
All-imp (c ∷ cs) h (x, xs) = (h c x, All-imp cs h xs)

Kept-true :
    (before after : Option Bool) → Kept before after → before ≡ some true → after ≡ some true
Kept-true before after (inl e) h = e ∙ h
Kept-true before after (inr (e, f)) h = f

Stands-Promoted :
    (o : ObservationRef) (before after : Tables)
    → Promoted before after
    → Stands o before
    → Stands o after
Stands-Promoted (flow id) before after k h = Kept-true _ _ (k.flows id) h
Stands-Promoted (snapshot id) before after k h = Kept-true _ _ (k.snapshots id) h
Stands-Promoted (rpc_call id) before after k h = tt

-- Promotion leaves what is cited as it is.
pub Promoted-Sound : (before after : Tables) → Promoted before after → Sound before → Sound after
Promoted-Sound before after k h =
    subst (λ cs. All (Backed after) cs) (sym k.citations) (All-imp before.citations step h)
  where
    step : (c : Citation) → Backed before c → Backed after c
    step c (there, stands) = (
      subst (λ rs. is_some (report_canonical c.report_id rs) ≡ true) (sym k.reports) there,
      λ canonical.
          Stands-Promoted c.observation before after k
            (stands (ap (λ rs. report_canonical c.report_id rs) (sym k.reports) ∙ canonical)),
    )

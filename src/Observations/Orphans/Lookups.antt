-- ===== src/Observations/Orphans/Lookups.antt =====
-- The rows that packages/db/src/repositories/observations.ts selects by id and withdraws.
use tr4ce_app.Prelude.{
  ◌≡◌, refl, Bool, true, false, ◌||◌, not, some, List, [], ◌∷◌, map, all, keep, arith, is_some,
}
use tr4ce_app.Prelude.Int.{ℤ}
use tr4ce_app.Bytes.{Text}
use tr4ce_app.Bytes.Equality.{bytes_equal_iff, bytes_equal_self}
use tr4ce_app.Observations.Tables.{
  VaultFlow, VaultSnapshot, ReportRow, contains, flow_canonical, snapshot_canonical,
  report_canonical,
}
use tr4ce_app.Observations.Orphans.{withdraw_flow, withdraw_snapshot, withdraw_report, report_id}

module _ {Row : Type 0} (key : Row → Text) (p : Row → Bool) where
  -- A row that the test holds of has its id among the ids.
  abbrev pub Selected : List Text → List Row → Type 0
  Selected ids rows = all (λ r. not (p r) || contains (key r) ids) rows ≡ true

  Selected-cons :
      (id : Text) (ids : List Text) (rows : List Row) → Selected ids rows → Selected (id ∷ ids) rows
  Selected-cons id ids [] h = refl
  Selected-cons id ids (r ∷ rows) h = ground (arith, h, Selected-cons id ids rows)

  pub map-keep-Selected : (rows : List Row) → Selected (map key (keep p rows)) rows
  map-keep-Selected [] = refl
  map-keep-Selected (r ∷ rows) = grind (
    arith,
    map-keep-Selected rows,
    Selected-cons (key r) (map key (keep p rows)) rows,
    bytes_equal_self (key r),
  )

pub flow_canonical-kept :
    (id : Text) (ids : List Text) (rows : List VaultFlow)
    → contains id ids ≡ false
    → flow_canonical id (map (withdraw_flow ids) rows) ≡ flow_canonical id rows
unfolding flow_canonical
flow_canonical-kept id ids [] h = refl
flow_canonical-kept id ids (r ∷ rows) h =
    grind (arith, h, flow_canonical-kept id ids rows h, bytes_equal_iff r.id id)

pub snapshot_canonical-kept :
    (id : Text) (ids : List Text) (rows : List VaultSnapshot)
    → contains id ids ≡ false
    → snapshot_canonical id (map (withdraw_snapshot ids) rows) ≡ snapshot_canonical id rows
unfolding snapshot_canonical
snapshot_canonical-kept id ids [] h = refl
snapshot_canonical-kept id ids (r ∷ rows) h =
    grind (arith, h, snapshot_canonical-kept id ids rows h, bytes_equal_iff r.id id)

-- A report that is still canonical was canonical, and is not among those withdrawn.
pub report_canonical-withdrawn :
    (now : ℤ) (id : Text) (ids : List Text) (rows : List ReportRow)
    → report_canonical id (map (withdraw_report now ids) rows) ≡ some true
    → (contains id ids ≡ false) × (report_canonical id rows ≡ some true)
unfolding report_canonical
report_canonical-withdrawn now id ids [] e = cc
report_canonical-withdrawn now id ids (r ∷ rows) e =
    grind (arith, e, report_canonical-withdrawn now id ids rows, bytes_equal_iff r.id id)

-- A canonical report that the test holds of is among the selected.
pub report_canonical-selected :
    (p : ReportRow → Bool) (id : Text) (rows : List ReportRow)
    → ((r : ReportRow) → r.id ≡ id → r.canonical ≡ true → p r ≡ true)
    → report_canonical id rows ≡ some true
    → contains id (map report_id (keep p rows)) ≡ true
unfolding report_canonical
report_canonical-selected p id [] h e = cc
report_canonical-selected p id (r ∷ rows) h e =
    grind (arith, e, h r, report_canonical-selected p id rows h, bytes_equal_iff r.id id)

pub report_canonical-still_there :
    (now : ℤ) (id : Text) (ids : List Text) (rows : List ReportRow)
    → is_some (report_canonical id rows) ≡ true
    → is_some (report_canonical id (map (withdraw_report now ids) rows)) ≡ true
unfolding report_canonical
report_canonical-still_there now id ids [] h = h
report_canonical-still_there now id ids (r ∷ rows) h =
    ground (arith, h, report_canonical-still_there now id ids rows)

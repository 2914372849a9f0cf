-- ===== src/Observations/Sound/Reports.antt =====
-- `insertReport` of packages/db/src/repositories/reports.ts: a report is written only on canonical
-- observations, and once.
use tr4ce_app.Prelude.{
  ℕ, ◌+◌, ◌≡◌, ◌⊎◌, inl, inr, refl, sym, ap, ◌∙◌, subst, Bool, true, false, ◌&&◌, not, Option, none,
  some, List, [], ◌∷◌, ◌++◌, ok, any, arith, All, is_some, throw_if-ok, ok_inj, >>=-eq-ok, if-cases,
}
use tr4ce_app.Platform.{Platform}
use tr4ce_app.Bytes.{Text, bytes_equal}
use tr4ce_app.Bytes.Equality.{bytes_equal_self}
use tr4ce_app.Observations.Tables.{
  ReportRow, ObservationRef, flow, snapshot, rpc_call, Citation, Tables, flow_canonical,
  snapshot_canonical, report_canonical, Failure, vanished, different_schema_version,
}
use tr4ce_app.Observations.Promote.{read_hex, required}
use tr4ce_app.Observations.Reports.{
  ReportCitation, InsertReportInput, StoredReport, is_true, observation_allowed, new_citation,
  insert_citations, conflicts, read_report, insert_new, existing_report, insert_report, new_report,
  is_empty, policy_matches_status,
}
use tr4ce_app.Observations.Sound.{Stands, Backed, Sound, All-imp}

is_true-some : (o : Option Bool) → is_true o ≡ true → o ≡ some true
is_true-some none e = cc
is_true-some (some flag) e = ap (λ b. some b) e

and_second : (a b : Bool) → (a && b) ≡ true → b ≡ true
and_second true b e = e
and_second false b e = cc

observation_allowed-Stands :
    (vault_id : Text) (tables : Tables) (o : ObservationRef)
    → observation_allowed vault_id tables o ≡ true
    → Stands o tables
observation_allowed-Stands vault_id tables (flow id) e =
    is_true-some (flow_canonical id tables.flows) (and_second _ _ e)
observation_allowed-Stands vault_id tables (snapshot id) e =
    is_true-some (snapshot_canonical id tables.snapshots) (and_second _ _ e)
observation_allowed-Stands vault_id tables (rpc_call id) e = tt

not-false : (b : Bool) → not b ≡ false → b ≡ true
not-false true e = refl
not-false false e = cc

insert_citations-Backed :
    (p : Platform) (input : InsertReportInput) (tables : Tables) (citations : List ReportCitation)
    (ordinal : ℕ) (stored : List Citation) {after : List Citation}
    → is_some (report_canonical input.report_id tables.reports) ≡ true
    → insert_citations p input tables citations ordinal stored ≡ ok after
    → All (Backed tables) stored
    → All (Backed tables) after
unfolding insert_citations
insert_citations-Backed p input tables [] ordinal stored there e h =
    subst (All (Backed tables)) (ok_inj e) h
insert_citations-Backed p input tables (c ∷ citations) ordinal stored there e h =
    let (allowed, e1) =
      throw_if-ok (not (observation_allowed input.vault_id tables c.observation)) _ _ e in
    let (_, e2) =
      throw_if-ok (any (λ d. bytes_equal d.id (new_citation p input c ordinal).id) stored) _ _ e1 in
    insert_citations-Backed p input tables citations (ordinal + 1)
      (new_citation p input c ordinal ∷ stored) there e2
      (
        (
          there,
          λ _. observation_allowed-Stands input.vault_id tables c.observation (not-false _ allowed),
        ),
        h,
      )

report_canonical-append :
    (id : Text) (row : ReportRow) (rows : List ReportRow)
    → is_some (report_canonical id rows) ≡ true
    → report_canonical id (rows ++ row ∷ []) ≡ report_canonical id rows
unfolding report_canonical
report_canonical-append id row [] h = cc
report_canonical-append id row (r ∷ rows) h = ground (arith, h, report_canonical-append id row rows)

report_canonical-last :
    (row : ReportRow) (rows : List ReportRow)
    → is_some (report_canonical row.id (rows ++ row ∷ [])) ≡ true
unfolding report_canonical
report_canonical-last row [] = ground (arith, bytes_equal_self row.id)
report_canonical-last row (r ∷ rows) = ground (arith, report_canonical-last row rows)

abbrev with_report : ReportRow → Tables → Tables
with_report row tables = record tables { reports = tables.reports ++ row ∷ [] }

Backed-with_report :
    (row : ReportRow) (tables : Tables) (c : Citation)
    → Backed tables c
    → Backed (with_report row tables) c
Backed-with_report row tables c (there, stands) =
    let same = report_canonical-append c.report_id row tables.reports there in
    (
      ap (λ o. is_some o) same ∙ there,
      λ canonical. move c.observation (stands (sym same ∙ canonical)),
    )
  where
    move : (o : ObservationRef) → Stands o tables → Stands o (with_report row tables)
    move (flow id) h = h
    move (snapshot id) h = h
    move (rpc_call id) h = h

Backed-with_citations :
    (row : ReportRow) (tables : Tables) (citations : List Citation) (c : Citation)
    → Backed (with_report row tables) c
    → Backed (record (with_report row tables) { citations = citations }) c
Backed-with_citations row tables citations c (there, stands) =
    (there, λ canonical. move c.observation (stands canonical))
  where
    move :
        (o : ObservationRef)
        → Stands o (with_report row tables)
        → Stands o (record (with_report row tables) { citations = citations })
    move (flow id) h = h
    move (snapshot id) h = h
    move (rpc_call id) h = h

pub required-some :
    {A : Type 0} (failure : Failure) (o : Option A) {a : A} → required failure o ≡ ok a → o ≡ some a
required-some failure none e = cc
required-some failure (some a) e = ap (λ b. some b) (ok_inj e)

insert_new-Sound :
    (p : Platform) (input : InsertReportInput) (row : ReportRow) (tables : Tables) {after : Tables}
    {stored : StoredReport} {created : Bool}
    → row.id ≡ input.report_id
    → insert_new p input row tables ≡ ok (after, stored, created)
    → Sound tables
    → Sound after
unfolding insert_new
insert_new-Sound p input row tables same e h =
    let (citations, c, e1) =
      >>=-eq-ok
        (insert_citations p input (with_report row tables) input.citations 0 tables.citations) _
        e in
    let (_, _, e2) =
      >>=-eq-ok
        (required vanished
          (read_report input.report_id (record (with_report row tables) { citations = citations })))
        _ e1 in
    let there =
      subst (λ id. is_some (report_canonical id (tables.reports ++ row ∷ [])) ≡ true) same
        (report_canonical-last row tables.reports) in
    subst Sound (ap (λ t. t.0) (ok_inj e2)) (
      All-imp citations (Backed-with_citations row tables citations) (
        insert_citations-Backed p input (with_report row tables) input.citations 0 tables.citations
          there c (All-imp tables.citations (Backed-with_report row tables) h)))

-- The checks of `insertReport`, passed: the report's row, and what was done with it.
pub insert_report-ok :
    (p : Platform) (input : InsertReportInput) (tables : Tables) {after : Tables}
    {stored : StoredReport} {created : Bool}
    → insert_report p input tables ≡ ok (after, stored, created)
    → (row : ReportRow) × (row.id ≡ input.report_id)
      × (((conflicts row tables.reports ≡ true)
            × (existing_report input tables ≡ ok (after, stored, created)))
          ⊎ ((conflicts row tables.reports ≡ false)
              × (insert_new p input row tables ≡ ok (after, stored, created))))
unfolding insert_report
insert_report-ok p input tables e =
    let (_, e1) = throw_if-ok (is_empty input.citations) _ _ e in
    let (as_of_hash, _, e2) = >>=-eq-ok (read_hex input.as_of_block_hash) _ e1 in
    let (input_hash, _, e3) = >>=-eq-ok (read_hex (48 ∷ 120 ∷ input.canonical_input_hash)) _ e2 in
    let (_, e4) =
      throw_if-ok (not (policy_matches_status input.policy_version_id input.status)) _ _ e3 in
    let row = new_report input as_of_hash input_hash in
    (row, refl, if-cases (conflicts row tables.reports) e4)

pub existing_report-ok :
    (input : InsertReportInput) (tables : Tables) {after : Tables} {stored : StoredReport}
    {created : Bool}
    → existing_report input tables ≡ ok (after, stored, created)
    → (tables ≡ after) × (read_report input.report_id tables ≡ some stored) × (created ≡ false)
unfolding existing_report
existing_report-ok input tables e =
    let (found, f, e1) =
      >>=-eq-ok (required different_schema_version (read_report input.report_id tables)) _ e in
    let done = ok_inj e1 in
    (
      ap (λ t. t.0) done,
      required-some different_schema_version _ f ∙ ap (λ t. some t.1) done,
      sym (ap (λ t. t.2) done),
    )

-- A report is written only on observations that stand: soundness is kept.
pub insert_report-Sound :
    (p : Platform) (input : InsertReportInput) (tables : Tables) {after : Tables}
    {stored : StoredReport} {created : Bool}
    → insert_report p input tables ≡ ok (after, stored, created)
    → Sound tables
    → Sound after
insert_report-Sound p input tables {after} {stored} {created} e h =
    let (row, same, cases) = insert_report-ok p input tables e in
    elim cases [
      | inl (_, found) ↦ subst Sound (existing_report-ok input tables found).0 h
      | inr (_, wrote) ↦ insert_new-Sound p input row tables same wrote h
    ]

-- ===== src/Observations/Reports/Once.antt =====
-- `insertReport` of packages/db/src/repositories/reports.ts, called again.
use tr4ce_app.Prelude.{
  ◌≡◌, ◌⊎◌, inl, inr, refl, sym, ap, ◌∙◌, subst, Bool, true, false, not, some, List, [], ◌∷◌, ◌++◌,
  ok, find, is_some, arith, throw_if-ok, ok_inj, if◌then◌else◌, >>=-eq-ok, if-cases,
}
use tr4ce_app.Platform.{Platform}
use tr4ce_app.Bytes.{Text, Bytes, bytes_equal}
use tr4ce_app.Observations.Tables.{ReportRow, Tables, vanished, report_canonical}
use tr4ce_app.Observations.Promote.{read_hex, required}
use tr4ce_app.Observations.Reports.{
  InsertReportInput, StoredReport, is_empty, policy_matches_status, stored_or_null, new_report,
  conflicts, insert_citations, read_report, existing_report, insert_new, insert_report,
}
use tr4ce_app.Observations.Sound.Reports.{required-some, existing_report-ok}

stored-IsThere :
    (id : Text) (rows : List ReportRow) {s : StoredReport}
    → stored_or_null (find (λ r. bytes_equal r.id id) rows) ≡ some s
    → is_some (report_canonical id rows) ≡ true
unfolding report_canonical
stored-IsThere id [] e = cc
stored-IsThere id (r ∷ rows) {s = s} e = ground (arith, e, stored-IsThere id rows {s = s})

with_checks :
    (p : Platform) (input : InsertReportInput) (as_of_hash input_hash : Bytes) (t : Tables)
    → is_empty input.citations ≡ false
    → read_hex input.as_of_block_hash ≡ ok as_of_hash
    → read_hex (48 ∷ 120 ∷ input.canonical_input_hash) ≡ ok input_hash
    → not (policy_matches_status input.policy_version_id input.status) ≡ false
    → insert_report p input t ≡ (
        if conflicts (new_report input as_of_hash input_hash) t.reports
        then existing_report input t
        else insert_new p input (new_report input as_of_hash input_hash) t)
unfolding insert_report
with_checks p input as_of_hash input_hash t c1 c2 c3 c4 = rw (c1, c2, c3, c4)

-- The checks come before the tables are read: where they pass, they pass whatever the tables.
passed :
    (p : Platform) (input : InsertReportInput) (tables : Tables) {after : Tables}
    {stored : StoredReport} {created : Bool}
    → insert_report p input tables ≡ ok (after, stored, created)
    → (row : ReportRow) × (row.id ≡ input.report_id)
      × ((t : Tables)
          → insert_report p input t ≡ (
              if conflicts row t.reports
              then existing_report input t
              else insert_new p input row t))
unfolding insert_report
passed p input tables e =
    let (c1, e1) = throw_if-ok (is_empty input.citations) _ _ e in
    let (as_of_hash, c2, e2) = >>=-eq-ok (read_hex input.as_of_block_hash) _ e1 in
    let (input_hash, c3, e3) = >>=-eq-ok (read_hex (48 ∷ 120 ∷ input.canonical_input_hash)) _ e2 in
    let (c4, _) =
      throw_if-ok (not (policy_matches_status input.policy_version_id input.status)) _ _ e3 in
    (
      new_report input as_of_hash input_hash,
      refl,
      λ t. with_checks p input as_of_hash input_hash t c1 c2 c3 c4,
    )

read_report-conflicts :
    (row : ReportRow) (tables : Tables) {stored : StoredReport}
    → read_report row.id tables ≡ some stored
    → conflicts row tables.reports ≡ true
unfolding read_report
read_report-conflicts row tables e = rw (stored-IsThere row.id tables.reports e)

-- What a call that succeeded leaves: the report is there, as the call returned it.
insert_new-Stored :
    (p : Platform) (input : InsertReportInput) (row : ReportRow) (tables : Tables) {after : Tables}
    {stored : StoredReport} {created : Bool}
    → insert_new p input row tables ≡ ok (after, stored, created)
    → read_report input.report_id after ≡ some stored
unfolding insert_new
insert_new-Stored p input row tables e =
    let with_report = record tables { reports = tables.reports ++ row ∷ [] } in
    let (citations, _, e1) =
      >>=-eq-ok (insert_citations p input with_report input.citations 0 tables.citations) _ e in
    let (read, f, e2) =
      >>=-eq-ok
        (required vanished
          (read_report input.report_id (record with_report { citations = citations })))
        _ e1 in
    let done = ok_inj e2 in
    ap (λ t. read_report input.report_id t.0) (sym done)
    ∙ (required-some vanished _ f ∙ ap (λ t. some t.1) done)

-- Writing the same report again writes nothing: the second call succeeds, leaves the tables as the first
-- left them, returns the report that the first returned, and says that it created none.
pub insert_report_again :
    (p : Platform) (input : InsertReportInput) (tables after : Tables) (stored : StoredReport)
    (created : Bool)
    → insert_report p input tables ≡ ok (after, stored, created)
    → insert_report p input after ≡ ok (after, stored, false)
unfolding existing_report
insert_report_again p input tables after stored created e =
    let (row, same, run) = passed p input tables e in
    let found = there row (if-cases (conflicts row tables.reports) (sym (run tables) ∙ e)) in
    let taken = read_report-conflicts row after (ap (λ id. read_report id after) same ∙ found) in
    run after ∙ rw (taken, found)
  where
    there :
        (row : ReportRow)
        → ((conflicts row tables.reports ≡ true)
            × (existing_report input tables ≡ ok (after, stored, created)))
          ⊎ ((conflicts row tables.reports ≡ false)
              × (insert_new p input row tables ≡ ok (after, stored, created)))
        → read_report input.report_id after ≡ some stored
    there row (inl (_, f)) =
        let (left, found, _) = existing_report-ok input tables f in
        subst (λ t. read_report input.report_id t ≡ some stored) left found
    there row (inr (_, f)) = insert_new-Stored p input row tables f

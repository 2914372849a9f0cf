-- ===== src/Observations/Reports.antt =====
-- packages/db/src/repositories/reports.ts: reports are written once, with their citations, and read as
-- they were written. The trigger `report_observation_requires_canonical` of
-- packages/db/migrations/0002_reports_and_policies.sql refuses a citation of a withdrawn observation.
pub mod Once
use tr4ce_app.Prelude.{
  ℕ, ◌+◌, ◌==◌, Bool, true, false, ◌&&◌, ◌||◌, not, Option, none, some, List, [], ◌∷◌, ◌++◌, Result,
  ok, err, ◌>>=◌, ◌>>◌, throw_if, any, find, keep, is_some, if◌then◌else◌,
}
use tr4ce_app.Prelude.Int.{ℤ}
use tr4ce_app.Platform.{Platform}
use tr4ce_app.Bytes.{Text, Bytes, bytes_equal}
use tr4ce_app.Identifiers.{report_observation_id}
use tr4ce_app.Observations.Tables.{
  VaultFlow, VaultSnapshot, ReportStatus, pass, fail, unknown, not_evaluated, ReportRow,
  ObservationRef, flow, snapshot, rpc_call, Citation, Tables, Failure, constraint_violation,
  no_citations, different_schema_version, vanished, flow_canonical, snapshot_canonical,
  report_canonical,
}
use tr4ce_app.Observations.Promote.{read_hex, required}

pub record ReportCitation : Type 0 where
  pub observation : ObservationRef
  pub purpose : Text

pub record InsertReportInput : Type 0 where
  pub report_id : Text
  pub canonical_input_hash : Text
  pub vault_id : Text
  pub chain_id : ℕ
  pub policy_version_id : Option Text
  pub as_of_block_number : ℕ
  pub as_of_block_hash : Text
  pub as_of_time : ℤ
  pub window_seconds : ℕ
  pub actual_elapsed_seconds : Option ℕ
  pub calculation_version : Text
  pub schema_version : Text
  pub status : ReportStatus
  pub result_json : Text
  pub citations : List ReportCitation

pub record StoredReport : Type 0 where
  pub report_id : Text
  pub result_json : Text
  pub status : ReportStatus
  pub canonical : Bool

abbrev stored_of : ReportRow → StoredReport
stored_of row = record {
  report_id = row.id;
  result_json = row.result_json;
  status = row.status;
  canonical = row.canonical;
}

abbrev pub stored_or_null : Option ReportRow → Option StoredReport
stored_or_null none = none
stored_or_null (some row) = some (stored_of row)

unfoldable pub read_report : Text → Tables → Option StoredReport
read_report id tables = stored_or_null (find (λ r. bytes_equal r.id id) tables.reports)

-- `evidence_report_input_key`
abbrev pub same_input : ReportRow → ReportRow → Bool
same_input a b =
    bytes_equal a.canonical_input_hash b.canonical_input_hash
    && bytes_equal a.calculation_version b.calculation_version
    && bytes_equal a.schema_version b.schema_version

-- `evidence_report_policy_status_check`
abbrev pub policy_matches_status : Option Text → ReportStatus → Bool
policy_matches_status none not_evaluated = true
policy_matches_status none pass = false
policy_matches_status none fail = false
policy_matches_status none unknown = false
policy_matches_status (some id) not_evaluated = false
policy_matches_status (some id) pass = true
policy_matches_status (some id) fail = true
policy_matches_status (some id) unknown = true

abbrev pub new_report : InsertReportInput → Bytes → Bytes → ReportRow
new_report input as_of_hash input_hash = record {
  id = input.report_id;
  vault_id = input.vault_id;
  chain_id = input.chain_id;
  policy_version_id = input.policy_version_id;
  as_of_block_number = input.as_of_block_number;
  as_of_block_hash = as_of_hash;
  as_of_time = input.as_of_time;
  window_seconds = input.window_seconds;
  actual_elapsed_seconds = input.actual_elapsed_seconds;
  calculation_version = input.calculation_version;
  schema_version = input.schema_version;
  status = input.status;
  result_json = input.result_json;
  canonical_input_hash = input_hash;
  canonical = true;
  invalidated_at = none;
  invalidation_reason = none;
}

abbrev pub is_true : Option Bool → Bool
is_true none = false
is_true (some flag) = flag

-- The row is there, of the same vault, and canonical. A call's answer has no canonicality of its own, and
-- the foreign key to `rpc_observation`, a table that no service writes, is left out.
abbrev pub observation_allowed : Text → Tables → ObservationRef → Bool
observation_allowed vault_id tables (flow id) =
    any (λ r. bytes_equal r.id id && bytes_equal r.vault_id vault_id) tables.flows
    && is_true (flow_canonical id tables.flows)
observation_allowed vault_id tables (snapshot id) =
    any (λ r. bytes_equal r.id id && bytes_equal r.vault_id vault_id) tables.snapshots
    && is_true (snapshot_canonical id tables.snapshots)
observation_allowed vault_id tables (rpc_call id) = true

abbrev observation_id : ObservationRef → Text
observation_id (flow id) = id
observation_id (snapshot id) = id
observation_id (rpc_call id) = id

abbrev pub new_citation : Platform → InsertReportInput → ReportCitation → ℕ → Citation
new_citation p input citation ordinal = record {
  id = report_observation_id p input.report_id (observation_id citation.observation);
  report_id = input.report_id;
  vault_id = input.vault_id;
  observation = citation.observation;
  purpose = citation.purpose;
  ordinal = ordinal;
}

-- The citations from an ordinal on. A second citation of one observation by one report is refused: it
-- has the id of the first.
unfoldable pub insert_citations :
    Platform
    → InsertReportInput
    → Tables
    → List ReportCitation
    → ℕ
    → List Citation
    → Result Failure (List Citation)
insert_citations p input tables [] ordinal stored = ok stored
insert_citations p input tables (citation ∷ citations) ordinal stored = do
  let row = new_citation p input citation ordinal
  throw_if (not (observation_allowed input.vault_id tables citation.observation))
      constraint_violation
  throw_if (any (λ c. bytes_equal c.id row.id) stored) constraint_violation
  insert_citations p input tables citations (ordinal + 1) (row ∷ stored)

abbrev pub is_empty : List ReportCitation → Bool
is_empty [] = true
is_empty (c ∷ citations) = false

-- Either unique key is a conflict.
abbrev pub conflicts : ReportRow → List ReportRow → Bool
conflicts row rows = is_some (report_canonical row.id rows) || any (λ r. same_input r row) rows

unfoldable pub insert_new :
    Platform
    → InsertReportInput
    → ReportRow
    → Tables
    → Result Failure (Tables × StoredReport × Bool)
insert_new p input row tables = do
  let with_report = record tables { reports = tables.reports ++ row ∷ [] }
  citations ← insert_citations p input with_report input.citations 0 tables.citations
  let written = record with_report { citations = citations }
  stored ← required vanished (read_report input.report_id written)
  ok (written, stored, true)

unfoldable pub existing_report :
    InsertReportInput → Tables → Result Failure (Tables × StoredReport × Bool)
existing_report input tables = do
  stored ← required different_schema_version (read_report input.report_id tables)
  ok (tables, stored, false)

unfoldable pub insert_report :
    Platform → InsertReportInput → Tables → Result Failure (Tables × StoredReport × Bool)
insert_report p input tables = do
  throw_if (is_empty input.citations) no_citations
  as_of_hash ← read_hex input.as_of_block_hash
  input_hash ← read_hex (48 ∷ 120 ∷ input.canonical_input_hash)
  throw_if (not (policy_matches_status input.policy_version_id input.status)) constraint_violation
  let row = new_report input as_of_hash input_hash
  if conflicts row tables.reports
      then existing_report input tables
      else insert_new p input row tables

first_id : List ReportRow → Option Text
first_id [] = none
first_id (row ∷ rows) = some row.id

-- The reports stand in the order in which they were created.
unfoldable pub find_report_at_block : Text → ℕ → Tables → Option Text
unfolding first_id
find_report_at_block vault_id block_number tables = first_id (
    keep
      (λ r. bytes_equal r.vault_id vault_id && r.as_of_block_number == block_number && r.canonical)
      tables.reports)

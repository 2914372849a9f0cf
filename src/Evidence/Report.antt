-- ===== src/Evidence/Report.antt =====
-- packages/evidence/src/report.ts: assembling a draft from observations, and closing it with a
-- policy evaluation. The reason codes that the source pushes to a shared array are passed through.
pub mod Explained
pub mod Observed
use tr4ce_app.Prelude.{
  ℕ, ◌+◌, ◌*◌, Bool, true, false, ◌&&◌, ◌||◌, not, Option, none, some, List, [], ◌∷◌, ◌++◌, String,
  Result, ok, err, ◌>>=◌, ◌>>◌, throw_if, if◌then◌else◌, leb, ltb, is_some, any, all,
}
use tr4ce_app.Prelude.Int.{ℤ, pos, negsuc, nat_abs, ◌+ℤ◌, ◌-ℤ◌, eqb_ℤ}
use tr4ce_app.Prelude.Text.{str_eq, ◌<>◌}
use tr4ce_app.Platform.{Platform}
use tr4ce_app.Domain.{
  ReasonCode, missing_observation, incompatible_implementation, incompatible_asset, call_reverted,
  ambiguous_capability, max_withdraw, same_code,
}
use tr4ce_app.Domain.Canonical.{derive_report_identity}
use tr4ce_app.Evidence.Failure.{Failure, cross_vault, type_error, schema_rejected}
use tr4ce_app.Evidence.Rational.{BasisPoints, floor_quotient}
use tr4ce_app.Evidence.Capability.{is_usable}
use tr4ce_app.Evidence.Flows.{FlowAggregate, aggregate_flows}
use tr4ce_app.Evidence.ShareValue.{
  ShareValueResult, observed, unavailable, failure_code, observe_share_value,
}
use tr4ce_app.Evidence.Input.{
  SnapshotObservation, AccountLimitObservation, EvidenceInput, ShareValue, DraftObservations,
  indexed, rpc, ProvenanceEntry, EvidenceReportDraft,
}
use tr4ce_app.Evidence.Identity.{identity_json}

abbrev pub includes : List ReasonCode → ReasonCode → Bool
includes codes code = any (λ c. same_code c code) codes

abbrev code_if : Bool → ReasonCode → List ReasonCode
code_if true code = code ∷ []
code_if false code = []

-- Whether the start and the end describe the same thing.
check_compatibility_of :
    Option SnapshotObservation → SnapshotObservation → Result Failure (List ReasonCode)
check_compatibility_of none end = ok []
check_compatibility_of (some start) end = do
  throw_if (not (str_eq start.vault_id end.vault_id)) cross_vault
  ok (
      code_if (not (eqb_ℤ start.one_share_units end.one_share_units)) incompatible_implementation
      ++ code_if (not (str_eq start.schema_version end.schema_version)) incompatible_implementation)

unfoldable pub check_compatibility : EvidenceInput → Result Failure (List ReasonCode)
unfolding check_compatibility_of
check_compatibility input = check_compatibility_of input.start input.end

-- `input.start?.oneShareAssets ?? null`
abbrev pub start_amount : Option SnapshotObservation → Option ℤ
start_amount none = none
start_amount (some start) = start.one_share_assets

-- The two `!` of the source: a null there would be a `TypeError`.
share_value_of :
    EvidenceInput → Option ℤ → Option ℤ → BasisPoints → Result Failure (Option ShareValue)
share_value_of input (some start) (some end) points = ok (
    some (record {
      one_share_base_units = input.end.one_share_units;
      assets_now = end;
      assets_at_start = start;
      window_days = input.window_days;
      return_bps = points.value;
      numerator = points.numerator;
      denominator = points.denominator;
      rounding = points.rounding;
    }))
share_value_of input none end points = err type_error
share_value_of input (some start) none points = err type_error

share_value_result :
    EvidenceInput
    → List ReasonCode
    → ShareValueResult
    → Result Failure (Option ShareValue × List ReasonCode)
unfolding share_value_of
share_value_result input codes (unavailable failure) = ok (none, codes ++ failure_code failure ∷ [])
share_value_result input codes (observed points) = do
  value ← share_value_of input (start_amount input.start) input.end.one_share_assets points
  ok (value, codes)

unfoldable pub build_share_value :
    EvidenceInput → List ReasonCode → Result Failure (Option ShareValue × List ReasonCode)
unfolding share_value_result
build_share_value input codes = do
  result ← observe_share_value (start_amount input.start) input.end.one_share_assets
  share_value_result input codes result

read_total_assets_of : Option ℤ → List ReasonCode → Option ℤ × List ReasonCode
read_total_assets_of none codes = (none, codes ++ call_reverted ∷ [])
read_total_assets_of (some assets) codes = (some assets, codes)

unfoldable pub read_total_assets : EvidenceInput → List ReasonCode → Option ℤ × List ReasonCode
unfolding read_total_assets_of
read_total_assets input codes = read_total_assets_of input.end.total_assets codes

read_max_withdraw_of : Option AccountLimitObservation → List ReasonCode → Option ℤ × List ReasonCode
read_max_withdraw_of none codes = (none, codes)
read_max_withdraw_of (some limits) codes =
    if not (is_usable limits.probes max_withdraw)
    then (none, codes ++ ambiguous_capability ∷ [])
    else read_total_assets_of limits.max_withdraw_assets codes

unfoldable pub read_max_withdraw : EvidenceInput → List ReasonCode → Option ℤ × List ReasonCode
unfolding read_max_withdraw_of read_total_assets_of
read_max_withdraw input codes = read_max_withdraw_of input.account_limits codes

-- `provenanceEntrySchema.safeParse(entry).success` is the parameter `accepts`.
module _ (accepts : ProvenanceEntry → Bool) where
  parse_entry : ProvenanceEntry → Result Failure ProvenanceEntry
  parse_entry entry = do throw_if (not (accepts entry)) schema_rejected; ok entry

  start_entries : EvidenceInput → Option SnapshotObservation → Result Failure (List ProvenanceEntry)
  unfolding parse_entry
  start_entries input none = ok []
  start_entries input (some start) = do
    entry ← parse_entry (record {
      source_type = indexed;
      chain_id = input.vault.chain_id;
      block_number = start.block_number;
      block_hash = start.block_hash;
      reference = "vault_snapshot.start";
    })
    ok (entry ∷ [])

  limit_entries :
      EvidenceInput → Option AccountLimitObservation → Result Failure (List ProvenanceEntry)
  unfolding parse_entry
  limit_entries input none = ok []
  limit_entries input (some limits) = do
    entry ← parse_entry (record {
      source_type = rpc;
      chain_id = input.vault.chain_id;
      block_number = limits.block_number;
      block_hash = limits.block_hash;
      reference = "account_limits.maxWithdraw";
    })
    ok (entry ∷ [])

  unfoldable pub build_provenance : EvidenceInput → Result Failure (List ProvenanceEntry)
  unfolding parse_entry start_entries limit_entries
  build_provenance input = do
    end_entry ← parse_entry (record {
      source_type = indexed;
      chain_id = input.vault.chain_id;
      block_number = input.end.block_number;
      block_hash = input.end.block_hash;
      reference = "vault_snapshot.end";
    })
    starts ← start_entries input input.start
    limits ← limit_entries input input.account_limits
    ok (end_entry ∷ (starts ++ limits))

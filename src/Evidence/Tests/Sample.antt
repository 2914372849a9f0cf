-- ===== src/Evidence/Tests/Sample.antt =====
-- Two inputs of `buildEvidence` in packages/evidence/src/report.ts with their drafts: a vault observed
-- over thirty days, and one without a start.
use tr4ce_app.Prelude.{String, Bool, true, ◌≡◌, refl, none, some, [], ◌∷◌, ok}
use tr4ce_app.Prelude.Int.{pos, ◌+ℤ◌}
use tr4ce_app.Platform.Plain.{plain}
use tr4ce_app.Domain.{missing_observation, CapabilityMethod, CapabilityStatus}
use tr4ce_app.Domain.Canonical.{canonical_input_hash, derive_report_identity, report_id_for}
use tr4ce_app.Evidence.Rational.{Rounding, gcd, reduce, floor_div, to_basis_points, floor_quotient}
use tr4ce_app.Evidence.ShareValue.{observe_share_value}
use tr4ce_app.Evidence.Report.{
  check_compatibility, build_share_value, read_total_assets, read_max_withdraw, build_provenance,
}
use tr4ce_app.Evidence.Capability.{CapabilityProbe, is_usable, usability, status_of, find_probe}
use tr4ce_app.Evidence.Input.{
  SnapshotObservation, AccountLimitObservation, VaultCapabilityProfile, VaultIdentity, BlockRef,
  EvidenceInput, ShareValue, indexed, rpc, ProvenanceEntry, EvidenceReportDraft,
}
use tr4ce_app.Evidence.Flows.{FlowAggregate, aggregate_flows}
use tr4ce_app.Evidence.Draft.{build_evidence, measure_elapsed, build_limitations}

abbrev pub accepts : ProvenanceEntry → Bool
accepts entry = true

abbrev vault : VaultIdentity
vault = record { chain_id = 8453; address = "vault"; asset = "usdc"; asset_symbol = "USDC" }

abbrev end_block : BlockRef
end_block = record { block_number = "200"; block_hash = "0x02"; timestamp = "2026-01-31" }

abbrev start : SnapshotObservation
start = record {
  vault_id = "v";
  block_number = "100";
  block_hash = "0x01";
  block_time = "2026-01-01";
  total_assets = some (pos 1000);
  total_supply = some (pos 900);
  one_share_units = pos 1;
  one_share_assets = some (pos 100);
  schema_version = "1";
}

abbrev end : SnapshotObservation
end = record start {
  block_number = "200";
  block_hash = "0x02";
  block_time = "2026-01-31";
  total_assets = some (pos 2000);
  one_share_assets = some (pos 110);
}

abbrev pub supported_probe : CapabilityProbe
supported_probe = record {
  method = CapabilityMethod.max_withdraw;
  status = CapabilityStatus.supported;
  at_block = 200;
  raw_result = none;
  revert_data = none;
  reason_code = none;
  note = none;
}

abbrev pub limits : AccountLimitObservation
limits = record {
  block_number = "200";
  block_hash = "0x02";
  max_withdraw_assets = some (pos 50);
  probes = supported_probe ∷ [];
}

abbrev profile : VaultCapabilityProfile
profile = record { adapter_key = "erc4626"; adapter_version = "1"; probes = supported_probe ∷ [] }

abbrev pub evidence : EvidenceInput
evidence = record {
  vault = vault;
  as_of = end_block;
  start = some start;
  end = end;
  flows = [];
  account_limits = some limits;
  capability = profile;
  window_days = 30;
  calculation_version = "1";
  generated_at = "now";
}

abbrev pub young_evidence : EvidenceInput
young_evidence = record evidence { start = none }

abbrev pub share_value : ShareValue
share_value = record {
  one_share_base_units = pos 1;
  assets_now = pos 110;
  assets_at_start = pos 100;
  window_days = 30;
  return_bps = pos 1000;
  numerator = pos 1;
  denominator = pos 10;
  rounding = Rounding.floor;
}

abbrev no_flows : FlowAggregate
no_flows = record {
  deposited_assets = pos 0;
  withdrawn_assets = pos 0;
  net_flow_assets = pos 0;
  deposit_count = 0;
  withdrawal_count = 0;
  excluded = record { mints = 0; burns = 0; transfers = 0; non_canonical = 0; missing_assets = 0 };
}

abbrev end_entry : ProvenanceEntry
end_entry = record {
  source_type = indexed;
  chain_id = 8453;
  block_number = "200";
  block_hash = "0x02";
  reference = "vault_snapshot.end";
}

abbrev start_entry : ProvenanceEntry
start_entry = record end_entry {
  block_number = "100";
  block_hash = "0x01";
  reference = "vault_snapshot.start";
}

abbrev limit_entry : ProvenanceEntry
limit_entry = record end_entry { source_type = rpc; reference = "account_limits.maxWithdraw" }

abbrev backward_looking : String
backward_looking = "Observed share-value return is backward-looking and is not a forecast."

abbrev pub draft : EvidenceReportDraft
draft = record {
  schema_version = "1.0.0";
  report_id = "trc_hash";
  canonical_input_hash = "hash";
  calculation_version = "1";
  vault = vault;
  as_of = end_block;
  generated_at = "now";
  observations = record {
    share_value = some share_value;
    total_assets = some (pos 2000);
    net_flow_assets = pos 0;
    max_withdraw_assets = some (pos 50);
  };
  flows = no_flows;
  elapsed_seconds = some (pos 2592000);
  reason_codes = [];
  provenance = end_entry ∷ start_entry ∷ limit_entry ∷ [];
  limitations = backward_looking ∷ [];
}

abbrev pub young_draft : EvidenceReportDraft
young_draft = record {
  schema_version = "1.0.0";
  report_id = "trc_hash";
  canonical_input_hash = "hash";
  calculation_version = "1";
  vault = vault;
  as_of = end_block;
  generated_at = "now";
  observations = record {
    share_value = none;
    total_assets = some (pos 2000);
    net_flow_assets = pos 0;
    max_withdraw_assets = some (pos 50);
  };
  flows = no_flows;
  elapsed_seconds = none;
  reason_codes = missing_observation ∷ [];
  provenance = end_entry ∷ limit_entry ∷ [];
  limitations =
      backward_looking ∷ "No start observation covers the requested window; return is unavailable."
      ∷ [];
}

pub builds : build_evidence plain accepts evidence ≡ ok draft
unfolding build_evidence check_compatibility build_share_value observe_share_value read_total_assets
    read_max_withdraw build_provenance measure_elapsed build_limitations aggregate_flows is_usable
    usability status_of find_probe reduce gcd to_basis_points floor_div floor_quotient
    derive_report_identity report_id_for canonical_input_hash ◌+ℤ◌
builds = refl

pub builds_young : build_evidence plain accepts young_evidence ≡ ok young_draft
unfolding build_evidence check_compatibility build_share_value observe_share_value read_total_assets
    read_max_withdraw build_provenance measure_elapsed build_limitations aggregate_flows is_usable
    usability status_of find_probe reduce gcd to_basis_points floor_div floor_quotient
    derive_report_identity report_id_for canonical_input_hash ◌+ℤ◌
builds_young = refl

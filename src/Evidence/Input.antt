-- ===== src/Evidence/Input.antt =====
-- The types of packages/evidence/src/report.ts: what a report is built from and what it holds. An
-- amount that the source keeps as a decimal text is the integer that the text denotes.
use tr4ce_app.Prelude.{ℕ, Option, List, String}
use tr4ce_app.Prelude.Int.{ℤ}
use tr4ce_app.Domain.{ReasonCode}
use tr4ce_app.Evidence.Capability.{CapabilityProbe}
use tr4ce_app.Evidence.Flows.{FlowRow, FlowAggregate}
use tr4ce_app.Evidence.Rational.{Rounding}

pub record SnapshotObservation : Type 0 where
  pub vault_id : String
  pub block_number : String
  pub block_hash : String
  pub block_time : String
  pub total_assets : Option ℤ
  pub total_supply : Option ℤ
  pub one_share_units : ℤ
  pub one_share_assets : Option ℤ
  pub schema_version : String

pub record AccountLimitObservation : Type 0 where
  pub block_number : String
  pub block_hash : String
  pub max_withdraw_assets : Option ℤ
  pub probes : List CapabilityProbe

pub record VaultCapabilityProfile : Type 0 where
  pub adapter_key : String
  pub adapter_version : String
  pub probes : List CapabilityProbe

-- `vaultIdentitySchema` of packages/domain/src/identity.ts
pub record VaultIdentity : Type 0 where
  pub chain_id : ℕ
  pub address : String
  pub asset : String
  pub asset_symbol : String

-- `blockRefSchema` of packages/domain/src/identity.ts
pub record BlockRef : Type 0 where
  pub block_number : String
  pub block_hash : String
  pub timestamp : String

pub record EvidenceInput : Type 0 where
  pub vault : VaultIdentity
  pub as_of : BlockRef
  pub start : Option SnapshotObservation
  pub end : SnapshotObservation
  pub flows : List FlowRow
  pub account_limits : Option AccountLimitObservation
  pub capability : VaultCapabilityProfile
  pub window_days : ℕ
  pub calculation_version : String
  pub generated_at : String

pub record ShareValue : Type 0 where
  pub one_share_base_units : ℤ
  pub assets_now : ℤ
  pub assets_at_start : ℤ
  pub window_days : ℕ
  pub return_bps : ℤ
  pub numerator : ℤ
  pub denominator : ℤ
  pub rounding : Rounding

pub record DraftObservations : Type 0 where
  pub share_value : Option ShareValue
  pub total_assets : Option ℤ
  pub net_flow_assets : ℤ
  pub max_withdraw_assets : Option ℤ

pub data SourceType : Type 0 where
  indexed rpc simulation cached : SourceType

-- `provenanceEntrySchema` of packages/domain/src/evidence.ts
pub record ProvenanceEntry : Type 0 where
  pub source_type : SourceType
  pub chain_id : ℕ
  pub block_number : String
  pub block_hash : String
  pub reference : String

pub record EvidenceReportDraft : Type 0 where
  pub schema_version : String
  pub report_id : String
  pub canonical_input_hash : String
  pub calculation_version : String
  pub vault : VaultIdentity
  pub as_of : BlockRef
  pub generated_at : String
  pub observations : DraftObservations
  pub flows : FlowAggregate
  pub elapsed_seconds : Option ℤ
  pub reason_codes : List ReasonCode
  pub provenance : List ProvenanceEntry
  pub limitations : List String

-- ===== src/Domain.antt =====
-- The vocabulary that the packages share, packages/domain/src.
pub mod Canonical
pub mod Policy
use tr4ce_app.Prelude.{ℕ, ◌==◌, Bool}

-- reasons.ts
pub data ReasonCode : Type 0 where
  missing_observation stale_evidence incompatible_asset incompatible_implementation : ReasonCode
  call_reverted unsupported_capability ambiguous_capability unsupported_vault : ReasonCode
  provider_unavailable reorg_invalidated invalid_policy simulation_reverted : ReasonCode
  simulation_stale wallet_context_changed : ReasonCode

-- A number for each code, by which two codes are compared.
abbrev pub code_number : ReasonCode → ℕ
code_number missing_observation = 0
code_number stale_evidence = 1
code_number incompatible_asset = 2
code_number incompatible_implementation = 3
code_number call_reverted = 4
code_number unsupported_capability = 5
code_number ambiguous_capability = 6
code_number unsupported_vault = 7
code_number provider_unavailable = 8
code_number reorg_invalidated = 9
code_number invalid_policy = 10
code_number simulation_reverted = 11
code_number simulation_stale = 12
code_number wallet_context_changed = 13

-- `===` on reason codes
abbrev pub same_code : ReasonCode → ReasonCode → Bool
same_code a b = code_number a == code_number b

-- observations.ts
pub data FlowKind : Type 0 where
  deposit withdraw share_transfer : FlowKind

pub data TransferKind : Type 0 where
  transfer mint burn unspecified : TransferKind

-- registry.ts
pub data CapabilityMethod : Type 0 where
  asset decimals total_assets total_supply convert_to_assets : CapabilityMethod
  max_withdraw max_redeem preview_deposit preview_redeem : CapabilityMethod

abbrev pub method_number : CapabilityMethod → ℕ
method_number asset = 0
method_number decimals = 1
method_number total_assets = 2
method_number total_supply = 3
method_number convert_to_assets = 4
method_number max_withdraw = 5
method_number max_redeem = 6
method_number preview_deposit = 7
method_number preview_redeem = 8

-- `===` on methods
abbrev pub same_method : CapabilityMethod → CapabilityMethod → Bool
same_method a b = method_number a == method_number b

pub data CapabilityStatus : Type 0 where
  supported reverted nonstandard_zero ambiguous unsupported : CapabilityStatus

-- policy.ts
pub data RuleStatus : Type 0 where
  pass fail unknown : RuleStatus

pub data RuleKey : Type 0 where
  underlying_asset minimum_history minimum_tvl minimum_observed_return : RuleKey
  minimum_withdrawable_assets : RuleKey

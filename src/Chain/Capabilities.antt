-- ===== src/Chain/Capabilities.antt =====
-- packages/chain/src/capabilities.ts: what the answers of a vault are allowed to mean.
pub mod Usable
use tr4ce_app.Prelude.{
  ℕ, Bool, true, false, ◌&&◌, Option, none, some, List, [], ◌∷◌, ◌++◌, String, if◌then◌else◌,
}
use tr4ce_app.Prelude.Int.{ℤ, pos, eqb_ℤ, ltb_ℤ}
use tr4ce_app.Prelude.Text.{◌<>◌}
use tr4ce_app.Platform.{Platform}
use tr4ce_app.Domain.{
  ambiguous_capability, call_reverted, CapabilityMethod, asset, decimals, total_assets,
  total_supply, convert_to_assets, max_withdraw, max_redeem, preview_deposit, preview_redeem,
  supported, nonstandard_zero,
}
use tr4ce_app.Domain.CapabilityStatus.{reverted}
use tr4ce_app.Evidence.Capability.{CapabilityProbe}

-- `ReadOutcome`: the value, or what the call reverted with.
pub data ReadOutcome (A : Type 0) : Type 0 where
  answered : A → ReadOutcome A
  failed : Option String → ReadOutcome A

pub record VaultReadResults : Type 0 where
  pub asset : ReadOutcome String
  pub decimals : ReadOutcome ℤ
  pub total_assets : ReadOutcome ℤ
  pub total_supply : ReadOutcome ℤ
  pub convert_to_assets : ReadOutcome ℤ
  pub preview_deposit : ReadOutcome ℤ
  pub preview_redeem : ReadOutcome ℤ
  -- none where no account was read
  pub max_withdraw : Option (ReadOutcome ℤ)
  pub max_redeem : Option (ReadOutcome ℤ)
  pub owner_shares : Option (ReadOutcome ℤ)

unfoldable pub encode_uint : Platform → ℤ → String
encode_uint p value = "0x" <> p.pad_zeros 64 (p.to_hex value)

unfoldable pub encode_address : Platform → String → String
encode_address p value = "0x" <> p.pad_zeros 64 (p.to_lower (p.slice_from 2 value))

abbrev pub reverted_probe : CapabilityMethod → Option String → ℕ → CapabilityProbe
reverted_probe method revert_data at_block = record {
  method = method;
  status = reverted;
  at_block = at_block;
  raw_result = none;
  revert_data = revert_data;
  reason_code = some call_reverted;
  note = none;
}

abbrev pub supported_probe : CapabilityMethod → String → ℕ → CapabilityProbe
supported_probe method raw_result at_block = record {
  method = method;
  status = supported;
  at_block = at_block;
  raw_result = some raw_result;
  revert_data = none;
  reason_code = none;
  note = none;
}

abbrev pub probe_numeric : Platform → CapabilityMethod → ReadOutcome ℤ → ℕ → CapabilityProbe
probe_numeric p method (failed revert_data) at_block = reverted_probe method revert_data at_block
probe_numeric p method (answered value) at_block =
    supported_probe method (encode_uint p value) at_block

abbrev pub probe_address : Platform → CapabilityMethod → ReadOutcome String → ℕ → CapabilityProbe
probe_address p method (failed revert_data) at_block = reverted_probe method revert_data at_block
probe_address p method (answered value) at_block =
    supported_probe method (encode_address p value) at_block

-- A zero of an owner who holds shares is kept, and explains nothing.
abbrev pub zero_probe : Platform → CapabilityMethod → ℕ → CapabilityProbe
zero_probe p method at_block = record {
  method = method;
  status = nonstandard_zero;
  at_block = at_block;
  raw_result = some (encode_uint p (pos 0));
  revert_data = none;
  reason_code = some ambiguous_capability;
  note =
      some "Returned zero for an owner holding shares; raw result preserved, capacity unresolved.";
}

abbrev pub probe_capacity : Platform → CapabilityMethod → ReadOutcome ℤ → ℕ → Bool → CapabilityProbe
probe_capacity p method (failed revert_data) at_block holds_shares =
    reverted_probe method revert_data at_block
probe_capacity p method (answered value) at_block holds_shares =
    if eqb_ℤ value (pos 0) && holds_shares
    then zero_probe p method at_block
    else probe_numeric p method (answered value) at_block

-- A method that was not called is not in the profile.
abbrev pub capacity_probes :
    Platform → CapabilityMethod → Option (ReadOutcome ℤ) → ℕ → Bool → List CapabilityProbe
capacity_probes p method none at_block holds_shares = []
capacity_probes p method (some outcome) at_block holds_shares =
    probe_capacity p method outcome at_block holds_shares ∷ []

unfoldable pub classify_capabilities : Platform → VaultReadResults → ℕ → Bool → List CapabilityProbe
classify_capabilities p results at_block owner_holds_shares =
    probe_address p asset results.asset at_block
    ∷ probe_numeric p decimals results.decimals at_block
    ∷ probe_numeric p total_assets results.total_assets at_block
    ∷ probe_numeric p total_supply results.total_supply at_block
    ∷ probe_numeric p convert_to_assets results.convert_to_assets at_block
    ∷ probe_numeric p preview_deposit results.preview_deposit at_block
    ∷ probe_numeric p preview_redeem results.preview_redeem at_block
    ∷ (capacity_probes p max_withdraw results.max_withdraw at_block owner_holds_shares
        ++ capacity_probes p max_redeem results.max_redeem at_block owner_holds_shares)

abbrev holds : Option (ReadOutcome ℤ) → Bool
holds none = false
holds (some (failed revert_data)) = false
holds (some (answered value)) = ltb_ℤ (pos 0) value

unfoldable pub owner_holds_shares : VaultReadResults → Bool
owner_holds_shares results = holds results.owner_shares

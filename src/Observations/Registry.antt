-- ===== src/Observations/Registry.antt =====
-- The lookups of packages/db/src/repositories/vaults.ts that promotion reads.
use tr4ce_app.Prelude.{
  ℕ, ◌==◌, Bool, true, ◌&&◌, Option, none, some, List, [], ◌∷◌, map, keep, leb, ltb, find,
  if◌then◌else◌,
}
use tr4ce_app.Bytes.{Text, Bytes, bytes_equal, bytes_to_hex}

pub record NetworkRow : Type 0 where
  pub chain_id : ℕ
  pub confirmation_depth : ℕ
  pub enabled : Bool

pub record VaultRow : Type 0 where
  pub id : Text
  pub chain_id : ℕ
  pub address : Bytes
  pub share_decimals : ℕ

pub record CapabilityRow : Type 0 where
  pub id : Text
  pub vault_id : Text
  pub effective_from_block : ℕ
  pub effective_to_block : Option ℕ

pub record Registry : Type 0 where
  pub networks : List NetworkRow
  pub vaults : List VaultRow
  pub capabilities : List CapabilityRow

-- From the first block, inclusive, to the second, exclusive.
pub record CapabilityWindow : Type 0 where
  pub id : Text
  pub effective_from_block : ℕ
  pub effective_to_block : Option ℕ

pub record VaultLookupEntry : Type 0 where
  pub id : Text
  pub chain_id : ℕ
  pub address : Text
  pub share_decimals : ℕ
  pub capabilities : List CapabilityWindow

unfoldable pub read_network : ℕ → Registry → Option NetworkRow
read_network chain_id registry = find (λ row. row.chain_id == chain_id) registry.networks

abbrev window_of : CapabilityRow → CapabilityWindow
window_of row = record {
  id = row.id;
  effective_from_block = row.effective_from_block;
  effective_to_block = row.effective_to_block;
}

abbrev entry_of : List CapabilityRow → VaultRow → VaultLookupEntry
entry_of capabilities row = record {
  id = row.id;
  chain_id = row.chain_id;
  address = bytes_to_hex row.address;
  share_decimals = row.share_decimals;
  capabilities = map window_of (keep (λ c. bytes_equal c.vault_id row.id) capabilities);
}

-- The map from an address to its entry, as the list of the entries.
unfoldable pub load_vault_lookup : ℕ → Registry → List VaultLookupEntry
load_vault_lookup chain_id registry =
    map (λ row. entry_of registry.capabilities row)
      (keep (λ row. row.chain_id == chain_id) registry.vaults)

-- `lookup.get(address)`: a vault's address is unique on its chain.
unfoldable pub lookup_vault : Text → List VaultLookupEntry → Option VaultLookupEntry
lookup_vault address lookup = find (λ entry. bytes_equal entry.address address) lookup

abbrev ends_after : ℕ → Option ℕ → Bool
ends_after block_number none = true
ends_after block_number (some end) = ltb block_number end

abbrev pub covers : ℕ → CapabilityWindow → Bool
covers block_number window =
    leb window.effective_from_block block_number
    && ends_after block_number window.effective_to_block

unfoldable pub resolve_windows : List CapabilityWindow → ℕ → Option Text
resolve_windows [] block_number = none
resolve_windows (window ∷ windows) block_number =
    let rest = resolve_windows windows block_number in
    if covers block_number window then some window.id else rest

unfoldable pub resolve_capability_at : VaultLookupEntry → ℕ → Option Text
resolve_capability_at entry block_number = resolve_windows entry.capabilities block_number

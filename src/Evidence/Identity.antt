-- ===== src/Evidence/Identity.antt =====
-- The structured value that `buildEvidence` in packages/evidence/src/report.ts hashes: what was
-- observed, and not when it was rendered.
use tr4ce_app.Prelude.{Option, none, some, List, [], ◌∷◌, String}
use tr4ce_app.Prelude.Int.{pos}
use tr4ce_app.Domain.{FlowKind, TransferKind}
use tr4ce_app.Domain.Canonical.{
  Json, null, boolean, number, bigint, text, array, object, Items, nil, cons, end, field,
}
use tr4ce_app.Evidence.Flows.{FlowRow}
use tr4ce_app.Evidence.Input.{
  SnapshotObservation, AccountLimitObservation, VaultIdentity, BlockRef, EvidenceInput,
}

abbrev kind_text : FlowKind → String
kind_text FlowKind.deposit = "deposit"
kind_text FlowKind.withdraw = "withdraw"
kind_text FlowKind.share_transfer = "share_transfer"

abbrev transfer_text : TransferKind → String
transfer_text TransferKind.transfer = "transfer"
transfer_text TransferKind.mint = "mint"
transfer_text TransferKind.burn = "burn"
transfer_text TransferKind.unspecified = "unspecified"

abbrev nullable {ℓ} : {A : Type ℓ} → (A → Json) → Option A → Json
nullable f none = null
nullable f (some a) = f a

abbrev row_json : FlowRow → Json
row_json row = object (
    field "kind" (text (kind_text row.kind)) (
      field "transferKind" (nullable (λ k. text (transfer_text k)) row.transfer_kind) (
        field "assets" (nullable bigint row.assets)
          (field "shares" (bigint row.shares) (field "canonical" (boolean row.canonical) end)))))

abbrev rows_json : List FlowRow → Items
rows_json [] = nil
rows_json (row ∷ rows) = cons (row_json row) (rows_json rows)

unfoldable pub serialise_snapshot : Option SnapshotObservation → Json
serialise_snapshot none = null
serialise_snapshot (some s) = object (
    field "vaultId" (text s.vault_id) (
      field "blockNumber" (text s.block_number) (
        field "blockHash" (text s.block_hash) (
          field "blockTime" (text s.block_time) (
            field "totalAssets" (nullable bigint s.total_assets) (
              field "totalSupply" (nullable bigint s.total_supply) (
                field "oneShareUnits" (bigint s.one_share_units) (
                  field "oneShareAssets" (nullable bigint s.one_share_assets)
                    (field "schemaVersion" (text s.schema_version) end)))))))))

abbrev limits_json : AccountLimitObservation → Json
limits_json a = object (
    field "blockNumber" (text a.block_number) (
      field "blockHash" (text a.block_hash)
        (field "maxWithdrawAssets" (nullable bigint a.max_withdraw_assets) end)))

abbrev vault_json : VaultIdentity → Json
vault_json v = object (
    field "chainId" (number (pos v.chain_id)) (
      field "address" (text v.address)
        (field "asset" (text v.asset) (field "assetSymbol" (text v.asset_symbol) end))))

abbrev block_json : BlockRef → Json
block_json b = object (
    field "blockNumber" (text b.block_number)
      (field "blockHash" (text b.block_hash) (field "timestamp" (text b.timestamp) end)))

unfoldable pub identity_json : EvidenceInput → Json
unfolding serialise_snapshot
identity_json input = object (
    field "vault" (vault_json input.vault) (
      field "asOf" (block_json input.as_of) (
        field "start" (serialise_snapshot input.start) (
          field "end" (serialise_snapshot (some input.end)) (
            field "flows" (array (rows_json input.flows)) (
              field "accountLimits" (nullable limits_json input.account_limits) (
                field "capability"
                  (object (
                    field "adapterKey" (text input.capability.adapter_key)
                      (field "adapterVersion" (text input.capability.adapter_version) end)))
                  (field "windowDays" (number (pos input.window_days))
                    (field "calculationVersion" (text input.calculation_version) end)))))))))

-- ===== src/Observations/Promote/Copied.antt =====
-- That `promoteRange` of packages/db/src/repositories/observations.ts copies every row of the sink in its
-- range.
use tr4ce_app.Prelude.{
  ℕ, ◌≡◌, inl, inr, sym, ap, ◌∙◌, subst, Bool, true, ◌&&◌, not, List, [], ◌∷◌, ok, arith, Member,
  Option, is_some, throw_if-ok, ok_inj, >>=-eq-ok, any,
}
use tr4ce_app.Platform.{Platform}
use tr4ce_app.Domain.{FlowKind}
use tr4ce_app.Bytes.{lower}
use tr4ce_app.Bytes.Equality.{bytes_equal_self}
use tr4ce_app.Identifiers.{vault_flow_id, vault_snapshot_id}
use tr4ce_app.Observations.Tables.{
  VaultFlow, VaultSnapshot, unknown_vault, no_capability, bad_call_errors, flow_canonical,
  snapshot_canonical, flow_allowed, snapshot_allowed, same_event, same_identity,
}
use tr4ce_app.Observations.Registry.{VaultLookupEntry, lookup_vault, resolve_capability_at}
use tr4ce_app.Observations.Staging.{RawEventRow, RawVaultSnapshot}
use tr4ce_app.Observations.Upsert.{
  Kept, write_flow, write_snapshot, upsert_flow_row, upsert_snapshot_row,
}
use tr4ce_app.Observations.Promote.{
  FlowUpsert, read_hex, read_hex_or_null, required, upsert_flow, upsert_snapshot, promote_flows,
  promote_snapshots,
}
use tr4ce_app.Observations.Promote.Flags.{promote_flows-Kept, promote_snapshots-Kept}

Kept-there :
    (before after : Option Bool) → Kept before after → is_some before ≡ true → is_some after ≡ true
Kept-there before after (inl same) h = ap (λ o. is_some o) same ∙ h
Kept-there before after (inr (_, new)) h = ap (λ o. is_some o) new

write_flow-there :
    (new : VaultFlow) (rows : List VaultFlow)
    → is_some (flow_canonical new.id (write_flow new rows)) ≡ true
unfolding flow_canonical write_flow
write_flow-there new [] = grind (arith, bytes_equal_self new.id)
write_flow-there new (row ∷ rows) =
    grind (arith, bytes_equal_self new.id, write_flow-there new rows)

write_snapshot-there :
    (new : VaultSnapshot) (rows : List VaultSnapshot)
    → is_some (snapshot_canonical new.id (write_snapshot new rows)) ≡ true
unfolding snapshot_canonical write_snapshot
write_snapshot-there new [] = grind (arith, bytes_equal_self new.id)
write_snapshot-there new (row ∷ rows) =
    grind (arith, bytes_equal_self new.id, write_snapshot-there new rows)

upsert_flow_row-there :
    (new : VaultFlow) (rows : List VaultFlow) {after : List VaultFlow}
    → upsert_flow_row new rows ≡ ok after
    → is_some (flow_canonical new.id after) ≡ true
unfolding upsert_flow_row
upsert_flow_row-there new rows e =
    let (_, e1) = throw_if-ok (not (flow_allowed new)) _ _ e in
    let (_, e2) =
      throw_if-ok
        (not (is_some (flow_canonical new.id rows)) && any (λ row. same_event new row) rows) _ _
        e1 in
    ap (λ rs. is_some (flow_canonical new.id rs)) (sym (ok_inj e2)) ∙ write_flow-there new rows

upsert_snapshot_row-there :
    (new : VaultSnapshot) (rows : List VaultSnapshot) {after : List VaultSnapshot}
    → upsert_snapshot_row new rows ≡ ok after
    → is_some (snapshot_canonical new.id after) ≡ true
unfolding upsert_snapshot_row
upsert_snapshot_row-there new rows e =
    let (_, e1) = throw_if-ok (not (snapshot_allowed new)) _ _ e in
    let (_, e2) =
      throw_if-ok
        (not (is_some (snapshot_canonical new.id rows)) && any (λ row. same_identity new row) rows)
        _ _ e1 in
    ap (λ rs. is_some (snapshot_canonical new.id rs)) (sym (ok_inj e2))
    ∙ write_snapshot-there new rows

-- The flow of the event is in the table.
abbrev pub FlowThere : Platform → FlowKind → RawEventRow → List VaultFlow → Type 0
FlowThere p kind event rows =
    is_some (
      flow_canonical
        (vault_flow_id p event.chain_id event.block_hash event.transaction_hash event.log_index
          kind)
        rows)
    ≡ true

-- The snapshot is in the table.
abbrev pub SnapshotThere : Platform → ℕ → RawVaultSnapshot → List VaultSnapshot → Type 0
SnapshotThere p chain_id row rows =
    is_some (
      snapshot_canonical (vault_snapshot_id p chain_id row.vault row.block_hash row.schema_version)
        rows)
    ≡ true

module _ (p : Platform) where
  upsert_flow-there :
      (input : FlowUpsert) (entry : VaultLookupEntry) (rows : List VaultFlow)
      {after : List VaultFlow}
      → upsert_flow p input entry rows ≡ ok after
      → FlowThere p input.kind input.row after
  unfolding upsert_flow
  upsert_flow-there input entry rows e =
      let (_, _, e1) = >>=-eq-ok (read_hex_or_null input.sender) _ e in
      let (_, _, e2) = >>=-eq-ok (read_hex_or_null input.owner) _ e1 in
      let (_, _, e3) = >>=-eq-ok (read_hex_or_null input.receiver) _ e2 in
      let (_, _, e4) = >>=-eq-ok (read_hex input.row.block_hash) _ e3 in
      let (_, _, e5) = >>=-eq-ok (read_hex input.row.transaction_hash) _ e4 in
      upsert_flow_row-there _ rows e5

  pub promote_flows-there :
      (lookup : List VaultLookupEntry) (inputs : List FlowUpsert) (rows : List VaultFlow)
      (input : FlowUpsert) {after : List VaultFlow}
      → promote_flows p lookup inputs rows ≡ ok after
      → Member input inputs
      → FlowThere p input.kind input.row after
  unfolding promote_flows
  promote_flows-there lookup [] rows input e m = absurd m
  promote_flows-there lookup (first ∷ inputs) rows input {after} e m =
      let (entry, _, e1) =
        >>=-eq-ok (required unknown_vault (lookup_vault (lower first.row.vault) lookup)) _ e in
      let (written, w, e2) = >>=-eq-ok (upsert_flow p first entry rows) _ e1 in
      elim m [
        | inl same ↦ Kept-there _ _ (promote_flows-Kept p _ lookup inputs written e2) (
            subst (λ i. FlowThere p i.kind i.row written) same
              (upsert_flow-there first entry rows w))
        | inr later ↦ promote_flows-there lookup inputs written input e2 later
      ]

  upsert_snapshot-there :
      (chain_id : ℕ) (row : RawVaultSnapshot) (entry : VaultLookupEntry) (rows : List VaultSnapshot)
      {after : List VaultSnapshot}
      → upsert_snapshot p chain_id row entry rows ≡ ok after
      → SnapshotThere p chain_id row after
  unfolding upsert_snapshot
  upsert_snapshot-there chain_id row entry rows e =
      let (_, _, e1) =
        >>=-eq-ok (required no_capability (resolve_capability_at entry row.block_number)) _ e in
      let (_, _, e2) =
        >>=-eq-ok (required bad_call_errors (p.parse_call_errors row.call_errors)) _ e1 in
      let (_, _, e3) = >>=-eq-ok (read_hex row.block_hash) _ e2 in
      upsert_snapshot_row-there _ rows e3

  pub promote_snapshots-there :
      (chain_id : ℕ) (lookup : List VaultLookupEntry) (inputs : List RawVaultSnapshot)
      (rows : List VaultSnapshot) (input : RawVaultSnapshot) {after : List VaultSnapshot}
      → promote_snapshots p chain_id lookup inputs rows ≡ ok after
      → Member input inputs
      → SnapshotThere p chain_id input after
  unfolding promote_snapshots
  promote_snapshots-there chain_id lookup [] rows input e m = absurd m
  promote_snapshots-there chain_id lookup (first ∷ inputs) rows input e m =
      let (entry, _, e1) =
        >>=-eq-ok (required unknown_vault (lookup_vault (lower first.vault) lookup)) _ e in
      let (written, w, e2) = >>=-eq-ok (upsert_snapshot p chain_id first entry rows) _ e1 in
      elim m [
        | inl same ↦ Kept-there _ _ (promote_snapshots-Kept p _ chain_id lookup inputs written e2) (
            subst (λ i. SnapshotThere p chain_id i written) same
              (upsert_snapshot-there chain_id first entry rows w))
        | inr later ↦ promote_snapshots-there chain_id lookup inputs written input e2 later
      ]

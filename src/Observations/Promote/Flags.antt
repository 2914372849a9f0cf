-- ===== src/Observations/Promote/Flags.antt =====
-- What `promoteRange` of packages/db/src/repositories/observations.ts does to the flags of the rows.
use tr4ce_app.Prelude.{
  ℕ, ◌≡◌, ◌⊎◌, inl, inr, refl, sym, ap, true, not, List, [], ◌∷◌, ok, subst, throw_if-ok, ok_inj,
  >>=-eq-ok, ltb, if-cases, the_ok, false,
}
use tr4ce_app.Platform.{Platform}
use tr4ce_app.Bytes.{Text, lower}
use tr4ce_app.Observations.Tables.{
  VaultFlow, VaultSnapshot, Tables, Failure, unknown_vault, no_capability, bad_call_errors,
  flow_canonical, snapshot_canonical,
}
use tr4ce_app.Observations.Registry.{VaultLookupEntry, lookup_vault, resolve_capability_at}
use tr4ce_app.Observations.Staging.{RawVaultSnapshot, Staging}
use tr4ce_app.Observations.Upsert.{Kept, Kept-trans, upsert_flow_row-Kept, upsert_snapshot_row-Kept}
use tr4ce_app.Observations.Promote.{
  PromoteRangeOptions, PromoteRangeResult, FlowUpsert, read_hex, required, upsert_flow,
  upsert_snapshot, promote_flows, promote_snapshots, Batch, flow_inputs, accepted_versions,
  known_vaults, promote_batch, read_batch, promote_range, nothing_promoted, read_hex_or_null,
}

module _ (p : Platform) (id : Text) where
  upsert_flow-Kept :
      (input : FlowUpsert) (entry : VaultLookupEntry) (rows : List VaultFlow)
      {after : List VaultFlow}
      → upsert_flow p input entry rows ≡ ok after
      → Kept (flow_canonical id rows) (flow_canonical id after)
  unfolding upsert_flow
  upsert_flow-Kept input entry rows e =
      let (_, _, e1) = >>=-eq-ok (read_hex_or_null input.sender) _ e in
      let (_, _, e2) = >>=-eq-ok (read_hex_or_null input.owner) _ e1 in
      let (_, _, e3) = >>=-eq-ok (read_hex_or_null input.receiver) _ e2 in
      let (_, _, e4) = >>=-eq-ok (read_hex input.row.block_hash) _ e3 in
      let (_, _, e5) = >>=-eq-ok (read_hex input.row.transaction_hash) _ e4 in
      upsert_flow_row-Kept id _ rows refl e5

  pub promote_flows-Kept :
      (lookup : List VaultLookupEntry) (inputs : List FlowUpsert) (rows : List VaultFlow)
      {after : List VaultFlow}
      → promote_flows p lookup inputs rows ≡ ok after
      → Kept (flow_canonical id rows) (flow_canonical id after)
  unfolding promote_flows
  promote_flows-Kept lookup [] rows e = inl (sym (ap (λ rs. flow_canonical id rs) (ok_inj e)))
  promote_flows-Kept lookup (input ∷ inputs) rows e =
      let (entry, _, e1) =
        >>=-eq-ok (required unknown_vault (lookup_vault (lower input.row.vault) lookup)) _ e in
      let (written, w, e2) = >>=-eq-ok (upsert_flow p input entry rows) _ e1 in
      Kept-trans _ _ _ (upsert_flow-Kept input entry rows w)
        (promote_flows-Kept lookup inputs written e2)

  upsert_snapshot-Kept :
      (chain_id : ℕ) (row : RawVaultSnapshot) (entry : VaultLookupEntry) (rows : List VaultSnapshot)
      {after : List VaultSnapshot}
      → upsert_snapshot p chain_id row entry rows ≡ ok after
      → Kept (snapshot_canonical id rows) (snapshot_canonical id after)
  unfolding upsert_snapshot
  upsert_snapshot-Kept chain_id row entry rows e =
      let (_, _, e1) =
        >>=-eq-ok (required no_capability (resolve_capability_at entry row.block_number)) _ e in
      let (_, _, e2) =
        >>=-eq-ok (required bad_call_errors (p.parse_call_errors row.call_errors)) _ e1 in
      let (_, _, e3) = >>=-eq-ok (read_hex row.block_hash) _ e2 in
      upsert_snapshot_row-Kept id _ rows refl e3

  pub promote_snapshots-Kept :
      (chain_id : ℕ) (lookup : List VaultLookupEntry) (inputs : List RawVaultSnapshot)
      (rows : List VaultSnapshot) {after : List VaultSnapshot}
      → promote_snapshots p chain_id lookup inputs rows ≡ ok after
      → Kept (snapshot_canonical id rows) (snapshot_canonical id after)
  unfolding promote_snapshots
  promote_snapshots-Kept chain_id lookup [] rows e =
      inl (sym (ap (λ rs. snapshot_canonical id rs) (ok_inj e)))
  promote_snapshots-Kept chain_id lookup (row ∷ inputs) rows e =
      let (entry, _, e1) =
        >>=-eq-ok (required unknown_vault (lookup_vault (lower row.vault) lookup)) _ e in
      let (written, w, e2) = >>=-eq-ok (upsert_snapshot p chain_id row entry rows) _ e1 in
      Kept-trans _ _ _ (upsert_snapshot-Kept chain_id row entry rows w)
        (promote_snapshots-Kept chain_id lookup inputs written e2)

-- What promotion leaves: every flag is kept, and nothing but the observations is touched.
pub record Promoted (before after : Tables) : Type 0 where
  pub flows : (id : Text) → Kept (flow_canonical id before.flows) (flow_canonical id after.flows)
  pub snapshots :
      (id : Text)
      → Kept (snapshot_canonical id before.snapshots) (snapshot_canonical id after.snapshots)
  pub reports : after.reports ≡ before.reports
  pub citations : after.citations ≡ before.citations
  pub invalidations : after.invalidations ≡ before.invalidations
  pub cursors : after.cursors ≡ before.cursors

unchanged : (tables : Tables) → Promoted tables tables
unchanged tables = record {
  flows = λ id. inl refl;
  snapshots = λ id. inl refl;
  reports = refl;
  citations = refl;
  invalidations = refl;
  cursors = refl;
}

promote_batch-Promoted :
    (p : Platform) (options : PromoteRangeOptions) (batch : Batch) (tables after : Tables)
    (result : PromoteRangeResult)
    → promote_batch p options batch tables ≡ ok (after, result)
    → Promoted tables after
unfolding promote_batch
promote_batch-Promoted p options batch tables after result e =
    let (_, e1) =
      throw_if-ok (not (accepted_versions options.accepted_schema_versions batch)) _ _ e in
    let (_, e2) = throw_if-ok (not (known_vaults options.lookup batch)) _ _ e1 in
    let (flows, f, e3) =
      >>=-eq-ok (promote_flows p options.lookup (flow_inputs batch) tables.flows) _ e2 in
    let (snapshots, s, e4) =
      >>=-eq-ok
        (promote_snapshots p options.chain_id options.lookup batch.snapshots tables.snapshots) _
        e3 in
    subst (λ t. Promoted tables t) (ap (λ t. t.0) (ok_inj e4))
      (record {
        flows = λ id. promote_flows-Kept p id options.lookup (flow_inputs batch) tables.flows f;
        snapshots = λ id.
            promote_snapshots-Kept p id options.chain_id options.lookup batch.snapshots
              tables.snapshots s;
        reports = refl;
        citations = refl;
        invalidations = refl;
        cursors = refl;
      })

-- Promotion, and promotion again, keeps the flag of every observation that stands: one that a
-- reorganisation withdrew is not restored, and none is withdrawn. A new observation is canonical, and
-- no report, citation, audit row or cursor is touched.
pub promote_range-Promoted :
    (p : Platform) (options : PromoteRangeOptions) (staging : Staging) (tables after : Tables)
    (result : PromoteRangeResult)
    → promote_range p options staging tables ≡ ok (after, result)
    → Promoted tables after
unfolding promote_range
promote_range-Promoted p options staging tables after result e =
    by_cases (if-cases (ltb options.to_block options.from_block) e)
  where
    batch : Batch
    batch = read_batch options.chain_id options.from_block options.to_block staging

    by_cases :
        ((ltb options.to_block options.from_block ≡ true)
            × (the_ok Failure {A = Tables × PromoteRangeResult} (tables, nothing_promoted)
                ≡ ok (after, result)))
          ⊎ ((ltb options.to_block options.from_block ≡ false)
              × (promote_batch p options batch tables ≡ ok (after, result)))
        → Promoted tables after
    by_cases (inl (_, done)) =
        subst (λ t. Promoted tables t) (ap (λ t. t.0) (ok_inj done)) (unchanged tables)
    by_cases (inr (_, ran)) = promote_batch-Promoted p options batch tables after result ran

-- ===== src/Observations/Upsert.antt =====
-- `INSERT ... ON CONFLICT (id) DO UPDATE` on the observations, as packages/db/src/repositories/
-- observations.ts writes it: `canonical` is not in the set that is updated.
use tr4ce_app.Prelude.{
  ◌≡◌, ◌⊎◌, inl, inr, sym, ◌∙◌, Bool, true, ◌&&◌, not, Option, none, some, List, [], ◌∷◌, Result,
  ok, ◌>>◌, throw_if, is_some, any, arith, if◌then◌else◌, throw_if-ok, ok_inj, subst,
}
use tr4ce_app.Bytes.{Text, bytes_equal}
use tr4ce_app.Observations.Tables.{
  VaultFlow, VaultSnapshot, Failure, constraint_violation, flow_canonical, snapshot_canonical,
  same_event, flow_allowed, same_identity, snapshot_allowed,
}

-- The columns that are not in the set stay those of the stored row.
abbrev pub update_flow : VaultFlow → VaultFlow → VaultFlow
update_flow new stored = record new {
  id = stored.id;
  vault_id = stored.vault_id;
  chain_id = stored.chain_id;
  block_hash = stored.block_hash;
  transaction_hash = stored.transaction_hash;
  log_index = stored.log_index;
  kind = stored.kind;
  canonical = stored.canonical;
}

unfoldable pub write_flow : VaultFlow → List VaultFlow → List VaultFlow
write_flow new [] = new ∷ []
write_flow new (row ∷ rows) =
    let rest = write_flow new rows in
    if bytes_equal row.id new.id then update_flow new row ∷ rows else row ∷ rest

unfoldable pub upsert_flow_row : VaultFlow → List VaultFlow → Result Failure (List VaultFlow)
upsert_flow_row new rows = do
  throw_if (not (flow_allowed new)) constraint_violation
  throw_if (not (is_some (flow_canonical new.id rows)) && any (λ row. same_event new row) rows)
      constraint_violation
  ok (write_flow new rows)

abbrev pub update_snapshot : VaultSnapshot → VaultSnapshot → VaultSnapshot
update_snapshot new stored = record new {
  id = stored.id;
  vault_id = stored.vault_id;
  chain_id = stored.chain_id;
  block_hash = stored.block_hash;
  canonical = stored.canonical;
}

unfoldable pub write_snapshot : VaultSnapshot → List VaultSnapshot → List VaultSnapshot
write_snapshot new [] = new ∷ []
write_snapshot new (row ∷ rows) =
    let rest = write_snapshot new rows in
    if bytes_equal row.id new.id then update_snapshot new row ∷ rows else row ∷ rest

unfoldable pub upsert_snapshot_row :
    VaultSnapshot → List VaultSnapshot → Result Failure (List VaultSnapshot)
upsert_snapshot_row new rows = do
  throw_if (not (snapshot_allowed new)) constraint_violation
  throw_if
      (not (is_some (snapshot_canonical new.id rows)) && any (λ row. same_identity new row) rows)
      constraint_violation
  ok (write_snapshot new rows)

-- A flag after writes that withdraw nothing and restore nothing: as it was, or that of a new row.
abbrev pub Kept : Option Bool → Option Bool → Type 0
Kept before after = (after ≡ before) ⊎ ((before ≡ none) × (after ≡ some true))

pub Kept-trans : (a b c : Option Bool) → Kept a b → Kept b c → Kept a c
Kept-trans a b c (inl e) (inl f) = inl (f ∙ e)
Kept-trans a b c (inl e) (inr (f, g)) = inr (sym e ∙ f, g)
Kept-trans a b c (inr (e, f)) (inl g) = inr (e, g ∙ f)
Kept-trans a b c (inr (e, f)) (inr (g, h)) = cc

pub write_flow-Kept :
    (id : Text) (new : VaultFlow) (rows : List VaultFlow)
    → new.canonical ≡ true
    → Kept (flow_canonical id rows) (flow_canonical id (write_flow new rows))
unfolding flow_canonical write_flow
write_flow-Kept id new [] c = ground (arith, c)
write_flow-Kept id new (row ∷ rows) c = ground (arith, c, write_flow-Kept id new rows c)

pub write_snapshot-Kept :
    (id : Text) (new : VaultSnapshot) (rows : List VaultSnapshot)
    → new.canonical ≡ true
    → Kept (snapshot_canonical id rows) (snapshot_canonical id (write_snapshot new rows))
unfolding snapshot_canonical write_snapshot
write_snapshot-Kept id new [] c = ground (arith, c)
write_snapshot-Kept id new (row ∷ rows) c = ground (arith, c, write_snapshot-Kept id new rows c)

pub upsert_flow_row-Kept :
    (id : Text) (new : VaultFlow) (rows : List VaultFlow) {after : List VaultFlow}
    → new.canonical ≡ true
    → upsert_flow_row new rows ≡ ok after
    → Kept (flow_canonical id rows) (flow_canonical id after)
unfolding upsert_flow_row
upsert_flow_row-Kept id new rows c e =
    let (_, e1) = throw_if-ok (not (flow_allowed new)) _ _ e in
    let (_, e2) =
      throw_if-ok
        (not (is_some (flow_canonical new.id rows)) && any (λ row. same_event new row) rows) _ _
        e1 in
    subst (λ rs. Kept (flow_canonical id rows) (flow_canonical id rs)) (ok_inj e2)
      (write_flow-Kept id new rows c)

pub upsert_snapshot_row-Kept :
    (id : Text) (new : VaultSnapshot) (rows : List VaultSnapshot) {after : List VaultSnapshot}
    → new.canonical ≡ true
    → upsert_snapshot_row new rows ≡ ok after
    → Kept (snapshot_canonical id rows) (snapshot_canonical id after)
unfolding upsert_snapshot_row
upsert_snapshot_row-Kept id new rows c e =
    let (_, e1) = throw_if-ok (not (snapshot_allowed new)) _ _ e in
    let (_, e2) =
      throw_if-ok
        (not (is_some (snapshot_canonical new.id rows)) && any (λ row. same_identity new row) rows)
        _ _ e1 in
    subst (λ rs. Kept (snapshot_canonical id rows) (snapshot_canonical id rs)) (ok_inj e2)
      (write_snapshot-Kept id new rows c)

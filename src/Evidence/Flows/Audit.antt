-- ===== src/Evidence/Flows/Audit.antt =====
-- Nothing is dropped and nothing depends on the order of the rows, packages/evidence/src/flows.ts.
use mathlib.Core.List.{Perm, Permᴰ}
use mathlib.Core.Logic.{∥∥₁_elim}
use mathlib.Core.Path.{ap₂}
use tr4ce_app.Prelude.{ℕ, ◌+◌, ◌≡◌, refl, sym, ap, ◌∙◌, List, [], ◌∷◌, arith, length}
use tr4ce_app.Prelude.Int.{ℤ, ◌+ℤ◌, ◌-ℤ◌, sums}
use tr4ce_app.Evidence.Flows.{FlowRow, FlowAggregate, aggregate_flows}
use tr4ce_app.Evidence.Flows.Totals.{
  Entry, deposited, withdrawn, entry_of, entries, total, count, is_deposited, is_withdrawal,
  is_minted, is_burned, is_moved, is_orphaned, is_unpriced, deposit_of, withdrawal_of, aggregate_of,
  aggregate_flows-total,
}

one_sort :
    (e : Entry)
    → is_deposited e
        + is_withdrawal e
        + is_minted e
        + is_burned e
        + is_moved e
        + is_orphaned e
        + is_unpriced e
      ≡ 1
one_sort (deposited a) = refl
one_sort (withdrawn a) = refl
one_sort _ = refl

counts_add_up :
    (rows : List FlowRow)
    → let es = entries rows in
      count is_deposited es
        + count is_withdrawal es
        + count is_minted es
        + count is_burned es
        + count is_moved es
        + count is_orphaned es
        + count is_unpriced es
      ≡ length rows
counts_add_up [] = refl
counts_add_up (row ∷ rows) = omega (arith, one_sort (entry_of row), counts_add_up rows)

-- Every row is accounted for exactly once: as a deposit, as a withdrawal, or under one of the five
-- reasons for leaving it out.
pub aggregate_flows-accounts :
    (rows : List FlowRow)
    → let a = aggregate_flows rows in
      a.deposit_count + a.withdrawal_count + a.excluded.mints + a.excluded.burns
        + a.excluded.transfers + a.excluded.non_canonical + a.excluded.missing_assets
      ≡ length rows
aggregate_flows-accounts rows = rw (aggregate_flows-total rows) (counts_add_up rows)

total-perm :
    (f : Entry → ℤ) {xs ys : List FlowRow}
    → Permᴰ xs ys
    → total f (entries xs) ≡ total f (entries ys)
total-perm f Permᴰ.nil = refl
total-perm f (Permᴰ.cons e p) = ap₂ ◌+ℤ◌ (ap (λ r. f (entry_of r)) e) (total-perm f p)
total-perm f (Permᴰ.swap {a} {b} {a'} {b'} {l} e d) = rw (e, d) (omega sums)
total-perm f (Permᴰ.trans p q) = total-perm f p ∙ total-perm f q

count-perm :
    (f : Entry → ℕ) {xs ys : List FlowRow}
    → Permᴰ xs ys
    → count f (entries xs) ≡ count f (entries ys)
count-perm f Permᴰ.nil = refl
count-perm f (Permᴰ.cons e p) = ap₂ ◌+◌ (ap (λ r. f (entry_of r)) e) (count-perm f p)
count-perm f (Permᴰ.swap {a} {b} {a'} {b'} {l} e d) = rw (e, d) (omega arith)
count-perm f (Permᴰ.trans p q) = count-perm f p ∙ count-perm f q

aggregate_of-perm :
    {xs ys : List FlowRow} → Permᴰ xs ys → aggregate_of (entries xs) ≡ aggregate_of (entries ys)
aggregate_of-perm p = λ i. record {
  deposited_assets = total-perm deposit_of p i;
  withdrawn_assets = total-perm withdrawal_of p i;
  net_flow_assets = total-perm deposit_of p i -ℤ total-perm withdrawal_of p i;
  deposit_count = count-perm is_deposited p i;
  withdrawal_count = count-perm is_withdrawal p i;
  excluded = record {
    mints = count-perm is_minted p i;
    burns = count-perm is_burned p i;
    transfers = count-perm is_moved p i;
    non_canonical = count-perm is_orphaned p i;
    missing_assets = count-perm is_unpriced p i;
  };
}

FlowAggregate-set : IsSet FlowAggregate
FlowAggregate-set = hlevel

-- Two readings of the same rows in different orders have the same aggregate.
pub aggregate_flows-perm :
    (xs ys : List FlowRow) → Perm xs ys → aggregate_flows xs ≡ aggregate_flows ys
aggregate_flows-perm xs ys p =
    ∥∥₁_elim p (FlowAggregate-set _ _)
      (λ d. aggregate_flows-total xs ∙ aggregate_of-perm d ∙ sym (aggregate_flows-total ys))

-- ===== src/Evidence/Flows/Totals.antt =====
-- The totals of packages/evidence/src/flows.ts are sums over the rows, in any order.
use mathlib.Core.List.{foldl}
use tr4ce_app.Prelude.{
  ℕ, ◌+◌, ◌≡◌, sym, ap, subst, ◌∙◌, Bool, true, false, Option, none, some, List, [], ◌∷◌, arith,
}
use tr4ce_app.Prelude.Int.{ℤ, pos, ◌+ℤ◌, ◌-ℤ◌, +ℤ_assoc, sums}
use tr4ce_app.Domain.{FlowKind, TransferKind}
use tr4ce_app.Evidence.Flows.{FlowRow, FlowAggregate, Sums, no_sums, add_row, aggregate_flows}

-- What one row stands for, as the comment above `aggregateFlows` lists it.
pub data Entry : Type 0 where
  deposited : ℤ → Entry
  withdrawn : ℤ → Entry
  minted burned moved orphaned unpriced : Entry

abbrev pub entry_of_assets : FlowKind → Option ℤ → Option TransferKind → Entry
entry_of_assets FlowKind.deposit (some a) t = deposited a
entry_of_assets FlowKind.deposit none t = unpriced
entry_of_assets FlowKind.withdraw (some a) t = withdrawn a
entry_of_assets FlowKind.withdraw none t = unpriced
entry_of_assets FlowKind.share_transfer a (some TransferKind.mint) = minted
entry_of_assets FlowKind.share_transfer a (some TransferKind.burn) = burned
entry_of_assets FlowKind.share_transfer a (some TransferKind.transfer) = moved
entry_of_assets FlowKind.share_transfer a (some TransferKind.unspecified) = moved
entry_of_assets FlowKind.share_transfer a none = moved

abbrev pub entry : Bool → FlowKind → Option ℤ → Option TransferKind → Entry
entry false kind a t = orphaned
entry true kind a t = entry_of_assets kind a t

abbrev pub entry_of : FlowRow → Entry
entry_of row = entry row.canonical row.kind row.assets row.transfer_kind

abbrev add_entry : Sums → Entry → Sums
add_entry s (deposited a) = record s {
  deposited = s.deposited +ℤ a;
  deposit_count = s.deposit_count + 1;
}
add_entry s (withdrawn a) = record s {
  withdrawn = s.withdrawn +ℤ a;
  withdrawal_count = s.withdrawal_count + 1;
}
add_entry s minted = record s { excluded = record (s.excluded) { mints = s.excluded.mints + 1 } }
add_entry s burned = record s { excluded = record (s.excluded) { burns = s.excluded.burns + 1 } }
add_entry s moved = record s {
  excluded = record (s.excluded) { transfers = s.excluded.transfers + 1 };
}
add_entry s orphaned = record s {
  excluded = record (s.excluded) { non_canonical = s.excluded.non_canonical + 1 };
}
add_entry s unpriced = record s {
  excluded = record (s.excluded) { missing_assets = s.excluded.missing_assets + 1 };
}

add_row-entry : (s : Sums) (row : FlowRow) → add_row s row ≡ add_entry s (entry_of row)
unfolding add_row
add_row-entry s row = ground arith

abbrev pub deposit_of : Entry → ℤ
deposit_of (deposited a) = a
deposit_of _ = pos 0

abbrev pub withdrawal_of : Entry → ℤ
withdrawal_of (withdrawn a) = a
withdrawal_of _ = pos 0

abbrev pub is_deposited : Entry → ℕ
is_deposited (deposited a) = 1
is_deposited _ = 0

abbrev pub is_withdrawal : Entry → ℕ
is_withdrawal (withdrawn a) = 1
is_withdrawal _ = 0

abbrev pub is_minted : Entry → ℕ
is_minted minted = 1
is_minted _ = 0

abbrev pub is_burned : Entry → ℕ
is_burned burned = 1
is_burned _ = 0

abbrev pub is_moved : Entry → ℕ
is_moved moved = 1
is_moved _ = 0

abbrev pub is_orphaned : Entry → ℕ
is_orphaned orphaned = 1
is_orphaned _ = 0

abbrev pub is_unpriced : Entry → ℕ
is_unpriced unpriced = 1
is_unpriced _ = 0

-- The sum of an amount over the entries.
abbrev pub total : (Entry → ℤ) → List Entry → ℤ
total f [] = pos 0
total f (e ∷ es) = f e +ℤ total f es

-- How many entries are of one sort.
abbrev pub count : (Entry → ℕ) → List Entry → ℕ
count f [] = 0
count f (e ∷ es) = f e + count f es

abbrev pub entries : List FlowRow → List Entry
entries [] = []
entries (row ∷ rows) = entry_of row ∷ entries rows

record IsSum (s : Sums) (es : List Entry) (r : Sums) : Type 0 where
  deposits : r.deposited ≡ s.deposited +ℤ total deposit_of es
  withdrawals : r.withdrawn ≡ s.withdrawn +ℤ total withdrawal_of es
  deposit_count : r.deposit_count ≡ s.deposit_count + count is_deposited es
  withdrawal_count : r.withdrawal_count ≡ s.withdrawal_count + count is_withdrawal es
  mints : r.excluded.mints ≡ s.excluded.mints + count is_minted es
  burns : r.excluded.burns ≡ s.excluded.burns + count is_burned es
  transfers : r.excluded.transfers ≡ s.excluded.transfers + count is_moved es
  non_canonical : r.excluded.non_canonical ≡ s.excluded.non_canonical + count is_orphaned es
  missing_assets : r.excluded.missing_assets ≡ s.excluded.missing_assets + count is_unpriced es

+ℤ-zero : (a : ℤ) → a ≡ a +ℤ pos 0
+ℤ-zero a = omega sums

zero-+ℤ : (t : ℤ) → t ≡ pos 0 +ℤ t
zero-+ℤ t = omega sums

module _ (s : Sums) (es : List Entry) {r : Sums} where
  IsSum-cons : (e : Entry) → IsSum (add_entry s e) es r → IsSum s (e ∷ es) r
  IsSum-cons (deposited a) h = record {
    deposits = h.deposits ∙ +ℤ_assoc s.deposited a (total deposit_of es);
    withdrawals = h.withdrawals ∙ ap (λ t. s.withdrawn +ℤ t) (zero-+ℤ _);
    deposit_count = omega (arith, h.deposit_count);
    withdrawal_count = omega (arith, h.withdrawal_count);
    mints = omega (arith, h.mints);
    burns = omega (arith, h.burns);
    transfers = omega (arith, h.transfers);
    non_canonical = omega (arith, h.non_canonical);
    missing_assets = omega (arith, h.missing_assets);
  }
  IsSum-cons (withdrawn a) h = record {
    deposits = h.deposits ∙ ap (λ t. s.deposited +ℤ t) (zero-+ℤ _);
    withdrawals = h.withdrawals ∙ +ℤ_assoc s.withdrawn a (total withdrawal_of es);
    deposit_count = omega (arith, h.deposit_count);
    withdrawal_count = omega (arith, h.withdrawal_count);
    mints = omega (arith, h.mints);
    burns = omega (arith, h.burns);
    transfers = omega (arith, h.transfers);
    non_canonical = omega (arith, h.non_canonical);
    missing_assets = omega (arith, h.missing_assets);
  }
  IsSum-cons e h = record {
    deposits = h.deposits ∙ ap (λ t. s.deposited +ℤ t) (zero-+ℤ _);
    withdrawals = h.withdrawals ∙ ap (λ t. s.withdrawn +ℤ t) (zero-+ℤ _);
    deposit_count = omega (arith, h.deposit_count);
    withdrawal_count = omega (arith, h.withdrawal_count);
    mints = omega (arith, h.mints);
    burns = omega (arith, h.burns);
    transfers = omega (arith, h.transfers);
    non_canonical = omega (arith, h.non_canonical);
    missing_assets = omega (arith, h.missing_assets);
  }

fold-IsSum : (s : Sums) (rows : List FlowRow) → IsSum s (entries rows) (foldl add_row s rows)
fold-IsSum s [] = record {
  deposits = +ℤ-zero s.deposited;
  withdrawals = +ℤ-zero s.withdrawn;
  deposit_count = omega arith;
  withdrawal_count = omega arith;
  mints = omega arith;
  burns = omega arith;
  transfers = omega arith;
  non_canonical = omega arith;
  missing_assets = omega arith;
}
fold-IsSum s (row ∷ rows) = IsSum-cons s (entries rows) (entry_of row) (
    subst (λ t. IsSum t (entries rows) (foldl add_row (add_row s row) rows)) (add_row-entry s row)
      (fold-IsSum (add_row s row) rows))

-- The aggregate that the entries determine by themselves.
abbrev pub aggregate_of : List Entry → FlowAggregate
aggregate_of es = record {
  deposited_assets = total deposit_of es;
  withdrawn_assets = total withdrawal_of es;
  net_flow_assets = total deposit_of es -ℤ total withdrawal_of es;
  deposit_count = count is_deposited es;
  withdrawal_count = count is_withdrawal es;
  excluded = record {
    mints = count is_minted es;
    burns = count is_burned es;
    transfers = count is_moved es;
    non_canonical = count is_orphaned es;
    missing_assets = count is_unpriced es;
  };
}

-- The loop computes the aggregate of its rows: the asset totals are the sums over the canonical
-- deposits and withdrawals whose amount is known, the net flow is their difference, and every other
-- row is counted by the reason why it is left out.
pub aggregate_flows-total :
    (rows : List FlowRow) → aggregate_flows rows ≡ aggregate_of (entries rows)
unfolding aggregate_flows
aggregate_flows-total rows = λ i. record {
  deposited_assets = deposits i;
  withdrawn_assets = withdrawals i;
  net_flow_assets = deposits i -ℤ withdrawals i;
  deposit_count = from_zero h.deposit_count i;
  withdrawal_count = from_zero h.withdrawal_count i;
  excluded = record {
    mints = from_zero h.mints i;
    burns = from_zero h.burns i;
    transfers = from_zero h.transfers i;
    non_canonical = from_zero h.non_canonical i;
    missing_assets = from_zero h.missing_assets i;
  };
}
  where
    h : IsSum no_sums (entries rows) (foldl add_row no_sums rows)
    h = fold-IsSum no_sums rows

    deposits : (foldl add_row no_sums rows).deposited ≡ total deposit_of (entries rows)
    deposits = h.deposits ∙ sym (zero-+ℤ _)

    withdrawals : (foldl add_row no_sums rows).withdrawn ≡ total withdrawal_of (entries rows)
    withdrawals = h.withdrawals ∙ sym (zero-+ℤ _)

    from_zero : {n k : ℕ} → n ≡ 0 + k → n ≡ k
    from_zero e = omega arith

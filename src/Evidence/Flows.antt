-- ===== src/Evidence/Flows.antt =====
-- packages/evidence/src/flows.ts: what entered and left a vault, and what the totals leave out.
pub mod Totals
pub mod Audit
use mathlib.Core.List.{foldl}
use tr4ce_app.Prelude.{ℕ, ◌+◌, Bool, true, false, Option, none, some, List, if◌then◌else◌, not}
use tr4ce_app.Prelude.Int.{ℤ, pos, ◌+ℤ◌, ◌-ℤ◌}
use tr4ce_app.Domain.{FlowKind, TransferKind}

pub record FlowRow : Type 0 where
  pub kind : FlowKind
  pub transfer_kind : Option TransferKind
  pub assets : Option ℤ
  pub shares : ℤ
  pub canonical : Bool

pub record Excluded : Type 0 where
  pub mints : ℕ
  pub burns : ℕ
  pub transfers : ℕ
  pub non_canonical : ℕ
  pub missing_assets : ℕ

-- The variables of the loop.
pub record Sums : Type 0 where
  pub deposited : ℤ
  pub withdrawn : ℤ
  pub deposit_count : ℕ
  pub withdrawal_count : ℕ
  pub excluded : Excluded

pub record FlowAggregate : Type 0 where
  pub deposited_assets : ℤ
  pub withdrawn_assets : ℤ
  pub net_flow_assets : ℤ
  pub deposit_count : ℕ
  pub withdrawal_count : ℕ
  pub excluded : Excluded

abbrev pub no_sums : Sums
no_sums = record {
  deposited = pos 0;
  withdrawn = pos 0;
  deposit_count = 0;
  withdrawal_count = 0;
  excluded = record { mints = 0; burns = 0; transfers = 0; non_canonical = 0; missing_assets = 0 };
}

pub exclude_transfer : Option TransferKind → Excluded → Excluded
exclude_transfer (some TransferKind.mint) e = record e { mints = e.mints + 1 }
exclude_transfer (some TransferKind.burn) e = record e { burns = e.burns + 1 }
exclude_transfer (some TransferKind.transfer) e = record e { transfers = e.transfers + 1 }
exclude_transfer (some TransferKind.unspecified) e = record e { transfers = e.transfers + 1 }
exclude_transfer none e = record e { transfers = e.transfers + 1 }

-- A canonical deposit or withdrawal.
pub add_assets : FlowKind → Option ℤ → Sums → Sums
add_assets kind none s = record s {
  excluded = record (s.excluded) { missing_assets = s.excluded.missing_assets + 1 };
}
add_assets FlowKind.deposit (some a) s = record s {
  deposited = s.deposited +ℤ a;
  deposit_count = s.deposit_count + 1;
}
add_assets FlowKind.withdraw (some a) s = record s {
  withdrawn = s.withdrawn +ℤ a;
  withdrawal_count = s.withdrawal_count + 1;
}
add_assets FlowKind.share_transfer (some a) s = record s {
  withdrawn = s.withdrawn +ℤ a;
  withdrawal_count = s.withdrawal_count + 1;
}

abbrev pub is_transfer : FlowKind → Bool
is_transfer FlowKind.share_transfer = true
is_transfer FlowKind.deposit = false
is_transfer FlowKind.withdraw = false

-- The body of the loop.
pub add_row : Sums → FlowRow → Sums
unfolding exclude_transfer add_assets
add_row s row =
    if not row.canonical
    then record s {
      excluded = record (s.excluded) { non_canonical = s.excluded.non_canonical + 1 };
    }
    else if is_transfer row.kind
    then record s { excluded = exclude_transfer row.transfer_kind s.excluded }
    else add_assets row.kind row.assets s

unfoldable pub aggregate_flows : List FlowRow → FlowAggregate
unfolding add_row
aggregate_flows rows =
    let s = foldl add_row no_sums rows in
    record {
      deposited_assets = s.deposited;
      withdrawn_assets = s.withdrawn;
      net_flow_assets = s.deposited -ℤ s.withdrawn;
      deposit_count = s.deposit_count;
      withdrawal_count = s.withdrawal_count;
      excluded = s.excluded;
    }

-- ===== src/Observations/Promote/Complete.antt =====
-- What a run of `promoteRange` of packages/db/src/repositories/observations.ts covers.
use tr4ce_app.Prelude.{
  ℕ, ◌<◌, ◌≡◌, ◌≢◌, ◌⊎◌, inl, inr, sym, ap, subst, true, false, not, List, ◌++◌, map, ok, arith,
  All, All-Member, Member-keep, Member-map, Member-left, Member-right, Bool-cases, ltb, if-cases,
  the_ok, throw_if-ok, ok_inj, >>=-eq-ok,
}
use tr4ce_app.Platform.{Platform}
use tr4ce_app.Domain.{FlowKind}
use tr4ce_app.Observations.Tables.{Tables, Failure}
use tr4ce_app.Observations.Staging.{Staging, in_range}
use tr4ce_app.Observations.Promote.{
  PromoteRangeOptions, PromoteRangeResult, FlowUpsert, of_deposit, of_withdrawal, of_transfer,
  promote_flows, promote_snapshots, Batch, flow_inputs, accepted_versions, known_vaults,
  promote_batch, read_batch, promote_range, nothing_promoted,
}
use tr4ce_app.Observations.Promote.Copied.{
  FlowThere, SnapshotThere, promote_flows-there, promote_snapshots-there,
}

-- Of another chain, or outside the range.
abbrev pub Outside : ℕ → ℕ → ℕ → ℕ → ℕ → Type 0
Outside chain_id from_block to_block chain block =
    (chain ≢ chain_id) ⊎ ((block < from_block) ⊎ (to_block < block))

-- Every row of the sink that is of the chain and in the range, its ends included, has its row.
pub record Copied (p : Platform) (chain_id from_block to_block : ℕ) (staging : Staging)
    (after : Tables) : Type 0 where
  pub deposits :
      All
        (λ d.
          Outside chain_id from_block to_block d.event.chain_id d.event.block_number
          ⊎ FlowThere p FlowKind.deposit d.event after.flows)
        staging.deposits
  pub withdrawals :
      All
        (λ w.
          Outside chain_id from_block to_block w.event.chain_id w.event.block_number
          ⊎ FlowThere p FlowKind.withdraw w.event after.flows)
        staging.withdrawals
  pub transfers :
      All
        (λ t.
          Outside chain_id from_block to_block t.event.chain_id t.event.block_number
          ⊎ FlowThere p FlowKind.share_transfer t.event after.flows)
        staging.transfers
  pub snapshots :
      All
        (λ s.
          Outside chain_id from_block to_block s.chain_id s.block_number
          ⊎ SnapshotThere p chain_id s after.snapshots)
        staging.snapshots

pub Copied-same :
    (p : Platform) (chain_id from_block to_block : ℕ) (staging : Staging) (middle after : Tables)
    → after.flows ≡ middle.flows
    → after.snapshots ≡ middle.snapshots
    → Copied p chain_id from_block to_block staging middle
    → Copied p chain_id from_block to_block staging after
Copied-same p chain_id from_block to_block staging middle after f s c = record {
  deposits =
      subst
        (λ rows.
          All
            (λ d.
              Outside chain_id from_block to_block d.event.chain_id d.event.block_number
              ⊎ FlowThere p FlowKind.deposit d.event rows)
            staging.deposits)
        (sym f) c.deposits;
  withdrawals =
      subst
        (λ rows.
          All
            (λ w.
              Outside chain_id from_block to_block w.event.chain_id w.event.block_number
              ⊎ FlowThere p FlowKind.withdraw w.event rows)
            staging.withdrawals)
        (sym f) c.withdrawals;
  transfers =
      subst
        (λ rows.
          All
            (λ t.
              Outside chain_id from_block to_block t.event.chain_id t.event.block_number
              ⊎ FlowThere p FlowKind.share_transfer t.event rows)
            staging.transfers)
        (sym f) c.transfers;
  snapshots =
      subst
        (λ rows.
          All
            (λ r.
              Outside chain_id from_block to_block r.chain_id r.block_number
              ⊎ SnapshotThere p chain_id r rows)
            staging.snapshots)
        (sym s) c.snapshots;
}

in_range-cases :
    (chain_id from_block to_block chain block : ℕ)
    → (in_range chain_id from_block to_block chain block ≡ true)
      ⊎ Outside chain_id from_block to_block chain block
in_range-cases chain_id from_block to_block chain block = ground arith

Outside-empty :
    (chain_id from_block to_block chain block : ℕ)
    → ltb to_block from_block ≡ true
    → Outside chain_id from_block to_block chain block
Outside-empty chain_id from_block to_block chain block h =
    inr (by_order (ground (arith, h)) (Bool-cases (ltb block from_block)))
  where
    by_order :
        to_block < from_block
        → (ltb block from_block ≡ true) ⊎ (ltb block from_block ≡ false)
        → (block < from_block) ⊎ (to_block < block)
    by_order h (inl below) = inl (ground (arith, below))
    by_order h (inr above) = inr (ground (arith, above, h))

module _ (p : Platform) (options : PromoteRangeOptions) (staging : Staging) where
  batch : Batch
  batch = read_batch options.chain_id options.from_block options.to_block staging

  promote_batch-Copied :
      (tables after : Tables) (result : PromoteRangeResult)
      → promote_batch p options batch tables ≡ ok (after, result)
      → Copied p options.chain_id options.from_block options.to_block staging after
  unfolding promote_batch batch read_batch
  promote_batch-Copied tables after result e =
      let (_, e1) =
        throw_if-ok (not (accepted_versions options.accepted_schema_versions batch)) _ _ e in
      let (_, e2) = throw_if-ok (not (known_vaults options.lookup batch)) _ _ e1 in
      let (flows, f, e3) =
        >>=-eq-ok (promote_flows p options.lookup (flow_inputs batch) tables.flows) _ e2 in
      let (snapshots, s, e4) =
        >>=-eq-ok
          (promote_snapshots p options.chain_id options.lookup batch.snapshots tables.snapshots) _
          e3 in
      subst (λ t. Copied p options.chain_id options.from_block options.to_block staging t)
        (ap (λ t. t.0) (ok_inj e4))
        (record {
          deposits = All-Member staging.deposits (λ d m. within _ _ _ (λ inside.
              promote_flows-there p options.lookup (flow_inputs batch) tables.flows (of_deposit d) f
                (Member-left (of_deposit d) (deposited ++ withdrawn) transferred (
                  Member-left (of_deposit d) deposited withdrawn (
                    Member-map of_deposit batch.deposits d
                      (Member-keep _ staging.deposits d m inside))))));
          withdrawals = All-Member staging.withdrawals (λ w m. within _ _ _ (λ inside.
              promote_flows-there p options.lookup (flow_inputs batch) tables.flows
                (of_withdrawal w) f
                (Member-left (of_withdrawal w) (deposited ++ withdrawn) transferred (
                  Member-right (of_withdrawal w) deposited withdrawn (
                    Member-map of_withdrawal batch.withdrawals w
                      (Member-keep _ staging.withdrawals w m inside))))));
          transfers = All-Member staging.transfers (λ t m. within _ _ _ (λ inside.
              promote_flows-there p options.lookup (flow_inputs batch) tables.flows (of_transfer t)
                f
                (Member-right (of_transfer t) (deposited ++ withdrawn) transferred (
                  Member-map of_transfer batch.transfers t
                    (Member-keep _ staging.transfers t m inside)))));
          snapshots = All-Member staging.snapshots (λ row m. within _ _ _ (λ inside.
              promote_snapshots-there p options.chain_id options.lookup batch.snapshots
                tables.snapshots row s (Member-keep _ staging.snapshots row m inside)));
        })
    where
      deposited : List FlowUpsert
      deposited = map of_deposit batch.deposits

      withdrawn : List FlowUpsert
      withdrawn = map of_withdrawal batch.withdrawals

      transferred : List FlowUpsert
      transferred = map of_transfer batch.transfers

      within :
          (chain block : ℕ) (There : Type 0)
          → (in_range options.chain_id options.from_block options.to_block chain block ≡ true
              → There)
          → Outside options.chain_id options.from_block options.to_block chain block ⊎ There
      within chain block There inside =
          elim (in_range-cases options.chain_id options.from_block options.to_block chain block) [
            | inl h ↦ inr (inside h)
            | inr out ↦ inl out
          ]

  empty-Copied :
      (tables : Tables)
      → ltb options.to_block options.from_block ≡ true
      → Copied p options.chain_id options.from_block options.to_block staging tables
  empty-Copied tables h = record {
    deposits = All-Member staging.deposits (λ d m. inl (Outside-empty _ _ _ _ _ h));
    withdrawals = All-Member staging.withdrawals (λ w m. inl (Outside-empty _ _ _ _ _ h));
    transfers = All-Member staging.transfers (λ t m. inl (Outside-empty _ _ _ _ _ h));
    snapshots = All-Member staging.snapshots (λ s m. inl (Outside-empty _ _ _ _ _ h));
  }

  -- A promotion that succeeds leaves no row of the sink out that is of its chain and in its range: the
  -- flow of every deposit, withdrawal and transfer, and every snapshot, is in the tables.
  pub promote_range-Copied :
      (tables after : Tables) (result : PromoteRangeResult)
      → promote_range p options staging tables ≡ ok (after, result)
      → Copied p options.chain_id options.from_block options.to_block staging after
  unfolding promote_range batch
  promote_range-Copied tables after result e =
      by_cases (if-cases (ltb options.to_block options.from_block) e)
    where
      by_cases :
          ((ltb options.to_block options.from_block ≡ true)
              × (the_ok Failure {A = Tables × PromoteRangeResult} (tables, nothing_promoted)
                  ≡ ok (after, result)))
            ⊎ ((ltb options.to_block options.from_block ≡ false)
                × (promote_batch p options batch tables ≡ ok (after, result)))
          → Copied p options.chain_id options.from_block options.to_block staging after
      by_cases (inl (h, done)) =
          subst (λ t. Copied p options.chain_id options.from_block options.to_block staging t)
            (ap (λ t. t.0) (ok_inj done)) (empty-Copied tables h)
      by_cases (inr (_, ran)) = promote_batch-Copied tables after result ran

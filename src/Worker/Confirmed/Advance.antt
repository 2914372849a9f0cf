-- ===== src/Worker/Confirmed/Advance.antt =====
-- What one run of apps/worker/src/promote-confirmed.ts achieves.
use tr4ce_app.Prelude.{
  ℕ, ◌+◌, ◌≤◌, ◌≡◌, ◌⊎◌, inl, inr, refl, sym, ap, ◌∙◌, subst, Option, none, some, ok, arith,
  Option-cases, >>=-eq-ok, ok_inj, is_some, true,
}
use tr4ce_app.Prelude.Int.{ℤ, pos, negsuc, pos_part, ◌≤ℤ◌, ◌<ℤ◌, +ℤ_parts}
use tr4ce_app.Platform.{Platform}
use tr4ce_app.Observations.Tables.{Tables, chain_not_registered, provider_has_no_block}
use tr4ce_app.Observations.Registry.{NetworkRow, read_network}
use tr4ce_app.Observations.Staging.{read_sink_head}
use tr4ce_app.Observations.Promote.{required, promote_range}
use tr4ce_app.Observations.Promote.Complete.{Copied, Copied-same, promote_range-Copied}
use tr4ce_app.Observations.Sound.Reports.{required-some}
use tr4ce_app.Observations.Promote.Flags.{Promoted, promote_range-Promoted}
use tr4ce_app.Observations.Cursors.{
  OnlyCursor, write_application_cursor, write_application_cursor-read,
}
use tr4ce_app.Worker.Promotion.{promotion_ceiling, RangeInput, BlockRange, from_of, next_range}
use tr4ce_app.Worker.Promotion.Ranges.{
  Limit, promotion_ceiling-Limit, promotion_ceiling-bounds, next_range-bounds, next_range-none,
}
use tr4ce_app.Worker.Confirmed.{
  World, PromoteOptions, PromoteOutcome, run_range, cursor_block, run_below, promote_confirmed,
}

-- The block after the cursor, or the window's start where there is none.
abbrev pub after_cursor : Option ℕ → ℕ → ℕ
after_cursor none window_start = window_start
after_cursor (some block) window_start = block + 1

-- The first block that the next run is to cover.
abbrev pub next_block : PromoteOptions → Tables → ℕ
next_block options tables = after_cursor (cursor_block options tables) options.window_start

from_of-after_cursor :
    (cursor : Option ℕ) (window_start : ℕ)
    → from_of cursor window_start ≡ after_cursor cursor window_start
from_of-after_cursor none window_start = refl
from_of-after_cursor (some block) window_start = refl

-- The ceiling of a run is that of the network that its registry has, and of what its sink has written.
abbrev pub Ceiling : PromoteOptions → World → Option ℤ → Type 0
Ceiling options world ceiling =
    (network : NetworkRow) × (read_network options.chain_id world.registry ≡ some network)
    × Limit options.rpc_head network.confirmation_depth (read_sink_head world.staging.sink_blocks)
        ceiling

-- Nothing is left up to the ceiling, unless a run may cover no block.
abbrev pub Passed : PromoteOptions → Tables → Option ℤ → Type 0
Passed options tables none = Unit
Passed options tables (some ceiling) =
    (options.max_blocks_per_run ≡ 0) ⊎ (ceiling <ℤ pos (next_block options tables))

abbrev pub CaughtUp : PromoteOptions → World → Tables → Option ℤ → Type 0
CaughtUp options world tables ceiling =
    Ceiling options world ceiling × Passed options tables ceiling

-- A range that was run: it starts where the last one ended, ends at or below the ceiling, and the cursor
-- stands at its end. Every row of the sink in the range is copied; the flags are kept, and nothing but the
-- observations and the cursor is written.
pub record Ran (p : Platform) (options : PromoteOptions) (world : World) (before after : Tables)
    (range : BlockRange) (ceiling : ℤ) (end : ℕ) : Type 0 where
  pub starts : range.from_block ≡ next_block options before
  pub ends : range.to_block ≡ pos end
  pub ordered : range.from_block ≤ end
  pub below_ceiling : pos end ≤ℤ ceiling
  pub below_head : end ≤ options.rpc_head
  pub cursor : cursor_block options after ≡ some end
  pub copied : Copied p options.chain_id range.from_block end world.staging after
  pub kept : (middle : Tables) × Promoted before middle × OnlyCursor middle after

parts :
    (from_block : ℕ) (to_block : ℤ) (head : ℕ)
    → pos from_block ≤ℤ to_block
    → to_block ≤ℤ pos head
    → (to_block ≡ pos (pos_part to_block))
      × (from_block ≤ pos_part to_block)
      × (pos_part to_block ≤ head)
parts from_block (pos n) head h l = (refl, omega arith, omega arith)
parts from_block (negsuc n) head h l = absurd (omega arith)

run_range-Ran :
    (p : Platform) (options : PromoteOptions) (world : World) (ceiling : ℤ) (range : BlockRange)
    (tables : Tables) {after : Tables} {outcome : PromoteOutcome}
    → pos range.from_block ≤ℤ range.to_block
    → range.from_block ≡ next_block options tables
    → range.to_block ≤ℤ ceiling
    → range.to_block ≤ℤ pos options.rpc_head
    → run_range p options world ceiling (some range) tables ≡ ok (after, outcome)
    → (outcome.range ≡ some range)
      × (is_some outcome.promoted ≡ true)
      × Ran p options world tables after range ceiling (pos_part range.to_block)
      × (outcome.ceiling ≡ some ceiling)
unfolding run_range
run_range-Ran p options world ceiling range tables {after = after} ordered starts under low e =
    let to_block = pos_part range.to_block in
    let (hash, _, e1) =
      >>=-eq-ok (required provider_has_no_block (world.canonical_hash_at to_block)) _ e in
    let (step, c, e2) = >>=-eq-ok (promote_range p _ world.staging tables) _ e1 in
    let (written, w, e3) = >>=-eq-ok (write_application_cursor _ step.0) _ e2 in
    let done = ok_inj e3 in
    let whole = parts range.from_block range.to_block options.rpc_head ordered low in
    let (read, only) = write_application_cursor-read _ step.0 w in
    (
      sym (ap (λ t. t.1.range) done),
      ap (λ t. is_some t.1.promoted) (sym done),
      record {
        starts = starts;
        ends = whole.0;
        ordered = whole.1;
        below_ceiling = subst (λ t. t ≤ℤ ceiling) whole.0 under;
        below_head = whole.2;
        cursor = ap (λ t. cursor_block options t.0) (sym done) ∙ read;
        copied =
            Copied-same p options.chain_id range.from_block to_block world.staging step.0 after
              (ap (λ t. t.0.flows) (sym done) ∙ only.flows)
              (ap (λ t. t.0.snapshots) (sym done) ∙ only.snapshots)
              (promote_range-Copied p _ world.staging tables step.0 step.1 c);
        kept = (
          step.0,
          promote_range-Promoted p _ world.staging tables step.0 step.1 c,
          subst (λ t. OnlyCursor step.0 t) (ap (λ t. t.0) done) only,
        );
      },
      ap (λ t. t.1.ceiling) (sym done),
    )

run_range-idle :
    (p : Platform) (options : PromoteOptions) (world : World) (ceiling : ℤ) (tables : Tables)
    {after : Tables} {outcome : PromoteOutcome}
    → run_range p options world ceiling none tables ≡ ok (after, outcome)
    → (outcome.range ≡ none)
      × (outcome.promoted ≡ none)
      × (after ≡ tables)
      × (outcome.ceiling ≡ some ceiling)
unfolding run_range
run_range-idle p options world ceiling tables e =
    let done = ok_inj e in
    (
      ap (λ t. t.1.range) (sym done),
      ap (λ t. t.1.promoted) (sym done),
      ap (λ t. t.0) (sym done),
      ap (λ t. t.1.ceiling) (sym done),
    )

≤ℤ_trans : (a b c : ℤ) → a ≤ℤ b → b ≤ℤ c → a ≤ℤ c
≤ℤ_trans a b c h k = omega arith

below_head :
    (rpc_head depth : ℕ) (sink_head : Option ℕ) (c : ℤ)
    → promotion_ceiling rpc_head depth sink_head ≡ some c
    → c ≤ℤ pos rpc_head
unfolding promotion_ceiling
below_head rpc_head depth none c e = cc
below_head rpc_head depth (some sink_head) c e =
    let (_, _, confirmed) = promotion_ceiling-bounds rpc_head depth sink_head c e in
    omega (arith, confirmed, +ℤ_parts c (pos depth))

-- Nothing to do, or a range that was run.
abbrev pub Advances : Platform → PromoteOptions → World → Tables → Tables → PromoteOutcome → Type 0
Advances p options world before after outcome =
    ((outcome.range ≡ none)
      × (outcome.promoted ≡ none)
      × (after ≡ before)
      × CaughtUp options world before outcome.ceiling)
    ⊎ ((range : BlockRange) × (ceiling : ℤ) × (end : ℕ) × (outcome.range ≡ some range)
        × (is_some outcome.promoted ≡ true)
        × (outcome.ceiling ≡ some ceiling)
        × Ceiling options world (some ceiling)
        × Ran p options world before after range ceiling end)

run_below-Advances :
    (p : Platform) (options : PromoteOptions) (world : World) (ceiling : Option ℤ) (tables : Tables)
    {after : Tables} {outcome : PromoteOutcome}
    → ((c : ℤ) → ceiling ≡ some c → c ≤ℤ pos options.rpc_head)
    → Ceiling options world ceiling
    → run_below p options world ceiling tables ≡ ok (after, outcome)
    → Advances p options world tables after outcome
unfolding run_below
run_below-Advances p options world none tables low limit e =
    let done = ok_inj e in
    inl (
      ap (λ t. t.1.range) (sym done),
      ap (λ t. t.1.promoted) (sym done),
      ap (λ t. t.0) (sym done),
      subst (λ t. CaughtUp options world tables t.1.ceiling) done (limit, tt),
    )
run_below-Advances p options world (some ceiling) tables {after = after} {outcome = outcome} low
      limit e =
    by_range e (Option-cases (next_range input))
  where
    input : RangeInput
    input = record {
      cursor_block = cursor_block options tables;
      ceiling = ceiling;
      window_start = options.window_start;
      max_blocks_per_run = options.max_blocks_per_run;
    }

    starts_at :
        from_of (cursor_block options tables) options.window_start ≡ next_block options tables
    starts_at = from_of-after_cursor (cursor_block options tables) options.window_start

    by_range :
        run_range p options world ceiling (next_range input) tables ≡ ok (after, outcome)
        → (next_range input ≡ none) ⊎ ((range : BlockRange) × (next_range input ≡ some range))
        → Advances p options world tables after outcome
    by_range e (inl found) =
        let run =
          subst (λ o. run_range p options world ceiling o tables ≡ ok (after, outcome)) found e in
        let (nothing, unset, same, reached) = run_range-idle p options world ceiling tables run in
        inl (
          nothing,
          unset,
          same,
          subst (CaughtUp options world tables) (sym reached) (
            limit,
            subst (λ n. (options.max_blocks_per_run ≡ 0) ⊎ (ceiling <ℤ pos n)) starts_at
                (next_range-none input found),
          ),
        )
    by_range e (inr (range, found)) =
        let (start, ordered, below, _) = next_range-bounds input range found in
        let run =
          subst (λ o. run_range p options world ceiling o tables ≡ ok (after, outcome)) found e in
        let (same, set, ran, at) =
          run_range-Ran p options world ceiling range tables ordered (start ∙ starts_at) below
            (≤ℤ_trans range.to_block ceiling (pos options.rpc_head) below (low ceiling refl)) run in
        inr (range, ceiling, pos_part range.to_block, same, set, at, limit, ran)

-- A run that succeeds has the ceiling that the depth of the registered network and the sink's highest
-- block allow. Either it leaves the tables as they were, and that ceiling is none, or lies below the block
-- after the cursor (or a run may cover no block at all); or it runs a range that starts right after the
-- cursor and ends at or below the ceiling: every row of the sink in the range has its row in the tables,
-- the flags of the rows are kept, and the cursor stands at the range's end.
pub promote_confirmed-Advances :
    (p : Platform) (options : PromoteOptions) (world : World) (tables after : Tables)
    (outcome : PromoteOutcome)
    → promote_confirmed p options world tables ≡ ok (after, outcome)
    → Advances p options world tables after outcome
unfolding promote_confirmed
promote_confirmed-Advances p options world tables after outcome e =
    let (network, f, e1) =
      >>=-eq-ok (required chain_not_registered (read_network options.chain_id world.registry)) _
        e in
    let sink = read_sink_head world.staging.sink_blocks in
    run_below-Advances p options world _ tables
      (below_head options.rpc_head network.confirmation_depth sink)
      (
        network,
        required-some chain_not_registered _ f,
        promotion_ceiling-Limit options.rpc_head network.confirmation_depth sink,
      )
      e1

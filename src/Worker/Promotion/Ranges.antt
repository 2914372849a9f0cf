-- ===== src/Worker/Promotion/Ranges.antt =====
-- The bounds of what apps/worker/src/promote-confirmed.ts promotes.
use tr4ce_app.Prelude.{inl, inr, Option, ◌<◌, ℕ, ◌+◌, ◌≡◌, refl, some, none, ◌⊎◌, arith, subst}
use tr4ce_app.Prelude.Int.{ℤ, pos, negsuc, ◌+ℤ◌, ◌-ℤ◌, ◌≤ℤ◌, ◌<ℤ◌}
use tr4ce_app.Worker.Promotion.{
  ceiling_of, promotion_ceiling, RangeInput, BlockRange, from_of, to_of, range_of, next_range,
}

-- A ceiling is no block before zero, none that the sink has not reached, and none with fewer
-- confirmations than the depth.
pub promotion_ceiling-bounds :
    (rpc_head depth sink_head : ℕ) (ceiling : ℤ)
    → promotion_ceiling rpc_head depth (some sink_head) ≡ some ceiling
    → (pos 0 ≤ℤ ceiling) × (ceiling ≤ℤ pos sink_head) × (ceiling +ℤ pos depth ≤ℤ pos rpc_head)
unfolding promotion_ceiling ceiling_of ◌-ℤ◌ ◌+ℤ◌
promotion_ceiling-bounds rpc_head depth sink_head (pos c) e = ground arith
promotion_ceiling-bounds rpc_head depth sink_head (negsuc c) e = ground arith

-- What the network's depth and the sink allow: nothing, where the sink has no block or the head is not as
-- high as the depth; otherwise the lower of the sink's highest block and the head less the depth.
abbrev pub Limit : ℕ → ℕ → Option ℕ → Option ℤ → Type 0
Limit rpc_head depth sink_head none = (sink_head ≡ none) ⊎ (rpc_head < depth)
Limit rpc_head depth sink_head (some ceiling) =
    (sink : ℕ) × (sink_head ≡ some sink)
    × (ceiling ≤ℤ pos sink)
    × (ceiling +ℤ pos depth ≤ℤ pos rpc_head)
    × ((ceiling ≡ pos sink) ⊎ (ceiling +ℤ pos depth ≡ pos rpc_head))

pub promotion_ceiling-Limit :
    (rpc_head depth : ℕ) (sink_head : Option ℕ)
    → Limit rpc_head depth sink_head (promotion_ceiling rpc_head depth sink_head)
unfolding promotion_ceiling ceiling_of ◌-ℤ◌ ◌+ℤ◌
promotion_ceiling-Limit rpc_head depth none = inl refl
promotion_ceiling-Limit rpc_head depth (some sink) = by_answer _ refl
  where
    some_case :
        (c : ℤ)
        → promotion_ceiling rpc_head depth (some sink) ≡ some c
        → (c ≡ pos sink) ⊎ (c +ℤ pos depth ≡ pos rpc_head)
    some_case (pos c) e = ground (arith, e)
    some_case (negsuc c) e = ground (arith, e)

    by_answer :
        (o : Option ℤ)
        → promotion_ceiling rpc_head depth (some sink) ≡ o
        → Limit rpc_head depth (some sink) o
    by_answer none e = inr (ground (arith, e))
    by_answer (some c) e =
        let (_, below, confirmed) = promotion_ceiling-bounds rpc_head depth sink c e in
        (sink, refl, below, confirmed, some_case c e)

to_of-bounds :
    (ceiling : ℤ) (from_block max_blocks : ℕ)
    → (to_of ceiling from_block max_blocks ≤ℤ ceiling)
      × (to_of ceiling from_block max_blocks +ℤ pos 1 ≤ℤ pos (from_block + max_blocks))
unfolding ◌-ℤ◌ ◌+ℤ◌
to_of-bounds (pos c) from_block max_blocks = ground arith
to_of-bounds (negsuc c) from_block max_blocks = ground arith

range_of-some :
    (from_block : ℕ) (to_block : ℤ) (range : BlockRange)
    → range_of from_block to_block ≡ some range
    → (record { from_block = from_block; to_block = to_block } ≡ range)
      × (pos from_block ≤ℤ to_block)
unfolding range_of
range_of-some from_block to_block range e = ground arith

-- A run starts right after the cursor, or at the window's start when there is none, so that no block
-- between two runs is left out; it is not empty, stays at or below the ceiling and covers at most the
-- allowed number of blocks.
pub next_range-bounds :
    (input : RangeInput) (range : BlockRange)
    → next_range input ≡ some range
    → (range.from_block ≡ from_of input.cursor_block input.window_start)
      × (pos range.from_block ≤ℤ range.to_block)
      × (range.to_block ≤ℤ input.ceiling)
      × (range.to_block +ℤ pos 1 ≤ℤ pos (range.from_block + input.max_blocks_per_run))
unfolding next_range
next_range-bounds input range e =
    let from_block = from_of input.cursor_block input.window_start in
    let to_block = to_of input.ceiling from_block input.max_blocks_per_run in
    let (same, ordered) = range_of-some from_block to_block range e in
    let (low, high) = to_of-bounds input.ceiling from_block input.max_blocks_per_run in
    subst (λ r. Bounds r) same (refl, ordered, low, high)
  where
    Bounds : BlockRange → Type 0
    Bounds r =
        (r.from_block ≡ from_of input.cursor_block input.window_start)
        × (pos r.from_block ≤ℤ r.to_block)
        × (r.to_block ≤ℤ input.ceiling)
        × (r.to_block +ℤ pos 1 ≤ℤ pos (r.from_block + input.max_blocks_per_run))

range_of-none :
    (ceiling : ℤ) (from_block max_blocks : ℕ)
    → range_of from_block (to_of ceiling from_block max_blocks) ≡ none
    → (max_blocks ≡ 0) ⊎ (ceiling <ℤ pos from_block)
unfolding range_of ◌-ℤ◌
range_of-none (pos c) from_block max_blocks e = ground arith
range_of-none (negsuc c) from_block max_blocks e = ground arith

-- Where there is no range to run, the ceiling has been passed, or a run may cover no block.
pub next_range-none :
    (input : RangeInput)
    → next_range input ≡ none
    → (input.max_blocks_per_run ≡ 0)
      ⊎ (input.ceiling <ℤ pos (from_of input.cursor_block input.window_start))
unfolding next_range
next_range-none input e =
    range_of-none input.ceiling (from_of input.cursor_block input.window_start)
      input.max_blocks_per_run e

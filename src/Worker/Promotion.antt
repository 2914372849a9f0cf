-- ===== src/Worker/Promotion.antt =====
-- `promotionCeiling` of packages/db/src/repositories/cursors.ts and `nextRange` of
-- apps/worker/src/promote-confirmed.ts. A block number is a non-negative integer; a difference of two
-- may be negative.
pub mod Ranges
use tr4ce_app.Prelude.{ℕ, ◌+◌, Bool, Option, none, some, List, [], ◌∷◌, if◌then◌else◌, leb}
use tr4ce_app.Prelude.Int.{ℤ, pos, ◌+ℤ◌, ◌-ℤ◌, leb_ℤ, ltb_ℤ}

-- `Math.min`
abbrev pub min_ℤ : ℤ → ℤ → ℤ
min_ℤ a b = if leb_ℤ a b then a else b

ceiling_of : ℤ → Option ℤ
ceiling_of ceiling = if ltb_ℤ ceiling (pos 0) then none else some ceiling

unfoldable pub promotion_ceiling : ℕ → ℕ → Option ℕ → Option ℤ
unfolding ceiling_of
promotion_ceiling rpc_head confirmation_depth none = none
promotion_ceiling rpc_head confirmation_depth (some sink_head) =
    ceiling_of (min_ℤ (pos rpc_head -ℤ pos confirmation_depth) (pos sink_head))

pub record RangeInput : Type 0 where
  pub cursor_block : Option ℕ
  pub ceiling : ℤ
  pub window_start : ℕ
  pub max_blocks_per_run : ℕ

pub record BlockRange : Type 0 where
  pub from_block : ℕ
  pub to_block : ℤ

abbrev pub from_of : Option ℕ → ℕ → ℕ
from_of none window_start = window_start
from_of (some cursor) window_start = cursor + 1

abbrev pub to_of : ℤ → ℕ → ℕ → ℤ
to_of ceiling from_block max_blocks = min_ℤ ceiling (pos (from_block + max_blocks) -ℤ pos 1)

range_of : ℕ → ℤ → Option BlockRange
range_of from_block to_block =
    if ltb_ℤ to_block (pos from_block)
    then none
    else some (record { from_block = from_block; to_block = to_block })

unfoldable pub next_range : RangeInput → Option BlockRange
unfolding range_of
next_range input =
    let from_block = from_of input.cursor_block input.window_start in
    range_of from_block (to_of input.ceiling from_block input.max_blocks_per_run)

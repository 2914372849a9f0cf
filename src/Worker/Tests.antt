-- ===== src/Worker/Tests.antt =====
-- A run of apps/worker/src/promote-confirmed.ts, and the theorems applied to it.
pub mod Sample
mod Runs
mod Reports
mod Reorg
mod Window
use tr4ce_app.Prelude.{◌+◌, ◌≡◌, refl, some}
use tr4ce_app.Prelude.Int.{pos, ◌+ℤ◌, ◌-ℤ◌, ◌≤ℤ◌}
use tr4ce_app.Worker.Promotion.{promotion_ceiling, RangeInput, BlockRange, from_of, next_range}
use tr4ce_app.Worker.Promotion.Ranges.{promotion_ceiling-bounds, next_range-bounds}

ceiling_found : promotion_ceiling 100 10 (some 95) ≡ some (pos 90)
unfolding promotion_ceiling ◌-ℤ◌
ceiling_found = refl

promotion_ceiling-bounds_example :
    (pos 0 ≤ℤ pos 90) × (pos 90 ≤ℤ pos 95) × (pos 90 +ℤ pos 10 ≤ℤ pos 100)
promotion_ceiling-bounds_example = promotion_ceiling-bounds 100 10 95 (pos 90) ceiling_found

abbrev resumed : RangeInput
resumed = record {
  cursor_block = some 40;
  ceiling = pos 90;
  window_start = 5;
  max_blocks_per_run = 20;
}

abbrev covered : BlockRange
covered = record { from_block = 41; to_block = pos 60 }

range_found : next_range resumed ≡ some covered
unfolding next_range ◌-ℤ◌
range_found = refl

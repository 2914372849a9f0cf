-- ===== src/Worker/Confirmed/Loop.antt =====
-- The loop of apps/worker/src/promote-confirmed.ts.
use tr4ce_app.Prelude.{
  ℕ, ◌+◌, ◌<◌, ◌≤◌, zero, suc, ◌≡◌, inl, inr, refl, ap, subst, true, Option, none, some, Result, ok,
  err, is_some, arith,
}
use tr4ce_app.Platform.{Platform}
use tr4ce_app.Observations.Tables.{Tables, Failure}
use tr4ce_app.Observations.Promote.{PromoteRangeResult}
use tr4ce_app.Worker.Promotion.{BlockRange}
use tr4ce_app.Worker.Confirmed.{
  World, PromoteOptions, PromoteOutcome, Totals, add_totals, LoopEnd, turn, promote_confirmed,
  promote_loop,
}
use tr4ce_app.Worker.Confirmed.Advance.{
  after_cursor, next_block, CaughtUp, Advances, promote_confirmed-Advances,
}

-- A turn ends the loop, or its range is one that the next turn starts after.
turn-ends :
    (p : Platform) (options : PromoteOptions) (world : World) (before : Tables)
    (again : Tables → PromoteRangeResult → Option ℕ → Option (Result Failure LoopEnd))
    (totals : Totals) (outcome : Result Failure (Tables × PromoteOutcome))
    → ((t : Tables) (o : PromoteOutcome)
        → outcome ≡ ok (t, o)
        → Advances p options world before t o)
    → ((t : Tables) (promoted : PromoteRangeResult) (to : Option ℕ)
        → next_block options before < next_block options t
        → next_block options before ≤ options.rpc_head
        → is_some (again t promoted to) ≡ true)
    → is_some (turn again totals outcome) ≡ true
turn-ends p options world before again totals (err failure) advances later = refl
turn-ends p options world before again totals (ok (t, o)) advances later =
    by_case o.range o.promoted refl (advances t o refl)
  where
    by_case :
        (range : Option BlockRange) (promoted : Option PromoteRangeResult)
        → o.range ≡ range
        → Advances p options world before t o
        → is_some (turn again totals (ok (t, record o { range = range; promoted = promoted })))
          ≡ true
    by_case none promoted e a = refl
    by_case (some range) none e a = refl
    by_case (some range) (some promoted) e (inl (nothing, _, _, _)) = cc
    by_case (some range) (some promoted) e (inr (r, c, end, _, _, _, _, ran)) =
        let after : next_block options t ≡ end + 1 =
          ap (λ b. after_cursor b options.window_start) ran.cursor in
        later t promoted o.cursor_advanced_to (omega (arith, after, ran.starts, ran.ordered))
          (omega (arith, ran.starts, ran.ordered, ran.below_head))

promote_loop-ends :
    (p : Platform) (options : PromoteOptions) (worlds : ℕ → World) (fuel n : ℕ) (tables : Tables)
    (totals : Totals)
    → options.rpc_head < next_block options tables + fuel
    → is_some (promote_loop p options worlds (suc fuel) n tables totals) ≡ true
unfolding promote_loop
promote_loop-ends p options worlds zero n tables totals h =
    turn-ends p options (worlds n) tables _ totals (promote_confirmed p options (worlds n) tables)
      (λ t o e. promote_confirmed-Advances p options (worlds n) tables t o e)
      (λ t promoted to more low. absurd (omega (arith, h, low)))
promote_loop-ends p options worlds (suc fuel) n tables totals h =
    turn-ends p options (worlds n) tables _ totals (promote_confirmed p options (worlds n) tables)
      (λ t o e. promote_confirmed-Advances p options (worlds n) tables t o e)
      (λ t promoted to more low.
        promote_loop-ends p options worlds fuel (suc n) t (add_totals promoted to totals)
          (omega (arith, h, more)))

-- The loop that runs until it has caught up ends, whatever the sink writes, the registry holds and the
-- provider answers between its turns: two turns more than the head's number are enough, for an error or
-- for a result.
pub promote_loop-Ends :
    (p : Platform) (options : PromoteOptions) (worlds : ℕ → World) (tables : Tables)
    (totals : Totals)
    → is_some (promote_loop p options worlds (options.rpc_head + 2) 0 tables totals) ≡ true
promote_loop-Ends p options worlds tables totals =
    subst (λ fuel. is_some (promote_loop p options worlds fuel 0 tables totals) ≡ true)
      (omega arith)
      (promote_loop-ends p options worlds (options.rpc_head + 1) 0 tables totals (omega arith))

-- The loop has caught up in the world of one of its turns, of which the first is the one at `n`.
abbrev pub EndsAt : PromoteOptions → (ℕ → World) → ℕ → ℕ → LoopEnd → Type 0
EndsAt options worlds fuel n end =
    (k : ℕ) × (n ≤ k) × (k < n + fuel) × CaughtUp options (worlds k) end.tables end.ceiling

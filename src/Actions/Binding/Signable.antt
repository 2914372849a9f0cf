-- ===== src/Actions/Binding/Signable.antt =====
-- When `checkSignable` of packages/chain/src/simulate.ts lets a simulated call be signed.
use tr4ce_app.Prelude.{ℕ, ◌+◌, ◌*◌, ◌≤◌, ◌≡◌, ◌↔◌, refl, false, Result, ok, err, arith}
use text.Mathlib.TextEquality.{eq_iff}
use tr4ce_app.Platform.{Platform}
use tr4ce_app.Actions.Binding.{
  SimulationBinding, SimulationStatus, succeeded, SimulationResult, SimulateOptions, EstimateError,
  signable, is_failed, binding_of, simulation_of, simulate_call, binding_digest, check_signable,
}

module _ (p : Platform) where
  -- A simulation is signable exactly when it succeeded, the binding recomputed now has its digest,
  -- and neither the block budget nor the time budget is spent.
  pub check_signable_iff :
      (s : SimulationResult) (current : SimulationBinding) (block now : ℕ)
      → (check_signable p s current block now ≡ signable) ↔ (
          (s.status ≡ succeeded)
          × (binding_digest p current ≡ binding_digest p s.binding)
          × (block ≤ s.expires_at_block)
          × (now ≤ s.expires_at))
  unfolding check_signable
  check_signable_iff s current block now =
      ground
        (arith, eq_iff (binding_digest p current) (binding_digest p s.binding), failed_iff s.status)
    where
      failed_iff : (t : SimulationStatus) → (is_failed t ≡ false) ↔ (t ≡ succeeded)
      failed_iff t = ground arith

  -- A fresh simulation of a call can be signed, under the conditions that it ran under, exactly when
  -- the provider gave an estimate and the chain is at most three blocks and the clock at most sixty
  -- seconds past the block that it ran at.
  pub check_signable-simulate_call :
      (estimate : SimulateOptions → Result EstimateError ℕ) (options : SimulateOptions)
      (block now : ℕ)
      → (check_signable p (simulate_call p estimate options) (binding_of p options) block now
          ≡ signable)
        ↔ (((gas : ℕ) × (estimate options ≡ ok gas))
            × (block ≤ options.block_number + 3)
            × (now ≤ (options.block_timestamp + 60) * 1000))
  unfolding simulate_call simulation_of
  check_signable-simulate_call estimate options block now = of_result (estimate options)
    where
      of_result :
          (r : Result EstimateError ℕ)
          → (check_signable p (simulation_of p options r) (binding_of p options) block now
              ≡ signable)
            ↔ (((gas : ℕ) × (r ≡ ok gas))
                × (block ≤ options.block_number + 3)
                × (now ≤ (options.block_timestamp + 60) * 1000))
      of_result (ok gas) =
          let signs =
            check_signable_iff (simulation_of p options (ok gas)) (binding_of p options) block
              now in
          (
            λ e. let (_, _, b, n) = signs.0 e in ((gas, refl), b, n),
            λ (g, b, n). signs.1 (refl, refl, b, n),
          )
      of_result (err error) =
          let signs =
            check_signable_iff (simulation_of p options (err error)) (binding_of p options) block
              now in
          (λ e. cc ((signs.0 e).0), λ (g, b, n). cc (g.1))

-- ===== src/Chain/Capabilities/Usable.antt =====
-- What packages/chain/src/capabilities.ts makes of a limit, and packages/evidence/src/capability.ts then
-- allows.
use tr4ce_app.Prelude.{
  ℕ, ◌≡◌, ◌≢◌, ◌↔◌, ◌⊎◌, inl, inr, refl, sym, ap, ◌∙◌, Bool, true, false, ◌&&◌, not, Option, none,
  some, arith, Bool-cases, List, [], ◌∷◌, ◌++◌, all, String,
}
use tr4ce_app.Prelude.Int.{ℤ, pos, eqb_ℤ, eqb_ℤ_iff}
use tr4ce_app.Platform.{Platform}
use tr4ce_app.Domain.{
  CapabilityMethod, asset, decimals, total_assets, total_supply, convert_to_assets, max_withdraw,
  max_redeem, preview_deposit, preview_redeem, same_method,
}
use tr4ce_app.Evidence.Capability.{
  CapabilityProbe, is_usable, is_usable_answer, status_of, status_or_unsupported, usability,
  find_probe,
}
use tr4ce_app.Chain.Capabilities.{
  ReadOutcome, answered, failed, VaultReadResults, probe_address, probe_numeric, capacity_probes,
  classify_capabilities,
}

-- The limit answered, and its answer is no zero of an owner who holds shares.
abbrev pub Counts : Option (ReadOutcome ℤ) → Bool → Type 0
Counts none holds_shares = ⊥
Counts (some (failed revert_data)) holds_shares = ⊥
Counts (some (answered value)) holds_shares = (value ≢ pos 0) ⊎ (holds_shares ≡ false)

abbrev counts : Option (ReadOutcome ℤ) → Bool → Bool
counts none holds_shares = false
counts (some (failed revert_data)) holds_shares = false
counts (some (answered value)) holds_shares = not (eqb_ℤ value (pos 0) && holds_shares)

probe_address-method :
    (p : Platform) (method : CapabilityMethod) (outcome : ReadOutcome String) (at_block : ℕ)
    → (probe_address p method outcome at_block).method ≡ method
probe_address-method p method (answered v) at_block = refl
probe_address-method p method (failed d) at_block = refl

probe_numeric-method :
    (p : Platform) (method : CapabilityMethod) (outcome : ReadOutcome ℤ) (at_block : ℕ)
    → (probe_numeric p method outcome at_block).method ≡ method
probe_numeric-method p method (answered v) at_block = refl
probe_numeric-method p method (failed d) at_block = refl

-- The probes that stand before those of the limits.
abbrev fixed : Platform → VaultReadResults → ℕ → List CapabilityProbe
fixed p results at_block =
    probe_address p asset results.asset at_block
    ∷ probe_numeric p decimals results.decimals at_block
    ∷ probe_numeric p total_assets results.total_assets at_block
    ∷ probe_numeric p total_supply results.total_supply at_block
    ∷ probe_numeric p convert_to_assets results.convert_to_assets at_block
    ∷ probe_numeric p preview_deposit results.preview_deposit at_block
    ∷ probe_numeric p preview_redeem results.preview_redeem at_block
    ∷ []

fixed-other :
    (p : Platform) (results : VaultReadResults) (at_block : ℕ)
    → all (λ q. not (same_method q.method max_withdraw)) (fixed p results at_block) ≡ true
fixed-other p results at_block = rw (
  probe_address-method p asset results.asset at_block,
  probe_numeric-method p decimals results.decimals at_block,
  probe_numeric-method p total_assets results.total_assets at_block,
  probe_numeric-method p total_supply results.total_supply at_block,
  probe_numeric-method p convert_to_assets results.convert_to_assets at_block,
  probe_numeric-method p preview_deposit results.preview_deposit at_block,
  probe_numeric-method p preview_redeem results.preview_redeem at_block,
)

find_probe-skip :
    (method : CapabilityMethod) (probes rest : List CapabilityProbe)
    → all (λ q. not (same_method q.method method)) probes ≡ true
    → find_probe (probes ++ rest) method ≡ find_probe rest method
unfolding find_probe
find_probe-skip method [] rest h = refl
find_probe-skip method (q ∷ probes) rest h = ground (arith, h, find_probe-skip method probes rest)

limits_of :
    (p : Platform) (limit redeem : Option (ReadOutcome ℤ)) (at_block : ℕ) (holds_shares : Bool)
    → is_usable_answer (
        usability (
          status_or_unsupported (
            find_probe
              (capacity_probes p max_withdraw limit at_block holds_shares
                ++ capacity_probes p max_redeem redeem at_block holds_shares)
              max_withdraw)))
      ≡ counts limit holds_shares
unfolding usability find_probe
limits_of p none none at_block holds_shares = refl
limits_of p none (some (failed d)) at_block holds_shares = refl
limits_of p none (some (answered v)) at_block holds_shares =
    elim (Bool-cases (eqb_ℤ v (pos 0) && holds_shares)) [ inl t ↦ rw t | inr f ↦ rw f ]
limits_of p (some (failed d)) redeem at_block holds_shares = refl
limits_of p (some (answered v)) redeem at_block holds_shares =
    elim (Bool-cases (eqb_ℤ v (pos 0) && holds_shares)) [ inl t ↦ rw t | inr f ↦ rw f ]

counts_iff :
    (limit : Option (ReadOutcome ℤ)) (holds_shares : Bool)
    → (counts limit holds_shares ≡ true) ↔ Counts limit holds_shares
counts_iff none holds_shares = (λ e. cc, λ h. absurd h)
counts_iff (some (failed d)) holds_shares = (λ e. cc, λ h. absurd h)
counts_iff (some (answered v)) true = grind (arith, eqb_ℤ_iff v (pos 0))
counts_iff (some (answered v)) false = (λ e. inr refl, λ h. and_false (eqb_ℤ v (pos 0)))
  where
    and_false : (b : Bool) → not (b && false) ≡ true
    and_false true = refl
    and_false false = refl

-- A limit on withdrawals counts as evidence exactly when the vault answered and the answer is not a zero
-- to an owner who holds shares: such a zero, a call that reverted and a call that was not made are all
-- unusable.
pub classify_capabilities-usable_iff :
    (p : Platform) (results : VaultReadResults) (at_block : ℕ) (holds_shares : Bool)
    → (is_usable (classify_capabilities p results at_block holds_shares) max_withdraw ≡ true)
      ↔ Counts results.max_withdraw holds_shares
unfolding is_usable status_of classify_capabilities
classify_capabilities-usable_iff p results at_block holds_shares =
    let answer =
      ap (λ o. is_usable_answer (usability (status_or_unsupported o)))
        (find_probe-skip max_withdraw (fixed p results at_block)
          (capacity_probes p max_withdraw results.max_withdraw at_block holds_shares
            ++ capacity_probes p max_redeem results.max_redeem at_block holds_shares)
          (fixed-other p results at_block))
      ∙ limits_of p results.max_withdraw results.max_redeem at_block holds_shares in
    let decided = counts_iff results.max_withdraw holds_shares in
    (λ e. decided.0 (sym answer ∙ e), λ h. answer ∙ decided.1 h)

-- ===== src/Evidence/Capability/Usable.antt =====
-- Which probes make a method usable, packages/evidence/src/capability.ts.
use tr4ce_app.Prelude.{◌≡◌, ◌↔◌, ◌⊎◌, true, false, List, [], ◌∷◌, arith}
use tr4ce_app.Domain.{CapabilityMethod, CapabilityStatus, supported, same_method}
use tr4ce_app.Evidence.Capability.{
  CapabilityProbe, status_of, usability, is_usable, is_usable_answer,
}

-- The first probe of the method has the status; the probes before it are of other methods.
abbrev pub FirstHas : CapabilityMethod → CapabilityStatus → List CapabilityProbe → Type 0
FirstHas m s [] = ⊥
FirstHas m s (probe ∷ probes) =
    ((same_method probe.method m ≡ true) × (probe.status ≡ s))
    ⊎ ((same_method probe.method m ≡ false) × FirstHas m s probes)

status_of_first :
    (probes : List CapabilityProbe) (m : CapabilityMethod)
    → (status_of probes m ≡ supported) ↔ FirstHas m supported probes
unfolding status_of
status_of_first [] m = (λ e. cc, λ h. absurd h)
status_of_first (probe ∷ probes) m = ground (arith, status_of_first probes m)

usable_of_status :
    (s : CapabilityStatus) → (is_usable_answer (usability s) ≡ true) ↔ (s ≡ supported)
unfolding usability
usable_of_status s = ground arith

-- A method is usable exactly when its first probe says that it is supported. A method that was not
-- probed is not usable, and neither is one whose zero is not standard.
pub is_usable_iff :
    (probes : List CapabilityProbe) (m : CapabilityMethod)
    → (is_usable probes m ≡ true) ↔ FirstHas m supported probes
unfolding is_usable
is_usable_iff probes m =
    let (status, first) = status_of_first probes m in
    let (usable, supports) = usable_of_status (status_of probes m) in
    (λ h. status (usable h), λ h. supports (first h))

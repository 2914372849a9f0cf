-- ===== src/Evidence/Capability.antt =====
-- packages/evidence/src/capability.ts: whether the probe of a method may back a claim.
pub mod Usable
use tr4ce_app.Prelude.{ℕ, Bool, true, false, Option, none, some, List, String, find}
use tr4ce_app.Domain.{
  ReasonCode, CapabilityMethod, CapabilityStatus, supported, reverted, nonstandard_zero, ambiguous,
  unsupported, same_method,
}

-- `capabilityProbeSchema` of packages/domain/src/registry.ts
pub record CapabilityProbe : Type 0 where
  pub method : CapabilityMethod
  pub status : CapabilityStatus
  pub at_block : ℕ
  pub raw_result : Option String
  pub revert_data : Option String
  pub reason_code : Option ReasonCode
  pub note : Option String

pub data Usability : Type 0 where
  usable unknown : Usability

unfoldable pub usability : CapabilityStatus → Usability
usability supported = usable
usability reverted = unknown
usability nonstandard_zero = unknown
usability ambiguous = unknown
usability unsupported = unknown

unfoldable pub find_probe : List CapabilityProbe → CapabilityMethod → Option CapabilityProbe
find_probe probes method = find (λ probe. same_method probe.method method) probes

abbrev pub status_or_unsupported : Option CapabilityProbe → CapabilityStatus
status_or_unsupported none = unsupported
status_or_unsupported (some probe) = probe.status

unfoldable pub status_of : List CapabilityProbe → CapabilityMethod → CapabilityStatus
unfolding find_probe
status_of probes method = status_or_unsupported (find_probe probes method)

abbrev pub is_usable_answer : Usability → Bool
is_usable_answer usable = true
is_usable_answer unknown = false

unfoldable pub is_usable : List CapabilityProbe → CapabilityMethod → Bool
unfolding usability status_of
is_usable probes method = is_usable_answer (usability (status_of probes method))

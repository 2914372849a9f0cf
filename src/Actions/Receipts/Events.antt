-- ===== src/Actions/Receipts/Events.antt =====
-- What `findEvent` of packages/chain/src/receipts.ts accepts.
use tr4ce_app.Prelude.{
  ◌≡◌, ◌⊎◌, inl, inr, ap, subst, Option, none, some, List, [], ◌∷◌, String, arith,
}
use text.Mathlib.TextEquality.{eq_iff}
use tr4ce_app.Platform.{Platform}
use tr4ce_app.Actions.Receipts.{Log, VaultEvent, matching_event, event_of, find_event}

module _ (p : Platform) (decode : Log → Option VaultEvent) where
  -- The log is the vault's own, and holds an event of the name for the owner.
  pub record Emitted (vault name owner : String) (log : Log) (event : VaultEvent) : Type 0 where
    pub emitter : p.to_lower log.address ≡ p.to_lower vault
    pub decoded : decode log ≡ some event
    pub named : event.event_name ≡ name
    pub owned : p.to_lower event.owner ≡ p.to_lower owner

  abbrev pub OneOf : String → String → String → List Log → VaultEvent → Type 0
  OneOf vault name owner [] event = ⊥
  OneOf vault name owner (log ∷ logs) event =
      Emitted vault name owner log event ⊎ OneOf vault name owner logs event

  matching_event-some :
      (name owner : String) (o : Option VaultEvent) (event : VaultEvent)
      → matching_event p decode name owner o ≡ some event
      → (o ≡ some event) × (event.event_name ≡ name) × (p.to_lower event.owner ≡ p.to_lower owner)
  matching_event-some name owner none event e = cc
  matching_event-some name owner (some found) event e =
      let tested = eq_iff found.event_name name in
      let owned = eq_iff (p.to_lower found.owner) (p.to_lower owner) in
      let here : found ≡ event = ground (arith, tested, owned) in
      (
        ap (λ x. some x) here,
        subst (λ x. x.event_name ≡ name) here (ground (arith, tested, owned)),
        subst (λ x. p.to_lower x.owner ≡ p.to_lower owner) here (ground (arith, tested, owned)),
      )

  event_of-Emitted :
      (vault name owner : String) (log : Log) (event : VaultEvent)
      → event_of p decode vault name owner log ≡ some event
      → Emitted vault name owner log event
  event_of-Emitted vault name owner log event e =
      let tested = eq_iff (p.to_lower log.address) (p.to_lower vault) in
      let emitter : p.to_lower log.address ≡ p.to_lower vault = ground (arith, tested) in
      let matched : matching_event p decode name owner (decode log) ≡ some event =
        ground (arith, tested) in
      let (decoded, named, owned) = matching_event-some name owner (decode log) event matched in
      record { emitter = emitter; decoded = decoded; named = named; owned = owned }

  -- Any event that is reported was emitted by the vault itself, under the name and for the owner:
  -- another contract's numbers are never reported as the vault's.
  pub find_event-OneOf :
      (logs : List Log) (vault name owner : String) (event : VaultEvent)
      → find_event p decode logs vault name owner ≡ some event
      → OneOf vault name owner logs event
  unfolding find_event
  find_event-OneOf [] vault name owner event e = cc
  find_event-OneOf (log ∷ logs) vault name owner event e =
      elim (split (event_of p decode vault name owner log) _ event e) [
        | inl here ↦ inl (event_of-Emitted vault name owner log event here)
        | inr later ↦ inr (find_event-OneOf logs vault name owner event later)
      ]
    where
      split :
          (o rest : Option VaultEvent) (event : VaultEvent)
          → elim o [ none ↦ rest | some found ↦ some found ] ≡ some event
          → (o ≡ some event) ⊎ (rest ≡ some event)
      split none rest event e = inr e
      split (some found) rest event e = inl e

-- ===== src/Prelude/Results.antt =====
-- A thrown error as a value: what a function that may throw returns.
use mathlib.Core.Path.{◌≡◌, refl}
use mathlib.Core.Bool.{Bool, true, false}

pub data Result (E A : Type 0) : Type 0 where
  ok : A → Result E A
  err : E → Result E A

-- Going on with the value, or leaving with the error.

module _ {E : Type 0} where
  infixl 5 ◌>>=◌ ◌>>◌
  abbrev pub ◌>>=◌ : {A B : Type 0} → Result E A → (A → Result E B) → Result E B
  err failure >>= next = err failure
  ok value >>= next = next value

  abbrev pub ◌>>◌ : {B : Type 0} → Result E (Unit {0}) → Result E B → Result E B
  check >> after = check >>= λ _. after

  -- `if (test) throw failure`
  abbrev pub throw_if : Bool → E → Result E (Unit {0})
  throw_if false failure = ok tt
  throw_if true failure = err failure

  -- Where a sequence succeeds, so do its two parts.
  pub >>=-eq-ok :
      {A B : Type 0} (first : Result E A) (next : A → Result E B) {result : B}
      → (first >>= next) ≡ ok result
      → (value : A) × (first ≡ ok value) × (next value ≡ ok result)
  >>=-eq-ok (err failure) next e = cc
  >>=-eq-ok (ok value) next e = (value, refl, e)

-- The call returned, with a value that satisfies the predicate.
abbrev pub Returns : {E A : Type 0} → (A → Type 0) → Result E A → Type 0
Returns P (ok a) = P a
Returns P (err e) = ⊥

pub Returns-ok :
    {E A : Type 0} {P : A → Type 0} (m : Result E A) → Returns P m → (a : A) × (m ≡ ok a) × P a
Returns-ok (ok a) h = (a, refl, h)
Returns-ok (err e) h = absurd h

-- Inversion of a check that did not throw.
pub throw_if-ok :
    {E B : Type 0} (t : Bool) (e : E) (m : Result E B) {b : B}
    → (throw_if t e >> m) ≡ ok b
    → (t ≡ false) × (m ≡ ok b)
throw_if-ok true e m h = cc
throw_if-ok false e m h = (refl, h)

abbrev pub the_ok : (E : Type 0) {A : Type 0} → A → Result E A
the_ok E a = ok a

pub ok_inj : {E A : Type 0} {a b : A} → the_ok E a ≡ the_ok E b → a ≡ b
ok_inj h = cc

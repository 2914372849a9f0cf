-- ===== src/Prelude/Lists.antt =====
-- Lists measured and indexed by native numbers, and predicates over their elements.
use Prim.Native.Nat.{ℕ, zero, suc, ◌+◌}
use mathlib.Core.Path.{◌≡◌, refl, sym, ap, ◌∙◌, subst}
use mathlib.Core.Logic.{◌⊎◌, inl, inr}
use mathlib.Core.Bool.{Bool, true, false, ◌&&◌, ◌||◌}
use mathlib.Core.Option.{Option, none, some}
use mathlib.Core.List.{List, [], ◌∷◌, ◌++◌, map}
use native.Mathlib.Omega.{arith}
use tr4ce_app.Prelude.Tests.{Bool-cases}

module _ {ℓ} {A : Type ℓ} where
  abbrev pub length : List A → ℕ
  length [] = 0
  length (x ∷ xs) = suc (length xs)

  abbrev pub get_elem? : List A → ℕ → Option A
  get_elem? [] i = none
  get_elem? (x ∷ xs) zero = some x
  get_elem? (x ∷ xs) (suc i) = get_elem? xs i

  -- `xs.some(p)`
  abbrev pub any : (A → Bool) → List A → Bool
  any p [] = false
  any p (x ∷ xs) = p x || any p xs

  abbrev pub all : (A → Bool) → List A → Bool
  all p [] = true
  all p (x ∷ xs) = p x && all p xs

  -- `xs.find(p)`
  abbrev pub find : (A → Bool) → List A → Option A
  find p [] = none
  find p (x ∷ xs) = elim (p x) [ true ↦ some x | false ↦ find p xs ]

  -- `xs.filter(p)`
  abbrev pub keep : (A → Bool) → List A → List A
  keep p [] = []
  keep p (x ∷ xs) = let rest = keep p xs in elim (p x) [ true ↦ x ∷ rest | false ↦ rest ]

  pub length-append : (xs ys : List A) → length (xs ++ ys) ≡ length xs + length ys
  length-append [] ys = omega arith
  length-append (x ∷ xs) ys = omega (arith, length-append xs ys)

or_left : (a b : Bool) → a ≡ true → (a || b) ≡ true
or_left true b e = refl
or_left false b e = cc

or_right : (a b : Bool) → b ≡ true → (a || b) ≡ true
or_right true b e = refl
or_right false b e = e

or_split : (a b : Bool) → (a || b) ≡ true → (a ≡ true) ⊎ (b ≡ true)
or_split true b e = inl refl
or_split false b e = inr e

pub any-append :
    {A : Type 0} (p : A → Bool) (xs ys : List A) → any p xs ≡ true → any p (xs ++ ys) ≡ true
any-append p [] ys e = cc
any-append p (x ∷ xs) ys e = elim (or_split (p x) (any p xs) e) [
  | inl h ↦ or_left (p x) _ h
  | inr h ↦ or_right (p x) _ (any-append p xs ys h)
]

pub any-last :
    {A : Type 0} (p : A → Bool) (xs : List A) (x : A) → p x ≡ true → any p (xs ++ x ∷ []) ≡ true
any-last p [] x e = or_left (p x) false e
any-last p (y ∷ xs) x e = or_right (p y) _ (any-last p xs x e)

-- Every element satisfies the predicate.
abbrev pub All {ℓ κ} : {A : Type ℓ} → (A → Type κ) → List A → Type κ
All P [] = Unit
All P (x ∷ xs) = P x × All P xs

-- An element of the list, at a place that the proof names.
abbrev pub Member : {A : Type 0} → A → List A → Type 0
Member x [] = ⊥
Member x (y ∷ ys) = (y ≡ x) ⊎ Member x ys

pub find-satisfies :
    {A : Type 0} (q : A → Bool) (xs : List A) (x : A)
    → find q xs ≡ some x
    → (q x ≡ true) × Member x xs
find-satisfies {A = A} q [] x e = cc
find-satisfies {A = A} q (y ∷ ys) x e = elim (Bool-cases (q y)) [
  | inl h ↦
      let same = some_inj (ap (λ b. found b) (sym h) ∙ e) in
      (subst (λ z. q z ≡ true) same h, inl same)
  | inr h ↦
      let (holds, there) = find-satisfies q ys x (ap (λ b. found b) (sym h) ∙ e) in
      (holds, inr there)
]
  where
    found : Bool → Option A
    found b = elim b [ true ↦ some y | false ↦ find q ys ]

    some_inj : some y ≡ some x → y ≡ x
    some_inj e = cc

pub find-nowhere :
    {A : Type 0} (q : A → Bool) (xs : List A) → find q xs ≡ none → All (λ x. q x ≡ false) xs
find-nowhere q [] e = tt
find-nowhere {A = A} q (y ∷ ys) e = elim (Bool-cases (q y)) [
  | inl h ↦ absurd (never (ap (λ b. found b) (sym h) ∙ e))
  | inr h ↦ (h, find-nowhere q ys (ap (λ b. found b) (sym h) ∙ e))
]
  where
    found : Bool → Option A
    found b = elim b [ true ↦ some y | false ↦ find q ys ]

    never : some y ≡ none → ⊥
    never e = cc

pub Member-keep :
    {A : Type 0} (q : A → Bool) (xs : List A) (x : A)
    → Member x xs
    → q x ≡ true
    → Member x (keep q xs)
Member-keep q [] x m h = m
Member-keep {A = A} q (y ∷ ys) x m h = elim m [
  | inl same ↦ subst (λ b. Member x (kept b)) (sym (ap q same ∙ h)) (inl same)
  | inr there ↦ later (q y) (Member-keep q ys x there h)
]
  where
    kept : Bool → List A
    kept b = let rest = keep q ys in elim b [ true ↦ y ∷ rest | false ↦ rest ]

    later : (b : Bool) → Member x (keep q ys) → Member x (kept b)
    later true n = inr n
    later false n = n

pub Member-map :
    {A B : Type 0} (f : A → B) (xs : List A) (x : A) → Member x xs → Member (f x) (map f xs)
Member-map f [] x m = m
Member-map f (y ∷ ys) x (inl same) = inl (ap f same)
Member-map f (y ∷ ys) x (inr m) = inr (Member-map f ys x m)

pub Member-left : {A : Type 0} (x : A) (xs ys : List A) → Member x xs → Member x (xs ++ ys)
Member-left x [] ys m = absurd m
Member-left x (y ∷ xs) ys (inl same) = inl same
Member-left x (y ∷ xs) ys (inr m) = inr (Member-left x xs ys m)

pub Member-right : {A : Type 0} (x : A) (xs ys : List A) → Member x ys → Member x (xs ++ ys)
Member-right x [] ys m = m
Member-right x (y ∷ xs) ys m = inr (Member-right x xs ys m)

pub All-Member :
    {A : Type 0} {P : A → Type 0} (xs : List A) → ((x : A) → Member x xs → P x) → All P xs
All-Member [] h = tt
All-Member (x ∷ xs) h = (h x (inl refl), All-Member xs (λ y m. h y (inr m)))

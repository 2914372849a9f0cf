-- ===== src/Observations/Window/Ends.antt =====
-- Which observations open and close a window of packages/db/src/repositories/evidence-window.ts.
use tr4ce_app.Prelude.{
  ℕ, ◌≤◌, ◌≡◌, ◌⊎◌, inl, inr, refl, subst, Bool, true, false, ◌||◌, not, Option, none, some, List,
  [], ◌∷◌, all, any, leb, arith, if-cases,
}
use tr4ce_app.Observations.Tables.{VaultSnapshot}
use tr4ce_app.Observations.Window.{later_of, earlier_of, latest, earliest}

some_inj : {a b : VaultSnapshot} → some a ≡ some b → a ≡ b
some_inj e = cc

module _ (p : VaultSnapshot → Bool) where
  pub latest-none : (rows : List VaultSnapshot) → latest p rows ≡ none → any p rows ≡ false
  unfolding latest
  latest-none [] e = refl
  latest-none (r ∷ rows) e = grind (arith, e, latest-none rows)

  latest-vacuous :
      (n : ℕ) (rows : List VaultSnapshot)
      → any p rows ≡ false
      → all (λ r. not (p r) || leb r.block_number n) rows ≡ true
  latest-vacuous n [] h = refl
  latest-vacuous n (r ∷ rows) h = ground (arith, h, latest-vacuous n rows)

  latest_mono :
      (m n : ℕ) (rows : List VaultSnapshot)
      → m ≤ n
      → all (λ r. not (p r) || leb r.block_number m) rows ≡ true
      → all (λ r. not (p r) || leb r.block_number n) rows ≡ true
  latest_mono m n [] l h = refl
  latest_mono m n (r ∷ rows) l h = ground (arith, l, h, latest_mono m n rows l)

  -- The later of a row and the best of the rest, where there is one.
  later_of-bound :
      (r row : VaultSnapshot) (rest : Option VaultSnapshot) (rows : List VaultSnapshot)
      → p r ≡ true
      → (rest ≡ none → any p rows ≡ false)
      → ((best : VaultSnapshot)
          → rest ≡ some best
          → (p best ≡ true)
            × (all (λ q. not (p q) || leb q.block_number best.block_number) rows ≡ true))
      → later_of r rest ≡ some row
      → (p row ≡ true)
        × (all (λ q. not (p q) || leb q.block_number row.block_number) (r ∷ rows) ≡ true)
  later_of-bound r row none rows t absent bound e =
      let same = some_inj e in
      subst
        (λ w.
          (p w ≡ true)
          × (all (λ q. not (p q) || leb q.block_number w.block_number) (r ∷ rows) ≡ true))
        same (t, ground (arith, latest-vacuous r.block_number rows (absent refl)))
  later_of-bound r row (some best) rows t absent bound e =
      let (b, bounded) = bound best refl in
      by_case b bounded (if-cases (leb best.block_number r.block_number) e)
    where
      Best : VaultSnapshot → Type 0
      Best w =
          (p w ≡ true)
          × (all (λ q. not (p q) || leb q.block_number w.block_number) (r ∷ rows) ≡ true)

      by_case :
          p best ≡ true
          → all (λ q. not (p q) || leb q.block_number best.block_number) rows ≡ true
          → ((leb best.block_number r.block_number ≡ true) × (some r ≡ some row))
            ⊎ ((leb best.block_number r.block_number ≡ false) × (some best ≡ some row))
          → Best row
      by_case b bounded (inl (low, same)) =
          subst Best (some_inj same)
            (t, ground (arith, latest_mono best.block_number r.block_number rows))
      by_case b bounded (inr (high, same)) = subst Best (some_inj same) (b, ground (arith, bounded))

  pub latest-some :
      (rows : List VaultSnapshot) (row : VaultSnapshot)
      → latest p rows ≡ some row
      → (p row ≡ true) × (all (λ q. not (p q) || leb q.block_number row.block_number) rows ≡ true)
  unfolding latest
  latest-some [] row e = cc
  latest-some (r ∷ rows) row e = by_case (latest-some rows) (p r) refl e
    where
      by_case :
          ((w : VaultSnapshot)
            → latest p rows ≡ some w
            → (p w ≡ true)
              × (all (λ q. not (p q) || leb q.block_number w.block_number) rows ≡ true))
          → (b : Bool) → p r ≡ b
          → elim b [ true ↦ later_of r (latest p rows) | false ↦ latest p rows ] ≡ some row
          → (p row ≡ true)
            × (all (λ q. not (p q) || leb q.block_number row.block_number) (r ∷ rows) ≡ true)
      by_case ih false f e = let (t, bounded) = ih row e in (t, rw f bounded)
      by_case ih true t e = later_of-bound r row (latest p rows) rows t (latest-none rows) ih e

  pub earliest-none : (rows : List VaultSnapshot) → earliest p rows ≡ none → any p rows ≡ false
  unfolding earliest
  earliest-none [] e = refl
  earliest-none (r ∷ rows) e = grind (arith, e, earliest-none rows)

  earliest-vacuous :
      (n : ℕ) (rows : List VaultSnapshot)
      → any p rows ≡ false
      → all (λ r. not (p r) || leb n r.block_number) rows ≡ true
  earliest-vacuous n [] h = refl
  earliest-vacuous n (r ∷ rows) h = ground (arith, h, earliest-vacuous n rows)

  earliest_mono :
      (m n : ℕ) (rows : List VaultSnapshot)
      → n ≤ m
      → all (λ r. not (p r) || leb m r.block_number) rows ≡ true
      → all (λ r. not (p r) || leb n r.block_number) rows ≡ true
  earliest_mono m n [] l h = refl
  earliest_mono m n (r ∷ rows) l h = ground (arith, l, h, earliest_mono m n rows l)

  -- The earlier of a row and the best of the rest, where there is one.
  earlier_of-bound :
      (r row : VaultSnapshot) (rest : Option VaultSnapshot) (rows : List VaultSnapshot)
      → p r ≡ true
      → (rest ≡ none → any p rows ≡ false)
      → ((best : VaultSnapshot)
          → rest ≡ some best
          → (p best ≡ true)
            × (all (λ q. not (p q) || leb best.block_number q.block_number) rows ≡ true))
      → earlier_of r rest ≡ some row
      → (p row ≡ true)
        × (all (λ q. not (p q) || leb row.block_number q.block_number) (r ∷ rows) ≡ true)
  earlier_of-bound r row none rows t absent bound e =
      let same = some_inj e in
      subst
        (λ w.
          (p w ≡ true)
          × (all (λ q. not (p q) || leb w.block_number q.block_number) (r ∷ rows) ≡ true))
        same (t, ground (arith, earliest-vacuous r.block_number rows (absent refl)))
  earlier_of-bound r row (some best) rows t absent bound e =
      let (b, bounded) = bound best refl in
      by_case b bounded (if-cases (leb r.block_number best.block_number) e)
    where
      Best : VaultSnapshot → Type 0
      Best w =
          (p w ≡ true)
          × (all (λ q. not (p q) || leb w.block_number q.block_number) (r ∷ rows) ≡ true)

      by_case :
          p best ≡ true
          → all (λ q. not (p q) || leb best.block_number q.block_number) rows ≡ true
          → ((leb r.block_number best.block_number ≡ true) × (some r ≡ some row))
            ⊎ ((leb r.block_number best.block_number ≡ false) × (some best ≡ some row))
          → Best row
      by_case b bounded (inl (low, same)) =
          subst Best (some_inj same)
            (t, ground (arith, earliest_mono best.block_number r.block_number rows))
      by_case b bounded (inr (high, same)) = subst Best (some_inj same) (b, ground (arith, bounded))

  pub earliest-some :
      (rows : List VaultSnapshot) (row : VaultSnapshot)
      → earliest p rows ≡ some row
      → (p row ≡ true) × (all (λ q. not (p q) || leb row.block_number q.block_number) rows ≡ true)
  unfolding earliest
  earliest-some [] row e = cc
  earliest-some (r ∷ rows) row e = by_case (earliest-some rows) (p r) refl e
    where
      by_case :
          ((w : VaultSnapshot)
            → earliest p rows ≡ some w
            → (p w ≡ true)
              × (all (λ q. not (p q) || leb w.block_number q.block_number) rows ≡ true))
          → (b : Bool) → p r ≡ b
          → elim b [ true ↦ earlier_of r (earliest p rows) | false ↦ earliest p rows ] ≡ some row
          → (p row ≡ true)
            × (all (λ q. not (p q) || leb row.block_number q.block_number) (r ∷ rows) ≡ true)
      by_case ih false f e = let (t, bounded) = ih row e in (t, rw f bounded)
      by_case ih true t e =
          earlier_of-bound r row (earliest p rows) rows t (earliest-none rows) ih e

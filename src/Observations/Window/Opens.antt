-- ===== src/Observations/Window/Opens.antt =====
-- The window that packages/db/src/repositories/evidence-window.ts returns.
use tr4ce_app.Prelude.{
  ℕ, ◌<◌, ◌≡◌, ◌⊎◌, inl, inr, refl, sym, ap, ◌∙◌, Bool, true, false, ◌&&◌, ◌||◌, not, Option, none,
  some, List, all, any, leb, ltb, arith, is_some, if-cases,
}
use tr4ce_app.Bytes.{Text}
use tr4ce_app.Observations.Tables.{VaultSnapshot, Tables}
use tr4ce_app.Observations.Window.{
  AdapterRow, ObservationWindow, ObservationWindowOptions, at_or_below, strictly_below,
  latest_snapshot_at_or_below, earliest_snapshot_below, usable_start, or_earliest, usable_at,
  opening, to_snapshot_row, snapshot_row_or_null, empty_window, window_to, read_observation_window,
}
use tr4ce_app.Observations.Window.Ends.{latest-none, latest-some, earliest-none, earliest-some}

-- The row is a canonical snapshot of the vault at or below the block, and none of those is later.
abbrev pub IsLatest : Text → ℕ → List VaultSnapshot → VaultSnapshot → Type 0
IsLatest vault_id block_number rows row =
    (at_or_below vault_id block_number row ≡ true)
    × (all (λ r. not (at_or_below vault_id block_number r) || leb r.block_number row.block_number)
          rows
        ≡ true)

-- The row is a canonical snapshot of the vault below the block, and none of those is earlier.
abbrev pub IsEarliest : Text → ℕ → List VaultSnapshot → VaultSnapshot → Type 0
IsEarliest vault_id block_number rows row =
    (strictly_below vault_id block_number row ≡ true)
    × (all
          (λ r. not (strictly_below vault_id block_number r) || leb row.block_number r.block_number)
          rows
        ≡ true)

-- The opening row, strictly below the end: the latest at or below the requested start, or the earliest of
-- all, and the flag says which.
abbrev pub OpensAt : ObservationWindowOptions → Tables → ℕ → Bool → VaultSnapshot → Type 0
OpensAt options tables end_block is_earliest start =
    (start.block_number < end_block)
    × (((is_earliest ≡ false)
          × IsLatest options.vault_id options.start_block tables.snapshots start)
        ⊎ ((is_earliest ≡ true) × IsEarliest options.vault_id end_block tables.snapshots start))

abbrev pub Opens : ObservationWindowOptions → Tables → ObservationWindow → Type 0
Opens options tables window =
    ((window ≡ empty_window)
      × (any (λ r. at_or_below options.vault_id options.as_of_block r) tables.snapshots ≡ false))
    ⊎ ((end : VaultSnapshot) × (window.end ≡ some (to_snapshot_row end))
        × IsLatest options.vault_id options.as_of_block tables.snapshots end
        × (((window.start ≡ none)
              × (any (λ r. strictly_below options.vault_id end.block_number r) tables.snapshots
                  ≡ false))
            ⊎ ((start : VaultSnapshot) × (window.start ≡ some (to_snapshot_row start))
                × OpensAt options tables end.block_number window.start_is_earliest_available
                    start)))

usable_start-some :
    (end : VaultSnapshot) (requested : Option VaultSnapshot) (start : VaultSnapshot)
    → usable_start end requested ≡ some start
    → (requested ≡ some start) × (start.block_number < end.block_number)
usable_start-some end none start e = cc
usable_start-some end (some row) start e =
    by_case (if-cases (ltb row.block_number end.block_number) e)
  where
    low :
        (r : VaultSnapshot)
        → ltb r.block_number end.block_number ≡ true
        → r.block_number < end.block_number
    low r h = ground arith

    by_case :
        ((ltb row.block_number end.block_number ≡ true) × (some row ≡ some start))
          ⊎ ((ltb row.block_number end.block_number ≡ false) × (none ≡ some start))
        → (some row ≡ some start) × (start.block_number < end.block_number)
    by_case (inl (l, same)) =
        (same, low start (ap (λ r. ltb r.block_number end.block_number) (sym (inj same)) ∙ l))
      where
        inj : {a b : VaultSnapshot} → some a ≡ some b → a ≡ b
        inj e = cc
    by_case (inr (_, e)) = cc

below_end :
    (vault_id : Text) (n : ℕ) (row : VaultSnapshot)
    → strictly_below vault_id n row ≡ true
    → row.block_number < n
below_end vault_id n row h = ground arith

-- What the opening is, by whether the requested start is usable.
Opening : ObservationWindowOptions → Tables → ℕ → Bool → Option VaultSnapshot → Type 0
Opening options tables end_block is_earliest start =
    ((start ≡ none)
      × (any (λ r. strictly_below options.vault_id end_block r) tables.snapshots ≡ false))
    ⊎ ((row : VaultSnapshot) × (start ≡ some row)
        × OpensAt options tables end_block is_earliest row)

Opening-cases :
    (options : ObservationWindowOptions) (tables : Tables) (end : VaultSnapshot)
    (usable : Option VaultSnapshot) (fallback : Option VaultSnapshot)
    → usable_at options end tables ≡ usable
    → earliest_snapshot_below options.vault_id end.block_number tables ≡ fallback
    → Opening options tables end.block_number
        (not (is_some usable) && is_some (or_earliest usable fallback))
        (or_earliest usable fallback)
unfolding latest_snapshot_at_or_below earliest_snapshot_below Opening
Opening-cases options tables end (some row) fallback u f =
    let (found, low) = usable_start-some end _ row u in
    inr (
      row,
      refl,
      (
        low,
        inl (
          refl,
          latest-some (at_or_below options.vault_id options.start_block) tables.snapshots row found,
        ),
      ),
    )
Opening-cases options tables end none (some row) u f =
    let spans =
      earliest-some (strictly_below options.vault_id end.block_number) tables.snapshots row f in
    inr (row, refl, (below_end options.vault_id end.block_number row spans.0, inr (refl, spans)))
Opening-cases options tables end none none u f =
    inl (refl, earliest-none (strictly_below options.vault_id end.block_number) tables.snapshots f)

Opening-rows :
    (options : ObservationWindowOptions) (tables : Tables) (end_block : ℕ) (is_earliest : Bool)
    (start : Option VaultSnapshot)
    → Opening options tables end_block is_earliest start
    → ((snapshot_row_or_null start ≡ none)
        × (any (λ r. strictly_below options.vault_id end_block r) tables.snapshots ≡ false))
      ⊎ ((row : VaultSnapshot) × (snapshot_row_or_null start ≡ some (to_snapshot_row row))
          × OpensAt options tables end_block is_earliest row)
unfolding Opening
Opening-rows options tables end_block is_earliest start (inl (e, nothing)) =
    inl (ap snapshot_row_or_null e, nothing)
Opening-rows options tables end_block is_earliest start (inr (row, e, opens)) =
    inr (row, ap snapshot_row_or_null e, opens)

window_to-Opens :
    (options : ObservationWindowOptions) (adapters : List AdapterRow) (tables : Tables)
    (end : Option VaultSnapshot)
    → latest_snapshot_at_or_below options.vault_id options.as_of_block tables ≡ end
    → Opens options tables (window_to options adapters tables end)
unfolding latest_snapshot_at_or_below opening Opening
window_to-Opens options adapters tables none e =
    inl (refl, latest-none (at_or_below options.vault_id options.as_of_block) tables.snapshots e)
window_to-Opens options adapters tables (some end) e = inr (
  end,
  refl,
  latest-some (at_or_below options.vault_id options.as_of_block) tables.snapshots end e,
  Opening-rows options tables end.block_number _ _ (
      Opening-cases options tables end (usable_at options end tables)
        (earliest_snapshot_below options.vault_id end.block_number tables) refl refl),
)

-- Where the vault has no canonical snapshot up to the block asked for, the window is empty. Otherwise it
-- ends at the latest of those, and its start is strictly below the end: the latest snapshot at or below
-- the requested start, or, flagged as such, the earliest that there is; it has no start only where no
-- canonical snapshot of the vault stands below the end.
pub read_observation_window-Opens :
    (options : ObservationWindowOptions) (adapters : List AdapterRow) (tables : Tables)
    → Opens options tables (read_observation_window options adapters tables)
unfolding read_observation_window
read_observation_window-Opens options adapters tables =
    window_to-Opens options adapters tables
      (latest_snapshot_at_or_below options.vault_id options.as_of_block tables) refl

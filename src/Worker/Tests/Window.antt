-- ===== src/Worker/Tests/Window.antt =====
-- The window of a report on the sample's vault.
use tr4ce_app.Prelude.{[], ◌∷◌}
use tr4ce_app.Observations.Window.{ObservationWindowOptions, read_observation_window}
use tr4ce_app.Observations.Window.Opens.{Opens, read_observation_window-Opens}
use tr4ce_app.Worker.Tests.Sample.{stored_tables}

abbrev last_week : ObservationWindowOptions
last_week = record { vault_id = 1 ∷ []; as_of_block = 9; start_block = 4 }

read_observation_window-Opens_example :
    Opens last_week stored_tables (read_observation_window last_week [] stored_tables)
read_observation_window-Opens_example = read_observation_window-Opens last_week [] stored_tables

-- ===== src/Journal/Tests.antt =====
-- The check of a state with a journal.
use docker_vrising.Prelude.{refl, [], ◌∷◌}
use docker_vrising.Journal.Accepted.{IsJournal, validate-IsJournal}
use docker_vrising.Journal.Example.{entry, journal, applying, applying_accepted, state_dir}

validate-IsJournal_example : IsJournal (entry ∷ [])
validate-IsJournal_example = validate-IsJournal applying state_dir journal refl applying_accepted

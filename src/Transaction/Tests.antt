-- ===== src/Transaction/Tests.antt =====
-- A journal of one replaced file, recovered.
use docker_vrising.Prelude.{
  some, none, ℕ, Bytes, bytes_beq, ◌==◌, bytes_eq, if◌then◌else◌, bytes_beq, ◌≡◌, refl, Bool, List,
  true, false, [], ◌∷◌,
}
use docker_vrising.Prelude.Result.{ok}
use docker_vrising.Recovery.States.{recoverable_existing}
use docker_vrising.Transaction.{recover_entries}
use docker_vrising.Transaction.Entries.{AllRecoverable}
use docker_vrising.Transaction.Restored.{
  recover_entries-AllRestored, recover_entries-Succeeds, interrupted_runs,
  interrupted_runs-AllRestored, AllRestored,
}
use docker_vrising.Journal.Example
use docker_vrising.Journal.Example.{applying, old_digest, new_digest}
use docker_vrising.Disk.{World, FileSnapshot}
use docker_vrising.Sample.{entry, replaced, entry-IsJournal}

replaced-AllRecoverable : AllRecoverable (entry ∷ []) replaced
unfolding recoverable_existing bytes_beq
replaced-AllRecoverable = (refl, tt)

-- Two recoveries fail, at the third and at the sixth call.
abbrev runs : List (List Bool)
runs = (false ∷ false ∷ true ∷ []) ∷ (false ∷ false ∷ false ∷ false ∷ false ∷ true ∷ []) ∷ []

interrupted_runs-AllRestored_example :
    ((recover_entries
        (entry ∷ [])
        (record (interrupted_runs (entry ∷ []) runs replaced) { faults = [] })).0
      ≡ ok tt)
    × AllRestored
        (entry ∷ [])
        (recover_entries
          (entry ∷ [])
          (record (interrupted_runs (entry ∷ []) runs replaced) { faults = [] })).1
interrupted_runs-AllRestored_example =
    interrupted_runs-AllRestored (entry ∷ []) runs replaced entry-IsJournal replaced-AllRecoverable

replaced_runs : (recover_entries (entry ∷ []) replaced).0 ≡ ok tt
replaced_runs =
    (recover_entries-Succeeds (entry ∷ []) replaced entry-IsJournal.well_formed
      entry-IsJournal.independent replaced-AllRecoverable refl).returned

recover_entries-AllRestored_example :
    AllRestored (entry ∷ []) (recover_entries (entry ∷ []) replaced).1
recover_entries-AllRestored_example =
    recover_entries-AllRestored (entry ∷ []) replaced entry-IsJournal replaced_runs

-- The state of the example, with the new file in its place and the old one in quarantine.
abbrev file_of : Bytes → ℕ → FileSnapshot
file_of digest ino = record { content = []; sha256 = digest; mode = 420; dev = 1; ino = ino }

abbrev interrupted : World
interrupted = record {
  server_files =
      λ path. if path == Example.entry.relative_path then some (file_of new_digest 2) else none;
  state_files =
      λ path. if path == Example.entry.quarantine_path then some (file_of old_digest 1) else none;
  document = some applying;
  package_lock = none;
  faults = [];
}

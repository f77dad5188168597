-- ===== src/Recovery/Tests.antt =====
-- Recovery of a replaced file.
use docker_vrising.Prelude.{bytes_beq, ◌≡◌, refl, some, [], true, false, ◌∷◌, codes}
use docker_vrising.Prelude.Result.{ok}
use docker_vrising.Disk.{World, FileSnapshot}
use docker_vrising.Recovery.{
  recover_config_journal_entry, recover_quarantined_journal_entry, recover_seen, recover_file,
  recover_existing_file, recover_replacement, finish_replacement,
}
use docker_vrising.Recovery.States.{IsRestored, IsRecoverable, live_of, recoverable_existing}
use docker_vrising.Recovery.Sound.{recover-IsRestored}
use docker_vrising.Recovery.Crash.{recover-IsRecoverable}
use docker_vrising.Recovery.Config.{recover_config-Keeps}
use docker_vrising.Recovery.Frame.{recover-keeps_foreign, Keeps}
use docker_vrising.Sample.{entry, replaced, new_file, entry-IsWellFormed}

-- The run on this disk returns no error.
replaced_recovers : (recover_quarantined_journal_entry entry replaced).0 ≡ ok tt
unfolding recover_quarantined_journal_entry recover_seen recover_file recover_existing_file
    recover_replacement finish_replacement bytes_beq
replaced_recovers = refl

replaced-IsRecoverable : IsRecoverable entry replaced
unfolding recoverable_existing bytes_beq
replaced-IsRecoverable = refl

recover-IsRestored_example : IsRestored entry (recover_quarantined_journal_entry entry replaced).1
recover-IsRestored_example = recover-IsRestored entry replaced entry-IsWellFormed replaced_recovers

-- The second call fails.
abbrev failing : World
failing = record replaced { faults = false ∷ true ∷ [] }

failing-IsRecoverable : IsRecoverable entry failing
unfolding recoverable_existing bytes_beq
failing-IsRecoverable = refl

recover-IsRecoverable_example :
    IsRecoverable entry (recover_quarantined_journal_entry entry failing).1
recover-IsRecoverable_example =
    recover-IsRecoverable entry failing entry-IsWellFormed failing-IsRecoverable

-- An operator has put a file of their own in the place of the new one.
abbrev foreign : FileSnapshot
foreign = record new_file { sha256 = codes "c" }

abbrev edited : World
edited = record replaced { server_files = λ path. some foreign }

recover-keeps_foreign_example :
    live_of entry (recover_quarantined_journal_entry entry edited).1 ≡ some foreign
unfolding bytes_beq
recover-keeps_foreign_example = recover-keeps_foreign entry foreign edited refl refl

-- The configuration's entry recovers from its quarantine.
recover_config-Keeps_example :
    Keeps (codes "y.dll") (codes "r") replaced (recover_config_journal_entry entry replaced).1
unfolding bytes_beq
recover_config-Keeps_example =
    recover_config-Keeps entry (codes "y.dll") (codes "r") replaced
      (record { live = refl; quarantine = refl; tombstone = refl })

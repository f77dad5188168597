-- ===== src/Apply/Tests.antt =====
-- A replaced file whose transaction is interrupted.
use docker_vrising.Prelude.{bytes_beq, ◌≡◌, refl, Bool, List, true, false, [], ◌∷◌, codes}
use docker_vrising.Prelude.Result.{ok}
use docker_vrising.Recovery.States.{IsRecoverable}
use docker_vrising.Transaction.{recover_entries}
use docker_vrising.Transaction.Restored.{interrupted_runs, AllRestored}
use docker_vrising.Apply.{apply_change, apply_changes}
use docker_vrising.Apply.Displaced.{IsPlanned}
use docker_vrising.Apply.Steps.{apply_change-IsRecoverable}
use docker_vrising.Apply.Rollback.{rollback-AllRestored}
use docker_vrising.Disk.{World}
use docker_vrising.Sample.{entry, staged, replacement, entry-IsJournal, entry-IsWellFormed}

-- The sixth call of the mutation loop fails.
abbrev failing : World
failing = record staged { faults = false ∷ false ∷ false ∷ false ∷ false ∷ true ∷ [] }

replacement-IsPlanned : IsPlanned replacement failing
unfolding bytes_beq
replacement-IsPlanned = record {
  existed = refl;
  original = refl;
  installed = refl;
  named = refl;
  live = refl;
  quarantine = refl;
  tombstone = refl;
}

apply_change-IsRecoverable_example :
    IsRecoverable entry (apply_change true (codes "g") replacement failing).1
apply_change-IsRecoverable_example =
    apply_change-IsRecoverable true (codes "g") replacement failing entry-IsWellFormed
      replacement-IsPlanned

-- One recovery fails too, at its third call.
abbrev runs : List (List Bool)
runs = (false ∷ false ∷ true ∷ []) ∷ []

rollback-AllRestored_example :
    let v =
      interrupted_runs
        (entry ∷ [])
        runs
        (apply_changes true (codes "g") (replacement ∷ []) failing).1 in
    let last = recover_entries (entry ∷ []) (record v { faults = [] }) in
    (last.0 ≡ ok tt) × AllRestored (entry ∷ []) last.1
rollback-AllRestored_example =
    rollback-AllRestored true (codes "g") (replacement ∷ []) runs failing entry-IsJournal
      (replacement-IsPlanned, tt)

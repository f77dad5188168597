-- ===== src/Transaction/Restored.antt =====
-- What the recovery of a whole journal achieves, and that interruptions do not prevent it.
use docker_vrising.Prelude.{◌≡◌, refl, ◌∙◌, sym, subst, Bool, List, [], ◌∷◌, All, All-map}
use docker_vrising.Prelude.Result.{ok}
use docker_vrising.State.{JournalEntry}
use docker_vrising.Disk.{World, ◌>>◌}
use docker_vrising.Disk.Laws.{Succeeds, bind-Ran, bind-Succeeds}
use docker_vrising.Journal.Accepted.{IsJournal}
use docker_vrising.Recovery.{recover_quarantined_journal_entry, sync_quarantined_journal_parents}
use docker_vrising.Recovery.States.{IsRestored, IsWellFormed}
use docker_vrising.Recovery.Frame.{AreIndependent}
use docker_vrising.Recovery.Sound.{recover-IsRestored}
use docker_vrising.Recovery.Complete.{recover-Succeeds, sync-Succeeds}
use docker_vrising.Transaction.{recover_entries}
use docker_vrising.Transaction.Entries.{
  IsSame-trans, IsRestored-IsSame, sync-IsSame, after_recovery, after_sync, AllRecoverable,
  AllRecoverable-first, recover-IsSame, recover_entries-IsSame, recover_entries-AllRecoverable,
  IsIndependent-sym,
}

abbrev pub AllRestored : List JournalEntry → World → Type 0
AllRestored es w = All (λ e. IsRestored e w) es

-- When the recovery of a well-formed journal returns no error, every file that the transaction
-- displaced is back, every file that it added is gone, and no artifact is left, whatever the disk
-- held before.
pub recover_entries-AllRestored :
    (es : List JournalEntry) (w : World)
    → IsJournal es
    → (recover_entries es w).0 ≡ ok tt
    → AllRestored es (recover_entries es w).1
unfolding recover_entries
recover_entries-AllRestored [] w j h = tt
recover_entries-AllRestored (e ∷ es) w j h =
    let r =
      bind-Ran (recover_quarantined_journal_entry e)
        (λ _. sync_quarantined_journal_parents e >> recover_entries es) w h in
    let s =
      bind-Ran (sync_quarantined_journal_parents e) (λ _. recover_entries es) (after_recovery e w)
        r.second in
    let here = recover-IsRestored e w j.well_formed.0 r.first in
    let kept =
      IsSame-trans e (after_recovery e w) (after_sync e w) _ (sync-IsSame e e (after_recovery e w))
        (recover_entries-IsSame e es (after_sync e w)
          (All-map (IsIndependent-sym e) es j.independent.0)) in
    let rest =
      recover_entries-AllRestored es (after_sync e w)
        (record { well_formed = j.well_formed.1; independent = j.independent.1 }) s.second in
    subst (AllRestored (e ∷ es)) (sym (r.world ∙ s.world)) (IsRestored-IsSame e kept here, rest)

pub recover_entries-Succeeds :
    (es : List JournalEntry) (w : World)
    → All IsWellFormed es
    → AreIndependent es
    → AllRecoverable es w
    → w.faults ≡ []
    → Succeeds (recover_entries es) w tt
unfolding recover_entries
recover_entries-Succeeds [] w wf apart h quiet = record { returned = refl; quiet = quiet }
recover_entries-Succeeds (e ∷ es) w wf apart h quiet =
    let w1 = after_recovery e w in
    let first = recover-Succeeds e w wf.0 h.0 quiet in
    let second = sync-Succeeds e w1 first.quiet in
    let rest1 = AllRecoverable-first e es w w1 apart.0 (λ e'. recover-IsSame e' e w) h.1 in
    let rest2 =
      AllRecoverable-first e es w1 (after_sync e w) apart.0 (λ e' _. sync-IsSame e' e w1) rest1 in
    bind-Succeeds (recover_quarantined_journal_entry e)
      (λ _. sync_quarantined_journal_parents e >> recover_entries es) w first
      (bind-Succeeds (sync_quarantined_journal_parents e) (λ _. recover_entries es) w1 second
        (recover_entries-Succeeds es (after_sync e w) wf.1 apart.1 rest2 second.quiet))

-- Runs of the recovery that meet the given failures, one after another, each from the disk that
-- the one before it left.
abbrev pub interrupted_runs : List JournalEntry → List (List Bool) → World → World
interrupted_runs es [] w = w
interrupted_runs es (faults ∷ runs) w =
    interrupted_runs es runs (recover_entries es (record w { faults = faults })).1

interrupted_runs-AllRecoverable :
    (es : List JournalEntry) (runs : List (List Bool)) (w : World)
    → IsJournal es
    → AllRecoverable es w
    → AllRecoverable es (interrupted_runs es runs w)
interrupted_runs-AllRecoverable es [] w j h = h
interrupted_runs-AllRecoverable es (faults ∷ runs) w j h =
    let w' = record w { faults = faults } in
    interrupted_runs-AllRecoverable es runs (recover_entries es w').1 j
      (recover_entries-AllRecoverable es w' j.well_formed j.independent h)

-- From a disk on which each entry of a well-formed journal is recoverable, and after any number of
-- recoveries that failed or crashed at any call, a recovery in which no call fails returns no
-- error and restores every entry.
pub interrupted_runs-AllRestored :
    (es : List JournalEntry) (runs : List (List Bool)) (w : World)
    → IsJournal es
    → AllRecoverable es w
    → ((recover_entries es (record (interrupted_runs es runs w) { faults = [] })).0 ≡ ok tt)
      × AllRestored es (recover_entries es (record (interrupted_runs es runs w) { faults = [] })).1
interrupted_runs-AllRestored es runs w j h =
    let w' = record (interrupted_runs es runs w) { faults = [] } in
    let done =
      recover_entries-Succeeds es w' j.well_formed j.independent
        (interrupted_runs-AllRecoverable es runs w j h) refl in
    (done.returned, recover_entries-AllRestored es w' j done.returned)

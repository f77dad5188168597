-- ===== src/Apply/Rollback.antt =====
-- The mutation loop of `Apply`, interrupted anywhere, followed by the recovery of its journal.
use docker_vrising.Prelude.{◌≡◌, refl, ◌∙◌, Bool, List, [], ◌∷◌, map, All, Bytes}
use docker_vrising.Prelude.Result.{ok}
use docker_vrising.State.{JournalEntry}
use docker_vrising.Disk.{World}
use docker_vrising.Disk.Laws.{bind-keeps}
use docker_vrising.Journal.Accepted.{IsJournal}
use docker_vrising.Recovery.States.{IsWellFormed}
use docker_vrising.Recovery.Frame.{IsIndependent, AreIndependent}
use docker_vrising.Transaction.{recover_entries}
use docker_vrising.Transaction.Entries.{
  IsSame, IsSame-of_Keeps, IsSame-trans, IsRecoverable-IsSame, AllRecoverable, IsIndependent-sym,
}
use docker_vrising.Transaction.Restored.{
  interrupted_runs, interrupted_runs-AllRestored, AllRestored,
}
use docker_vrising.Apply.{Change, apply_change, apply_changes}
use docker_vrising.Apply.Displaced.{IsPlanned}
use docker_vrising.Apply.Steps.{IsPlanned-IsRecoverable, apply_change-IsRecoverable}
use docker_vrising.Apply.Frame.{apply_change-Keeps}

abbrev pub entries_of : List Change → List JournalEntry
entries_of changes = map (λ c. c.entry) changes

-- Every change of the plan finds its path as it was inspected, with no artifact in its place.
abbrev pub AllPlanned : List Change → World → Type 0
AllPlanned changes w = All (λ c. IsPlanned c w) changes

module _ (root : Bool) (id : Bytes) where
  apply_change-IsSame :
      (c : Change) (e : JournalEntry) (w : World)
      → IsIndependent c.entry e
      → IsSame e w (apply_change root id c w).1
  apply_change-IsSame c e w i =
      IsSame-of_Keeps e
        (apply_change-Keeps root id c e.relative_path e.quarantine_path w i.quarantine_outside)
        (apply_change-Keeps root id c e.relative_path e.tombstone_path w i.tombstone_outside)

  apply_changes-IsSame :
      (changes : List Change) (e : JournalEntry) (w : World)
      → All (IsIndependent e) (entries_of changes)
      → IsSame e w (apply_changes root id changes w).1
  unfolding apply_changes
  apply_changes-IsSame [] e w apart = record { live = refl; quarantine = refl; tombstone = refl }
  apply_changes-IsSame (c ∷ changes) e w apart =
      let first = apply_change-IsSame c e w (IsIndependent-sym e c.entry apart.0) in
      bind-keeps (IsSame e w) (apply_change root id c) (λ _. apply_changes root id changes) w first
        (λ _ _.
          IsSame-trans e w (apply_change root id c w).1 _ first
            (apply_changes-IsSame changes e _ apart.1))

  IsPlanned-IsSame :
      (c : Change) (w w' : World) → IsSame c.entry w w' → IsPlanned c w → IsPlanned c w'
  IsPlanned-IsSame c w w' s p = record {
    existed = p.existed;
    original = p.original;
    installed = p.installed;
    named = p.named;
    live = s.live ∙ p.live;
    quarantine = s.quarantine ∙ p.quarantine;
    tombstone = s.tombstone ∙ p.tombstone;
  }

  AllPlanned-later :
      (c : Change) (changes : List Change) (w : World)
      → All (IsIndependent c.entry) (entries_of changes)
      → AllPlanned changes w
      → AllPlanned changes (apply_change root id c w).1
  AllPlanned-later c [] w apart h = tt
  AllPlanned-later c (d ∷ changes) w apart h = (
    IsPlanned-IsSame d w _ (apply_change-IsSame c d.entry w apart.0) h.0,
    AllPlanned-later c changes w apart.1 h.1,
  )

  AllPlanned-AllRecoverable :
      (changes : List Change) (w : World)
      → AllPlanned changes w
      → AllRecoverable (entries_of changes) w
  AllPlanned-AllRecoverable [] w h = tt
  AllPlanned-AllRecoverable (c ∷ changes) w h =
      (IsPlanned-IsRecoverable c w h.0, AllPlanned-AllRecoverable changes w h.1)

  -- Wherever the mutation loop stops, all its entries can be recovered.
  apply_changes-AllRecoverable :
      (changes : List Change) (w : World)
      → All IsWellFormed (entries_of changes)
      → AreIndependent (entries_of changes)
      → AllPlanned changes w
      → AllRecoverable (entries_of changes) (apply_changes root id changes w).1
  unfolding apply_changes
  apply_changes-AllRecoverable [] w wf apart h = tt
  apply_changes-AllRecoverable (c ∷ changes) w wf apart h =
      let w1 = (apply_change root id c w).1 in
      let here = apply_change-IsRecoverable root id c w wf.0 h.0 in
      let rest = AllPlanned-later c changes w apart.0 h.1 in
      bind-keeps (AllRecoverable (entries_of (c ∷ changes))) (apply_change root id c)
        (λ _. apply_changes root id changes) w (here, AllPlanned-AllRecoverable changes w1 rest)
        (λ _ _. (
          IsRecoverable-IsSame c.entry (apply_changes-IsSame changes c.entry w1 apart.0) here,
          apply_changes-AllRecoverable changes w1 wf.1 apart.1 rest,
        ))

-- The mutation loop stops anywhere, at a failed call, at a changed file or at its end; any number
-- of recoveries of its journal then fail or crash at any call. If the journal is well formed and
-- the disk was as inspected when the loop began, a recovery in which no call fails returns no error
-- and leaves every displaced file back in its place, every added file gone, and no artifact.
pub rollback-AllRestored :
    (root : Bool) (id : Bytes) (changes : List Change) (runs : List (List Bool)) (w : World)
    → IsJournal (entries_of changes)
    → AllPlanned changes w
    → let v = interrupted_runs (entries_of changes) runs (apply_changes root id changes w).1 in
      let last = recover_entries (entries_of changes) (record v { faults = [] }) in
      (last.0 ≡ ok tt) × AllRestored (entries_of changes) last.1
rollback-AllRestored root id changes runs w j h =
    interrupted_runs-AllRestored (entries_of changes) runs (apply_changes root id changes w).1 j
      (apply_changes-AllRecoverable root id changes w j.well_formed j.independent h)

-- ===== src/Recovery/Crash.antt =====
-- Recovery that is interrupted: whatever calls fail, the entry stays recoverable, and a recovery
-- in which none fails succeeds.
use docker_vrising.Prelude.{
  ◌≡◌, arith, bytes_beq_refl, bytes_beq, Option, none, some, true, false, [],
}
use mathlib.Core.List.{tail}
use docker_vrising.State.{JournalEntry}
use docker_vrising.Disk.{World, set_file, FileSnapshot, advance, attempt_lem}
use docker_vrising.Recovery.{
  recover_new_file, recover_stale_deletion, recover_replacement, finish_replacement,
  recover_existing_file, recover_seen, recover_quarantined_journal_entry,
}
use docker_vrising.Recovery.Branches.{recover_seen-keeps}
use docker_vrising.Recovery.States.{
  IsWellFormed, Sees, Sees-IsRecoverable, seen, live_of, quarantine_of, tombstone_of, recoverable,
  IsRecoverable, recoverable_new, recoverable_existing,
}

-- The world in which the live file has just been moved to the tombstone.
abbrev moved_out : JournalEntry → FileSnapshot → World → World
moved_out e f w = record w {
  server_files = set_file w.server_files e.relative_path none;
  state_files = set_file w.state_files e.tombstone_path (some f);
  faults = tail (tail (tail w.faults));
}

finish_replacement-IsRecoverable :
    (e : JournalEntry) (w : World)
    → IsWellFormed e
    → e.existed ≡ true
    → (q f : FileSnapshot) → Sees e w none (some q) (some f)
    → recoverable e none (some q) (some f) ≡ true
    → IsRecoverable e (finish_replacement e w).1
unfolding finish_replacement recoverable_existing
finish_replacement-IsRecoverable e w wf old q f sees h = ground (
  arith,
  bytes_beq_refl e.quarantine_path,
  bytes_beq_refl e.tombstone_path,
  bytes_beq_refl e.relative_path,
)

module _ (e : JournalEntry) (w : World) (wf : IsWellFormed e) where
  recover_new_file-IsRecoverable :
      (live quarantine tombstone : Option FileSnapshot)
      → e.existed ≡ false
      → Sees e w live quarantine tombstone
      → recoverable e live quarantine tombstone ≡ true
      → IsRecoverable e (recover_new_file e live quarantine tombstone w).1
  unfolding recover_new_file recoverable_new
  recover_new_file-IsRecoverable live quarantine tombstone new sees h =
      ground (arith, bytes_beq_refl e.tombstone_path, bytes_beq_refl e.relative_path)

  module _ (old : e.existed ≡ true) where
    recover_without_quarantine-IsRecoverable :
        (live tombstone : Option FileSnapshot)
        → Sees e w live none tombstone
        → recoverable e live none tombstone ≡ true
        → IsRecoverable e (recover_existing_file e live none tombstone w).1
    unfolding recover_existing_file recoverable_existing
    recover_without_quarantine-IsRecoverable live tombstone sees h =
        ground (arith, bytes_beq_refl e.tombstone_path)

    recover_stale_deletion-IsRecoverable :
        (live tombstone : Option FileSnapshot) (q : FileSnapshot)
        → Sees e w live (some q) tombstone
        → bytes_beq e.installed_sha256 [] ≡ true
        → recoverable e live (some q) tombstone ≡ true
        → IsRecoverable e (recover_stale_deletion e live tombstone w).1
    unfolding recover_stale_deletion recoverable_existing
    recover_stale_deletion-IsRecoverable live tombstone q sees empty h =
        ground (arith, bytes_beq_refl e.quarantine_path, bytes_beq_refl e.relative_path)

    recover_replacement-IsRecoverable :
        (live tombstone : Option FileSnapshot) (q : FileSnapshot)
        → Sees e w live (some q) tombstone
        → bytes_beq e.installed_sha256 [] ≡ false
        → recoverable e live (some q) tombstone ≡ true
        → IsRecoverable e (recover_replacement e live tombstone w).1
    unfolding recover_replacement recoverable_existing
    recover_replacement-IsRecoverable none none q sees full h = ground (
      arith,
      bytes_beq_refl e.quarantine_path,
      bytes_beq_refl e.tombstone_path,
      bytes_beq_refl e.relative_path,
    )
    recover_replacement-IsRecoverable none (some t) q sees full h = ground (
      arith,
      bytes_beq_refl e.quarantine_path,
      bytes_beq_refl e.tombstone_path,
      bytes_beq_refl e.relative_path,
    )
    recover_replacement-IsRecoverable (some f) none q sees full h = ground (
      arith,
      bytes_beq_refl e.quarantine_path,
      bytes_beq_refl e.tombstone_path,
      bytes_beq_refl e.relative_path,
      finish_replacement-IsRecoverable e (moved_out e f w) wf old q f,
    )
    recover_replacement-IsRecoverable (some f) (some t) q sees full h = ground (
      arith,
      bytes_beq_refl e.quarantine_path,
      bytes_beq_refl e.tombstone_path,
      bytes_beq_refl e.relative_path,
    )

    recover_existing_file-IsRecoverable :
        (live tombstone : Option FileSnapshot) (q : FileSnapshot)
        → Sees e w live (some q) tombstone
        → recoverable e live (some q) tombstone ≡ true
        → IsRecoverable e (recover_existing_file e live (some q) tombstone w).1
    unfolding recover_existing_file recoverable_existing
    recover_existing_file-IsRecoverable live tombstone q sees h = ground (
      arith,
      recover_stale_deletion-IsRecoverable live tombstone q sees,
      recover_replacement-IsRecoverable live tombstone q sees,
      bytes_beq_refl e.quarantine_path,
    )

  recover_existing-IsRecoverable :
      e.existed ≡ true
      → (live quarantine tombstone : Option FileSnapshot) → Sees e w live quarantine tombstone
      → recoverable e live quarantine tombstone ≡ true
      → IsRecoverable e (recover_existing_file e live quarantine tombstone w).1
  recover_existing-IsRecoverable old live none tombstone sees h =
      recover_without_quarantine-IsRecoverable old live tombstone sees h
  recover_existing-IsRecoverable old live (some q) tombstone sees h =
      recover_existing_file-IsRecoverable old live tombstone q sees h

  module _ (live quarantine tombstone : Option FileSnapshot)
      (sees : Sees e w live quarantine tombstone)
      (h : recoverable e live quarantine tombstone ≡ true) where
    recover_seen-IsRecoverable : IsRecoverable e (recover_seen e live quarantine tombstone w).1
    recover_seen-IsRecoverable =
        recover_seen-keeps (IsRecoverable e) e live quarantine tombstone w
          (Sees-IsRecoverable e w sees h)
          (λ old. recover_existing-IsRecoverable old live quarantine tombstone sees h)
          (λ new. recover_new_file-IsRecoverable live quarantine tombstone new sees h)

-- Whatever calls fail, the recovery of a well-formed entry that is recoverable leaves it
-- recoverable.
pub recover-IsRecoverable :
    (e : JournalEntry) (w : World)
    → IsWellFormed e
    → IsRecoverable e w
    → IsRecoverable e (recover_quarantined_journal_entry e w).1
unfolding recover_quarantined_journal_entry
recover-IsRecoverable e w wf h =
    let w' = advance (advance (advance w)) in
    ground (
      arith,
      attempt_lem w,
      attempt_lem (advance w),
      attempt_lem (advance (advance w)),
      recover_seen-IsRecoverable e w' wf (live_of e w) (quarantine_of e w) (tombstone_of e w)
          (seen e w'),
    )

-- ===== src/Recovery/Sound.antt =====
-- What a recovery that returns no error has done, whatever the disk held before it.
use docker_vrising.Prelude.{◌≡◌, arith, bytes_beq_refl, bytes_beq, Option, none, some, true, false}
use docker_vrising.Prelude.Result.{ok}
use docker_vrising.State.{JournalEntry}
use docker_vrising.Disk.{World, FileSnapshot, advance, attempt_lem}
use docker_vrising.Recovery.{
  recover_new_file, recover_stale_deletion, recover_replacement, finish_replacement,
  recover_existing_file, recover_file, recover_seen, recover_quarantined_journal_entry,
}
use docker_vrising.Recovery.States.{
  IsWellFormed, IsRestored, Sees, seen, live_of, quarantine_of, tombstone_of,
}

module _ (e : JournalEntry) (w : World) (wf : IsWellFormed e) where
  recover_new_file-IsRestored :
      (live quarantine tombstone : Option FileSnapshot)
      → e.existed ≡ false
      → Sees e w live quarantine tombstone
      → (recover_new_file e live quarantine tombstone w).0 ≡ ok tt
      → IsRestored e (recover_new_file e live quarantine tombstone w).1
  unfolding recover_new_file
  recover_new_file-IsRestored live quarantine tombstone new sees h =
      ground (arith, bytes_beq_refl e.tombstone_path, bytes_beq_refl e.relative_path)

  recover_without_quarantine-IsRestored :
      (live tombstone : Option FileSnapshot)
      → e.existed ≡ true
      → Sees e w live none tombstone
      → (recover_existing_file e live none tombstone w).0 ≡ ok tt
      → IsRestored e (recover_existing_file e live none tombstone w).1
  unfolding recover_existing_file
  recover_without_quarantine-IsRestored live tombstone old sees h =
      ground (arith, bytes_beq_refl e.tombstone_path)

  module _ (live tombstone : Option FileSnapshot) (q : FileSnapshot) (old : e.existed ≡ true)
      (is_original : bytes_beq q.sha256 e.original_sha256 ≡ true)
      (sees : Sees e w live (some q) tombstone) where
    recover_stale_deletion-IsRestored :
        (recover_stale_deletion e live tombstone w).0 ≡ ok tt
        → IsRestored e (recover_stale_deletion e live tombstone w).1
    unfolding recover_stale_deletion
    recover_stale_deletion-IsRestored h =
        ground (arith, bytes_beq_refl e.quarantine_path, bytes_beq_refl e.relative_path)

    recover_replacement-IsRestored :
        (recover_replacement e live tombstone w).0 ≡ ok tt
        → IsRestored e (recover_replacement e live tombstone w).1
    unfolding recover_replacement finish_replacement
    recover_replacement-IsRestored h = ground (
      arith,
      bytes_beq_refl e.quarantine_path,
      bytes_beq_refl e.tombstone_path,
      bytes_beq_refl e.relative_path,
    )

    recover_existing_file-IsRestored :
        (recover_existing_file e live (some q) tombstone w).0 ≡ ok tt
        → IsRestored e (recover_existing_file e live (some q) tombstone w).1
    unfolding recover_existing_file
    recover_existing_file-IsRestored h = ground (
      arith,
      recover_stale_deletion-IsRestored,
      recover_replacement-IsRestored,
      bytes_beq_refl e.quarantine_path,
    )

  recover_seen-IsRestored :
      (live quarantine tombstone : Option FileSnapshot)
      → Sees e w live quarantine tombstone
      → (recover_seen e live quarantine tombstone w).0 ≡ ok tt
      → IsRestored e (recover_seen e live quarantine tombstone w).1
  unfolding recover_seen recover_file
  recover_seen-IsRestored live none tombstone sees h = ground (
    arith,
    recover_new_file-IsRestored live none tombstone,
    recover_without_quarantine-IsRestored live tombstone,
  )
  recover_seen-IsRestored live (some q) tombstone sees h =
      ground (arith, recover_existing_file-IsRestored live tombstone q)

-- A recovery of a well-formed entry that returns no error has put the displaced file back, or
-- removed the added one, and left neither artifact, whatever the three files were and whichever
-- calls were to fail.
pub recover-IsRestored :
    (e : JournalEntry) (w : World)
    → IsWellFormed e
    → (recover_quarantined_journal_entry e w).0 ≡ ok tt
    → IsRestored e (recover_quarantined_journal_entry e w).1
unfolding recover_quarantined_journal_entry
recover-IsRestored e w wf h =
    let w' = advance (advance (advance w)) in
    ground (
      arith,
      attempt_lem w,
      attempt_lem (advance w),
      attempt_lem (advance (advance w)),
      recover_seen-IsRestored e w' wf (live_of e w) (quarantine_of e w) (tombstone_of e w)
          (seen e w'),
    )

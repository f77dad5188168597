-- ===== src/Recovery/Complete.antt =====
-- A recovery in which no call fails succeeds on every recoverable entry.
use docker_vrising.Prelude.{
  Bool, refl, ap, ◌≡◌, arith, bytes_beq_refl, bytes_beq, Option, none, some, true, false, [], ◌&&◌,
  not,
}
use mathlib.Core.List.{tail}
use docker_vrising.State.{JournalEntry}
use docker_vrising.Disk.{World, FileSnapshot, advance, attempt_lem, attempt}
use docker_vrising.Disk.Laws.{Succeeds}
use docker_vrising.Recovery.{
  recover_new_file, recover_stale_deletion, recover_replacement, finish_replacement,
  recover_existing_file, recover_file, recover_seen, exists, has_digest,
  recover_quarantined_journal_entry, sync_quarantined_journal_parents,
}
use docker_vrising.Recovery.States.{
  IsWellFormed, Sees, seen, live_of, quarantine_of, tombstone_of, recoverable, IsRecoverable,
  recoverable_new, recoverable_existing,
}

-- A snapshot agrees with itself, so an artifact that nobody else touches is removed.
abbrev digest_agrees : Option FileSnapshot → Bool
digest_agrees none = true
digest_agrees (some f) = bytes_beq f.sha256 f.sha256

digest_agrees_lem : (f : Option FileSnapshot) → digest_agrees f ≡ true
digest_agrees_lem none = refl
digest_agrees_lem (some f) = bytes_beq_refl f.sha256

module _ (e : JournalEntry) (w : World) (wf : IsWellFormed e) (quiet : w.faults ≡ [])
    (live tombstone : Option FileSnapshot) where
  recover_new_file-Succeeds :
      e.existed ≡ false
      → Sees e w live none tombstone
      → recoverable e live none tombstone ≡ true
      → Succeeds (recover_new_file e live none tombstone) w tt
  unfolding recover_new_file recoverable_new
  recover_new_file-Succeeds new sees h = ground (
    arith,
    digest_agrees_lem live,
    digest_agrees_lem tombstone,
    bytes_beq_refl e.tombstone_path,
    bytes_beq_refl e.relative_path,
  )

  module _ (old : e.existed ≡ true) where
    recover_without_quarantine-Succeeds :
        Sees e w live none tombstone
        → recoverable e live none tombstone ≡ true
        → Succeeds (recover_existing_file e live none tombstone) w tt
    unfolding recover_existing_file recoverable_existing
    recover_without_quarantine-Succeeds sees h =
        ground (arith, digest_agrees_lem tombstone, bytes_beq_refl e.tombstone_path)

    module _ (q : FileSnapshot) (sees : Sees e w live (some q) tombstone)
        (h : recoverable e live (some q) tombstone ≡ true) where
      recover_stale_deletion-Succeeds :
          bytes_beq e.installed_sha256 [] ≡ true
          → has_digest live e.original_sha256 && not (exists tombstone) ≡ false
          → Succeeds (recover_stale_deletion e live tombstone) w tt
      unfolding recover_stale_deletion recoverable_existing
      recover_stale_deletion-Succeeds empty elsewhere = ground (
        arith,
        digest_agrees_lem live,
        digest_agrees_lem tombstone,
        bytes_beq_refl e.quarantine_path,
        bytes_beq_refl e.relative_path,
      )

      recover_replacement-Succeeds :
          bytes_beq e.installed_sha256 [] ≡ false
          → Succeeds (recover_replacement e live tombstone) w tt
      unfolding recover_replacement finish_replacement recoverable_existing
      recover_replacement-Succeeds full = ground (
        arith,
        digest_agrees_lem live,
        digest_agrees_lem tombstone,
        bytes_beq_refl e.quarantine_path,
        bytes_beq_refl e.tombstone_path,
        bytes_beq_refl e.relative_path,
      )

      recover_existing_file-Succeeds :
          Succeeds (recover_existing_file e live (some q) tombstone) w tt
      unfolding recover_existing_file recoverable_existing
      recover_existing_file-Succeeds = ground (
        arith,
        recover_stale_deletion-Succeeds,
        recover_replacement-Succeeds,
        bytes_beq_refl e.quarantine_path,
        bytes_beq_refl q.sha256,
      )

    recover_existing-Succeeds :
        (quarantine : Option FileSnapshot)
        → Sees e w live quarantine tombstone
        → recoverable e live quarantine tombstone ≡ true
        → Succeeds (recover_existing_file e live quarantine tombstone) w tt
    recover_existing-Succeeds none sees h = recover_without_quarantine-Succeeds sees h
    recover_existing-Succeeds (some q) sees h = recover_existing_file-Succeeds q sees h

  recover_seen-Succeeds :
      (quarantine : Option FileSnapshot)
      → Sees e w live quarantine tombstone
      → recoverable e live quarantine tombstone ≡ true
      → Succeeds (recover_seen e live quarantine tombstone) w tt
  unfolding recover_seen recover_file recoverable_existing recoverable_new
  recover_seen-Succeeds none sees h = ground (
    arith,
    recover_new_file-Succeeds,
    λ (old : e.existed ≡ true). recover_existing-Succeeds old none,
  )
  recover_seen-Succeeds (some q) sees h =
      ground (arith, λ (old : e.existed ≡ true). recover_existing-Succeeds old (some q))

-- With no call failing, the recovery of a well-formed entry that is recoverable returns no error.
pub recover-Succeeds :
    (e : JournalEntry) (w : World)
    → IsWellFormed e
    → IsRecoverable e w
    → w.faults ≡ []
    → Succeeds (recover_quarantined_journal_entry e) w tt
unfolding recover_quarantined_journal_entry
recover-Succeeds e w wf h quiet =
    let w' = advance (advance (advance w)) in
    ground (
      arith,
      attempt_lem w,
      attempt_lem (advance w),
      attempt_lem (advance (advance w)),
      recover_seen-Succeeds e w' wf (ap (λ l. tail (tail (tail l))) quiet) (live_of e w)
          (tombstone_of e w) (quarantine_of e w) (seen e w'),
    )

pub sync-Succeeds :
    (e : JournalEntry) (w : World)
    → w.faults ≡ []
    → Succeeds (sync_quarantined_journal_parents e) w tt
unfolding sync_quarantined_journal_parents attempt
sync-Succeeds e w quiet = ground arith

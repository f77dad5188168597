-- ===== src/Recovery/Branches.antt =====
-- What holds before recovery and after each of its branches holds after it, whichever is taken.
use docker_vrising.Prelude.{◌≡◌, true, false, Option}
use docker_vrising.State.{JournalEntry}
use docker_vrising.Disk.{
  World, FileSnapshot, ◌>>◌, fail_if, fail_if-keeps, if-keeps, quarantine_changed,
  tombstone_changed,
}
use docker_vrising.Recovery.{
  quarantine_unexpected, tombstone_unexpected, recover_new_file, recover_existing_file,
  recover_file, recover_seen,
}

module _ (P : World → Type 0) (e : JournalEntry) (live quarantine tombstone : Option FileSnapshot)
    (w : World) where
  pub recover_seen-keeps :
      P w
      → (e.existed ≡ true → P (recover_existing_file e live quarantine tombstone w).1)
      → (e.existed ≡ false → P (recover_new_file e live quarantine tombstone w).1)
      → P (recover_seen e live quarantine tombstone w).1
  unfolding recover_seen recover_file
  recover_seen-keeps before old new =
      fail_if-keeps P (quarantine_unexpected e quarantine) quarantine_changed
        (do
          fail_if (tombstone_unexpected e tombstone) tombstone_changed
          recover_file e live quarantine tombstone)
        w before
        (fail_if-keeps P (tombstone_unexpected e tombstone) tombstone_changed
          (recover_file e live quarantine tombstone) w before
          (if-keeps P e.existed (recover_existing_file e live quarantine tombstone)
            (recover_new_file e live quarantine tombstone) w old new))

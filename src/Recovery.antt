-- ===== src/Recovery.antt =====
-- state.go: `recoverQuarantinedJournalEntry`, `recoverConfigJournalEntry` and the helpers that
-- they call. The test hooks of `Store` are nil in the program and have no step here.
pub mod States
mod Branches
pub mod Sound
pub mod Crash
pub mod Frame
pub mod Complete
pub mod Config
mod Tests
use docker_vrising.Prelude.{
  Bool, true, false, ◌&&◌, ◌||◌, not, Option, none, some, [], ◌==◌, bytes_eq, Bytes, if◌then◌else◌,
}
use docker_vrising.State.{JournalEntry}
use docker_vrising.Disk.{
  server, state, FileSnapshot, Disk, ◌>>=◌, ◌>>◌, pure, fail, fail_if, quarantine_changed,
  tombstone_changed, unexpected_quarantine, unexpected_tombstone, live_appeared, live_changed,
  original_missing, tombstone_unverified, unobserved_config, snapshot_file_below,
  move_file_no_replace, remove_journal_artifact, sync_parent,
}

abbrev pub exists : Option FileSnapshot → Bool
exists none = false
exists (some _) = true

-- `exists && snapshot.SHA256 == digest`
abbrev pub has_digest : Option FileSnapshot → Bytes → Bool
has_digest none digest = false
has_digest (some f) digest = f.sha256 == digest

-- A file that stands at a journal artifact's path with content that the journal does not name.
abbrev pub unexpected : Option FileSnapshot → Bool → Bytes → Bool
unexpected f permitted digest = exists f && (not permitted || not (has_digest f digest))

abbrev pub remove_if_present : Bytes → Option FileSnapshot → Disk (Unit {0})
remove_if_present p none = pure tt
remove_if_present p (some f) = remove_journal_artifact p f

-- The file moved to the tombstone is read again, compared and removed.
abbrev pub verify_tombstone : JournalEntry → Option FileSnapshot → Disk (Unit {0})
verify_tombstone e none = fail tombstone_unverified
verify_tombstone e (some f) =
    if f.sha256 == e.installed_sha256
    then remove_journal_artifact e.tombstone_path f
    else fail tombstone_unverified

abbrev pub restore : JournalEntry → Disk (Unit {0})
restore e = move_file_no_replace state e.quarantine_path server e.relative_path

-- The branch of `!entry.Existed`.
unfoldable pub recover_new_file :
    JournalEntry → Option FileSnapshot → Option FileSnapshot → Option FileSnapshot → Disk (Unit {0})
unfolding snapshot_file_below move_file_no_replace remove_journal_artifact sync_parent
recover_new_file e live (some _) tombstone = fail unexpected_quarantine
recover_new_file e (some _) none (some t) = fail live_appeared
recover_new_file e none none (some t) = remove_journal_artifact e.tombstone_path t
recover_new_file e none none none = pure tt
recover_new_file e (some f) none none =
    if not (f.sha256 == e.installed_sha256) then fail live_changed else do
      move_file_no_replace server e.relative_path state e.tombstone_path
      moved ← snapshot_file_below state e.tombstone_path
      verify_tombstone e moved

-- A file was there and is not in quarantine.
unfoldable pub recover_without_quarantine :
    JournalEntry → Option FileSnapshot → Option FileSnapshot → Disk (Unit {0})
unfolding snapshot_file_below move_file_no_replace remove_journal_artifact sync_parent
recover_without_quarantine e live tombstone =
    if has_digest live e.original_sha256
    then remove_if_present e.tombstone_path tombstone
    else fail original_missing

-- The journal entry installs no new file: `entry.InstalledSHA256 == ""`.
unfoldable pub recover_stale_deletion :
    JournalEntry → Option FileSnapshot → Option FileSnapshot → Disk (Unit {0})
unfolding snapshot_file_below move_file_no_replace remove_journal_artifact sync_parent
recover_stale_deletion e live (some _) = fail unexpected_tombstone
recover_stale_deletion e (some _) none = fail live_appeared
recover_stale_deletion e none none = restore e

-- The installed file is in the tombstone: the original goes back, and the tombstone is removed.
unfoldable pub finish_replacement : JournalEntry → Disk (Unit {0})
unfolding snapshot_file_below move_file_no_replace remove_journal_artifact
finish_replacement e = do
  restore e
  moved ← snapshot_file_below state e.tombstone_path
  verify_tombstone e moved

unfoldable pub recover_replacement :
    JournalEntry → Option FileSnapshot → Option FileSnapshot → Disk (Unit {0})
unfolding move_file_no_replace remove_journal_artifact
recover_replacement e (some _) (some t) = fail live_appeared
recover_replacement e none (some t) = do restore e; remove_journal_artifact e.tombstone_path t
recover_replacement e none none = restore e
recover_replacement e (some f) none =
    if not (f.sha256 == e.installed_sha256)
    then fail live_changed
    else do move_file_no_replace server e.relative_path state e.tombstone_path; finish_replacement e

unfoldable pub recover_existing_file :
    JournalEntry → Option FileSnapshot → Option FileSnapshot → Option FileSnapshot → Disk (Unit {0})
unfolding recover_without_quarantine recover_stale_deletion recover_replacement
    remove_journal_artifact sync_parent
recover_existing_file e live none tombstone = recover_without_quarantine e live tombstone
recover_existing_file e live (some q) tombstone =
    if has_digest live e.original_sha256 && not (exists tombstone)
    then (do sync_parent server e.relative_path; remove_journal_artifact e.quarantine_path q)
    else if e.installed_sha256 == []
    then recover_stale_deletion e live tombstone
    else recover_replacement e live tombstone

unfoldable pub recover_file :
    JournalEntry → Option FileSnapshot → Option FileSnapshot → Option FileSnapshot → Disk (Unit {0})
recover_file e live quarantine tombstone =
    if e.existed
    then recover_existing_file e live quarantine tombstone
    else recover_new_file e live quarantine tombstone

abbrev pub quarantine_unexpected : JournalEntry → Option FileSnapshot → Bool
quarantine_unexpected e quarantine = unexpected quarantine e.existed e.original_sha256

abbrev pub tombstone_unexpected : JournalEntry → Option FileSnapshot → Bool
tombstone_unexpected e tombstone =
    unexpected tombstone (not (e.tombstone_sha256 == [])) e.tombstone_sha256

-- What follows the three reads.
unfoldable pub recover_seen :
    JournalEntry → Option FileSnapshot → Option FileSnapshot → Option FileSnapshot → Disk (Unit {0})
recover_seen e live quarantine tombstone = do
  fail_if (quarantine_unexpected e quarantine) quarantine_changed
  fail_if (tombstone_unexpected e tombstone) tombstone_changed
  recover_file e live quarantine tombstone

unfoldable pub recover_quarantined_journal_entry : JournalEntry → Disk (Unit {0})
unfolding snapshot_file_below
recover_quarantined_journal_entry e = do
  live ← snapshot_file_below server e.relative_path
  quarantine ← snapshot_file_below state e.quarantine_path
  tombstone ← snapshot_file_below state e.tombstone_path
  recover_seen e live quarantine tombstone

unfoldable pub sync_quarantined_journal_parents : JournalEntry → Disk (Unit {0})
unfolding sync_parent
sync_quarantined_journal_parents e = do
  sync_parent server e.relative_path
  sync_parent state e.quarantine_path
  sync_parent state e.tombstone_path

recover_existing_config : JournalEntry → Option FileSnapshot → Option FileSnapshot → Disk (Unit {0})
unfolding sync_quarantined_journal_parents move_file_no_replace remove_journal_artifact
recover_existing_config e none none = fail unobserved_config
recover_existing_config e (some _) none = sync_quarantined_journal_parents e
recover_existing_config e none (some q) = do restore e; sync_quarantined_journal_parents e
recover_existing_config e (some _) (some q) = do
  sync_parent server e.relative_path
  remove_journal_artifact e.quarantine_path q
  sync_quarantined_journal_parents e

-- What follows the check of the quarantine.
recover_known_config : JournalEntry → Option FileSnapshot → Option FileSnapshot → Disk (Unit {0})
unfolding recover_existing_config sync_quarantined_journal_parents
recover_known_config e live quarantine =
    if exists live && not (has_digest live e.installed_sha256)
    then sync_quarantined_journal_parents e
    else if not e.existed
    then if exists quarantine
      then fail unexpected_quarantine
      else sync_quarantined_journal_parents e
    else recover_existing_config e live quarantine

recover_seen_config : JournalEntry → Option FileSnapshot → Option FileSnapshot → Disk (Unit {0})
unfolding recover_known_config
recover_seen_config e live quarantine = do
  fail_if (unexpected quarantine e.existed e.original_sha256) quarantine_changed
  recover_known_config e live quarantine

pub recover_config_journal_entry : JournalEntry → Disk (Unit {0})
unfolding recover_seen_config snapshot_file_below
recover_config_journal_entry e = do
  live ← snapshot_file_below server e.relative_path
  quarantine ← snapshot_file_below state e.quarantine_path
  recover_seen_config e live quarantine

-- ===== src/Apply.antt =====
-- mods.go: the managed files of `Apply`. The transaction's journal is built from the prior and the
-- next inventory, saved, and then carried out file by file; `quarantineManagedFile` and
-- `publishServerFile` are its two steps; then the BepInEx configuration is replaced by its edited form.
pub mod Displaced
pub mod Steps
pub mod Frame
pub mod Rollback
mod Tests
use docker_vrising.Prelude.{
  ℕ, suc, Bool, true, false, ◌&&◌, not, Option, none, some, List, [], ◌∷◌, ◌++◌, ◌==◌, nat_eq,
  bytes_eq, Bytes, codes, map, length, if◌then◌else◌,
}
use docker_vrising.Prelude.Result.{Result, ok, err}
use docker_vrising.Path.{AbsolutePath}
use docker_vrising.State.{State, GenerationRecord, JournalEntry, TransactionJournal}
use docker_vrising.Journal.{
  canonical_quarantine_path, canonical_tombstone_path, validate_transaction_state,
}
use docker_vrising.Disk.{
  World, Disk, Fault, FileSnapshot, server, state, ◌>>=◌, ◌>>◌, pure, fail, fail_if, attempt, write,
  snapshot_file_below, move_file_no_replace, target_exists, not_found, live_changed, staged_changed,
  stale_replaced,
}
use docker_vrising.Recovery.{exists}
use docker_vrising.Transaction.{accept, save}

pub record ManagedFile : Type 0 where
  pub relative_path : Bytes
  pub sha256 : Bytes
  pub mode : ℕ

-- What `Apply` knows of one path when the mutations begin: the file that it saw there, if the
-- prior generation managed one, and the file of the next generation, if there is one.
pub record Change : Type 0 where
  pub entry : JournalEntry
  pub expected : Option FileSnapshot
  pub next : Option ManagedFile

-- `managedFilesByPath(files)[path]`: a later entry for a path replaces an earlier one.
unfoldable pub managed_file_at : List ManagedFile → Bytes → Option ManagedFile
managed_file_at [] path = none
managed_file_at (f ∷ files) path = elim (managed_file_at files path) [
  | some g ↦ some g
  | none ↦ if f.relative_path == path then some f else none
]

-- The result of `snapshotFileBelow` with its error.
abbrev try : {A : Type 0} → Disk A → Disk (Result Fault A)
try m w = let (r, w') = m w in (ok r, w')

-- `sameFileSnapshot`
abbrev pub same_file_snapshot : FileSnapshot → FileSnapshot → Bool
same_file_snapshot left right =
    left.dev == right.dev && (left.ino == right.ino && left.sha256 == right.sha256)

abbrev is_displaced : FileSnapshot → Result Fault (Option FileSnapshot) → Bool
is_displaced expected (ok (some f)) = same_file_snapshot f expected
is_displaced expected (ok none) = false
is_displaced expected (err _) = false

-- The file that was moved is not the one that was inspected: it goes back.
restore_displaced : JournalEntry → Disk (Unit {0})
restore_displaced entry = do
  move_file_no_replace state entry.quarantine_path server entry.relative_path
  fail live_changed

abbrev move_out : JournalEntry → Disk (Unit {0})
move_out entry = move_file_no_replace server entry.relative_path state entry.quarantine_path

abbrev look : JournalEntry → Disk (Result Fault (Option FileSnapshot))
look entry = try (snapshot_file_below state entry.quarantine_path)

abbrev settle : JournalEntry → FileSnapshot → Result Fault (Option FileSnapshot) → Disk (Unit {0})
settle entry expected displaced =
    if is_displaced expected displaced then pure tt else restore_displaced entry

-- The file that was moved is read back and compared with the one that was inspected.
abbrev look_back : JournalEntry → FileSnapshot → Disk (Unit {0})
look_back entry expected = do displaced ← look entry; settle entry expected displaced

pub quarantine_managed_file : JournalEntry → FileSnapshot → Disk (Unit {0})
quarantine_managed_file entry expected = do move_out entry; look_back entry expected

abbrev place : Bytes → FileSnapshot → Option FileSnapshot → Disk (Unit {0})
place path f none w = (ok tt, write server path (some f) w)
place path f (some _) w = (err target_exists, w)

-- `publishServerFile`: the parents are made and a temporary file written and synced; it is renamed
-- to its name unless a file stands there; the directory is synced. The new file's inode number is
-- compared with nothing later, so that of the staged file stands for it.
unfoldable pub publish_server_file : Bytes → FileSnapshot → Disk (Unit {0})
unfolding attempt
publish_server_file path f = do attempt; λ w. place path f (w.server_files path) w; attempt

abbrev overlay_path : Bytes → Bytes → Bytes
overlay_path id path = codes "generations/" ++ (id ++ (codes "/overlay/" ++ path))

-- A staged file that no longer matches its manifest: `root` is `os.Geteuid() == 0`.
abbrev is_stale : Bool → FileSnapshot → ManagedFile → Bool
is_stale root staged next =
    not (staged.sha256 == next.sha256 && (if root then true else staged.mode == next.mode))

install_staged : Bool → Bytes → ManagedFile → Option FileSnapshot → Disk (Unit {0})
unfolding publish_server_file
install_staged root path next none = fail not_found
install_staged root path next (some staged) =
    if is_stale root staged next
    then fail staged_changed
    else publish_server_file path (record staged { mode = next.mode })

displace : JournalEntry → Option FileSnapshot → Disk (Unit {0})
displace entry none = pure tt
displace entry (some expected) = quarantine_managed_file entry expected

install : Bool → Bytes → JournalEntry → Option ManagedFile → Disk (Unit {0})
unfolding install_staged snapshot_file_below
install root id entry none = do
  found ← snapshot_file_below server entry.relative_path
  fail_if (exists found) stale_replaced
install root id entry (some next) = do
  staged ← snapshot_file_below state (overlay_path id entry.relative_path)
  install_staged root entry.relative_path next staged

-- One round of the mutation loop.
pub apply_change : Bool → Bytes → Change → Disk (Unit {0})
apply_change root id c = do displace c.entry c.expected; install root id c.entry c.next

pub apply_changes : Bool → Bytes → List Change → Disk (Unit {0})
apply_changes root id [] = pure tt
apply_changes root id (c ∷ changes) = do apply_change root id c; apply_changes root id changes

-- The journal entry that `Apply` writes for a path.
abbrev digest_of : Option FileSnapshot → Bytes
digest_of none = []
digest_of (some f) = f.sha256

abbrev installed_digest : Option ManagedFile → Bytes
installed_digest none = []
installed_digest (some f) = f.sha256

unfoldable pub journal_entry :
    Bytes → ℕ → Bytes → Option FileSnapshot → Option ManagedFile → JournalEntry
journal_entry id index path expected next = record {
  relative_path = path;
  quarantine_path = canonical_quarantine_path id index;
  tombstone_path = canonical_tombstone_path id index;
  existed = exists expected;
  original_sha256 = digest_of expected;
  installed_sha256 = installed_digest next;
  tombstone_sha256 = installed_digest next;
}

-- The inspection of one path: what the prior generation manages must be there unchanged, and
-- nothing may stand where it manages nothing.
abbrev inspected : Option ManagedFile → Option FileSnapshot → Disk (Option FileSnapshot)
inspected none none = pure none
inspected none (some f) = fail live_changed
inspected (some prior) none = fail live_changed
inspected (some prior) (some f) =
    if f.sha256 == prior.sha256 then pure (some f) else fail live_changed

inspect_path : List ManagedFile → Bytes → Disk (Option FileSnapshot)
unfolding snapshot_file_below
inspect_path prior path = do
  found ← snapshot_file_below server path
  inspected (managed_file_at prior path) found

-- Both loops over `paths` that come before the journal is saved.
pub plan_changes : List ManagedFile → List ManagedFile → Bytes → ℕ → List Bytes → Disk (List Change)
unfolding inspect_path
plan_changes prior next id index [] = pure []
plan_changes prior next id index (path ∷ paths) = do
  expected ← inspect_path prior path
  rest ← plan_changes prior next id (suc index) paths
  pure (
      record {
        entry = journal_entry id index path expected (managed_file_at next path);
        expected = expected;
        next = managed_file_at next path;
      }
      ∷ rest)

-- What `prepareConsoleConfig` finds to do: the edited file, and the file that it replaces.
pub record ConfigChange : Type 0 where
  pub expected : Option FileSnapshot
  pub edited : FileSnapshot

unfoldable pub config_entry : Bytes → ℕ → ConfigChange → JournalEntry
config_entry id index c = record {
  relative_path = codes "BepInEx/config/BepInEx.cfg";
  quarantine_path = canonical_quarantine_path id index;
  tombstone_path = canonical_tombstone_path id index;
  existed = exists c.expected;
  original_sha256 = digest_of c.expected;
  installed_sha256 = c.edited.sha256;
  tombstone_sha256 = c.edited.sha256;
}

abbrev config_journal : Bytes → ℕ → Option ConfigChange → Option JournalEntry
config_journal id index none = none
config_journal id index (some c) = some (config_entry id index c)

abbrev journaled : State → GenerationRecord → Bytes → List Change → Option ConfigChange → State
journaled s staged phase changes config = record s {
  candidate = some (record staged { status = codes "candidate" });
  transaction = some (record {
    generation_id = staged.id;
    phase = phase;
    entries = map (λ c. c.entry) changes;
    config = config_journal staged.id (length changes) config;
  });
}

-- `validateProtectedArtifactParent` of each entry.
check_namespaces : List Change → Option ConfigChange → Disk (Unit {0})
check_namespaces [] none = pure tt
check_namespaces [] (some c) = attempt
check_namespaces (c ∷ changes) config = do attempt; check_namespaces changes config

-- The edit of the configuration: the old file, if there was one, goes to quarantine first.
pub apply_config : Bytes → ℕ → Option ConfigChange → Disk (Unit {0})
unfolding displace publish_server_file
apply_config id index none = pure tt
apply_config id index (some c) = do
  displace (config_entry id index c) c.expected
  publish_server_file (codes "BepInEx/config/BepInEx.cfg") c.edited

-- `Apply` from the inspection of the paths on. `prepare_config` is `prepareConsoleConfig`; after it
-- the rollback area and the parents of the paths are made.
pub apply_managed_files :
    Bool
    → AbsolutePath
    → Disk (Option ConfigChange)
    → State
    → GenerationRecord
    → List ManagedFile
    → List ManagedFile
    → List Bytes
    → Disk (Unit {0})
unfolding check_namespaces apply_config
apply_managed_files root state_dir prepare_config s staged prior next paths = do
  changes ← plan_changes prior next staged.id 0 paths
  config ← prepare_config
  attempt
  attempt
  accept
      (validate_transaction_state (journaled s staged (codes "applying") changes config) state_dir)
  check_namespaces changes config
  save state_dir (journaled s staged (codes "applying") changes config)
  apply_changes root staged.id changes
  apply_config staged.id (length changes) config
  save state_dir (journaled s staged (codes "applied") changes config)

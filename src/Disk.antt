-- ===== src/Disk.antt =====
-- The two directory trees that the mod manager and the state store move files between, and the
-- file operations of state.go and mods.go on them; `state.json` and `package-lock.json` stand in
-- fields of their own, as the values that they hold. Every system call may fail: `faults` holds the
-- outcome of the calls to come, the environment's choice, and the calls after its end succeed. A
-- crash is a failure after which nothing more runs, so it leaves the same disk.
pub mod Laws
use docker_vrising.Prelude.{
  ℕ, Bool, true, false, ◌&&◌, ◌||◌, not, Option, none, some, List, [], ◌∷◌, ◌==◌, nat_eq, bytes_eq,
  Bytes, ◌≡◌, refl, arith, if◌then◌else◌,
}
use mathlib.Core.List.{tail}
use docker_vrising.Journal.{JournalError}
use docker_vrising.State.{State, PackageLock, initial_state}
use docker_vrising.Prelude.Result.{Result, ok, err}

-- `fileSnapshot`: a regular file. Its SHA-256 is computed when the file is read.
pub record FileSnapshot : Type 0 where
  pub content : Bytes
  pub sha256 : Bytes
  pub mode : ℕ
  pub dev : ℕ
  pub ino : ℕ

pub data Tree : Type 0 where
  server state : Tree

abbrev pub Files : Type 0
Files = Bytes → Option FileSnapshot

pub record World : Type 0 where
  pub server_files : Files
  pub state_files : Files
  pub document : Option State
  pub package_lock : Option PackageLock
  pub faults : List Bool

pub data Fault : Type 0 where
  io_failure target_exists not_found : Fault
  artifact_changed : Fault
  quarantine_changed tombstone_changed : Fault
  unexpected_quarantine unexpected_tombstone : Fault
  live_appeared live_changed original_missing : Fault
  tombstone_unverified : Fault
  unobserved_config : Fault
  staged_changed stale_replaced : Fault
  unsupported_schema unexpected_artifact journal_mismatch : Fault
  invalid_journal : JournalError → Fault
  pending_promotion : Bytes → Fault
  promotion_invalid promotion_mismatch still_referenced bad_generation_id : Fault

abbrev pub Disk : Type 0 → Type 0
Disk A = World → Result Fault A × World

abbrev pub continue : {A B : Type 0} → Result Fault A → (A → Disk B) → Disk B
continue (ok a) f w = f a w
continue (err e) f w = (err e, w)

infixl 5 ◌>>=◌ ◌>>◌
abbrev pub ◌>>=◌ : {A B : Type 0} → Disk A → (A → Disk B) → Disk B
◌>>=◌ m f w = let (r, w') = m w in continue r f w'

abbrev pub ◌>>◌ : {B : Type 0} → Disk (Unit {0}) → Disk B → Disk B
m >> k = m >>= λ _. k

abbrev pub pure : {A : Type 0} → A → Disk A
pure a w = (ok a, w)

abbrev pub fail : {A : Type 0} → Fault → Disk A
fail e w = (err e, w)

-- `if test { return e }`
abbrev pub fail_if : Bool → Fault → Disk (Unit {0})
fail_if true e w = (err e, w)
fail_if false e w = (ok tt, w)

abbrev pub files : Tree → World → Files
files server w = w.server_files
files state w = w.state_files

abbrev pub set_file : Files → Bytes → Option FileSnapshot → Files
set_file f p s q = if p == q then s else f q

abbrev pub write : Tree → Bytes → Option FileSnapshot → World → World
write server p s w = record w { server_files = set_file w.server_files p s }
write state p s w = record w { state_files = set_file w.state_files p s }

-- One system call, or several with one outcome: it fails if the environment says so.
abbrev attempt_with : List Bool → Disk (Unit {0})
attempt_with [] w = (ok tt, w)
attempt_with (true ∷ rest) w = (err io_failure, record w { faults = rest })
attempt_with (false ∷ rest) w = (ok tt, record w { faults = rest })

unfoldable pub attempt : Disk (Unit {0})
attempt w = attempt_with w.faults w

-- A guard that fails changes nothing, so what holds before it and after the rest holds after both.
pub fail_if-keeps :
    {B : Type 0} (P : World → Type 0) (b : Bool) (x : Fault) (m : Disk B) (w : World)
    → P w
    → P (m w).1
    → P ((fail_if b x >> m) w).1
fail_if-keeps P true x m w before after = before
fail_if-keeps P false x m w before after = after

pub if-keeps :
    {B : Type 0} (P : World → Type 0) (b : Bool) (m n : Disk B) (w : World)
    → (b ≡ true → P (m w).1)
    → (b ≡ false → P (n w).1)
    → P ((if b then m else n) w).1
if-keeps P true m n w yes_keeps no_keeps = yes_keeps refl
if-keeps P false m n w yes_keeps no_keeps = no_keeps refl

-- What a call leaves of the environment's choices, whatever its outcome.
abbrev pub advance : World → World
advance w = record w { faults = tail w.faults }

abbrev pub is_faulty : List Bool → Bool
is_faulty [] = false
is_faulty (b ∷ rest) = b

pub attempt_lem :
    (w : World)
    → attempt w ≡ (if is_faulty w.faults then (err io_failure, advance w) else (ok tt, advance w))
unfolding attempt
attempt_lem w = ground arith

-- `snapshotFileBelow`
unfoldable pub snapshot_file_below : Tree → Bytes → Disk (Option FileSnapshot)
unfolding attempt
snapshot_file_below t p = do attempt; λ w. (ok (files t w p), w)

abbrev rename :
    Tree → Bytes → Option FileSnapshot → Tree → Bytes → Option FileSnapshot → Disk (Unit {0})
rename s p none t q _ w = (err not_found, w)
rename s p (some f) t q (some g) w = (err target_exists, w)
rename s p (some f) t q none w = (ok tt, write t q (some f) (write s p none w))

-- `moveFileNoReplace`: the parents are opened, the file renamed (RENAME_NOREPLACE), then the two
-- parents are synced.
unfoldable pub move_file_no_replace : Tree → Bytes → Tree → Bytes → Disk (Unit {0})
unfolding attempt
move_file_no_replace s p t q = do
  attempt
  λ w. rename s p (files s w p) t q (files t w q) w
  attempt
  attempt

abbrev unlink_if : Bytes → FileSnapshot → Option FileSnapshot → Disk (Unit {0})
unlink_if p expected none w = (err not_found, w)
unlink_if p expected (some current) w =
    if not (current.sha256 == expected.sha256)
      || not (current.dev == expected.dev && current.ino == expected.ino)
    then (err artifact_changed, w)
    else (ok tt, write state p none w)

-- `removeJournalArtifact`, below the state directory: the parent is opened and checked, the file
-- read and compared with what is expected, unlinked, and the parent synced.
unfoldable pub remove_journal_artifact : Bytes → FileSnapshot → Disk (Unit {0})
unfolding attempt
remove_journal_artifact p expected = do
  attempt
  λ w. unlink_if p expected (w.state_files p) w
  attempt

-- `syncJournalTargetParent` and `syncStatePathParent`
unfoldable pub sync_parent : Tree → Bytes → Disk (Unit {0})
unfolding attempt
sync_parent t p = attempt

-- `loadJSON("state.json")`, where a missing file is an empty state.
abbrev document_of : Option State → State
document_of none = initial_state
document_of (some s) = s

unfoldable pub load_document : Disk State
unfolding attempt
load_document = do attempt; λ w. (ok (document_of w.document), w)

-- `saveJSON`: the file is written beside the old one and renamed over it, then its directory is
-- synced, which may fail when the new file already stands.
unfoldable pub save_document : State → Disk (Unit {0})
unfolding attempt
save_document s = do attempt; λ w. (ok tt, record w { document = some s }); attempt

unfoldable pub save_lock : PackageLock → Disk (Unit {0})
unfolding attempt
save_lock lock = do attempt; λ w. (ok tt, record w { package_lock = some lock }); attempt

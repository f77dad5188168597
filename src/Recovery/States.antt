-- ===== src/Recovery/States.antt =====
-- The disk as one journal entry sees it: the three files that the entry names, and the states that
-- an interrupted transaction or an interrupted recovery can leave them in.
use docker_vrising.Prelude.{
  ◌≡◌, refl, Bool, true, false, not, ◌&&◌, Option, none, some, [], ◌==◌, bytes_eq, Bytes, bytes_beq,
  if◌then◌else◌,
}
use docker_vrising.State.{JournalEntry}
use docker_vrising.Disk.{FileSnapshot, World}
use docker_vrising.Recovery.{has_digest}

-- What `validateTransactionState` requires of an entry and recovery relies on.
pub record IsWellFormed (e : JournalEntry) : Type 0 where
  pub artifacts_differ : bytes_beq e.quarantine_path e.tombstone_path ≡ false
  pub artifacts_differ_sym : bytes_beq e.tombstone_path e.quarantine_path ≡ false
  pub tombstone_is_installed : e.tombstone_sha256 ≡ e.installed_sha256
  pub new_is_installed : e.existed ≡ false → bytes_beq e.installed_sha256 [] ≡ false

abbrev pub live_of : JournalEntry → World → Option FileSnapshot
live_of e w = w.server_files e.relative_path

abbrev pub quarantine_of : JournalEntry → World → Option FileSnapshot
quarantine_of e w = w.state_files e.quarantine_path

abbrev pub tombstone_of : JournalEntry → World → Option FileSnapshot
tombstone_of e w = w.state_files e.tombstone_path

abbrev RestoredLive : Bool → JournalEntry → Option FileSnapshot → Type 0
RestoredLive true e live = has_digest live e.original_sha256 ≡ true
RestoredLive false e live = live ≡ none

-- The file that the transaction displaced is back, or the file that it added is gone, and no
-- artifact is left.
pub record IsRestored (e : JournalEntry) (w : World) : Type 0 where
  pub live : RestoredLive e.existed e (live_of e w)
  pub quarantine : quarantine_of e w ≡ none
  pub tombstone : tombstone_of e w ≡ none

-- The three files as they were read.
pub record Sees (e : JournalEntry) (w : World) (live quarantine tombstone : Option FileSnapshot)
    : Type 0 where
  pub live_is : live_of e w ≡ live
  pub quarantine_is : quarantine_of e w ≡ quarantine
  pub tombstone_is : tombstone_of e w ≡ tombstone

pub seen :
    (e : JournalEntry) (w : World) → Sees e w (live_of e w) (quarantine_of e w) (tombstone_of e w)
seen e w = record { live_is = refl; quarantine_is = refl; tombstone_is = refl }

-- The states of a file that existed before the transaction. In the order of the clauses: it is in
-- its place; moved to quarantine; replaced by the new file; the new file is back out, in the
-- tombstone; and the old one is back, with the tombstone still there.
unfoldable pub recoverable_existing :
    Bytes → Bytes → Option FileSnapshot → Option FileSnapshot → Option FileSnapshot → Bool
recoverable_existing original installed live none none = has_digest live original
recoverable_existing original installed none (some q) none = q.sha256 == original
recoverable_existing original installed (some f) (some q) none =
    q.sha256 == original && (f.sha256 == installed && not (installed == []))
recoverable_existing original installed none (some q) (some t) =
    q.sha256 == original && (t.sha256 == installed && not (installed == []))
recoverable_existing original installed (some f) none (some t) =
    f.sha256 == original && (t.sha256 == installed && not (installed == []))
recoverable_existing original installed _ _ _ = false

-- The states of a file that the transaction adds: not there yet; added; withdrawn to the tombstone.
unfoldable pub recoverable_new :
    Bytes → Option FileSnapshot → Option FileSnapshot → Option FileSnapshot → Bool
recoverable_new installed none none none = true
recoverable_new installed (some f) none none = f.sha256 == installed
recoverable_new installed none none (some t) = t.sha256 == installed
recoverable_new installed _ _ _ = false

abbrev pub recoverable :
    JournalEntry → Option FileSnapshot → Option FileSnapshot → Option FileSnapshot → Bool
recoverable e live quarantine tombstone =
    if e.existed
    then recoverable_existing e.original_sha256 e.installed_sha256 live quarantine tombstone
    else recoverable_new e.installed_sha256 live quarantine tombstone

abbrev pub IsRecoverable : JournalEntry → World → Type 0
IsRecoverable e w = recoverable e (live_of e w) (quarantine_of e w) (tombstone_of e w) ≡ true

pub Sees-IsRecoverable :
    (e : JournalEntry) (w : World) {live quarantine tombstone : Option FileSnapshot}
    → Sees e w live quarantine tombstone
    → recoverable e live quarantine tombstone ≡ true
    → IsRecoverable e w
Sees-IsRecoverable e w sees h = rw (sees.live_is, sees.quarantine_is, sees.tombstone_is) h

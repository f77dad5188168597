-- ===== src/Sample.antt =====
-- A replaced file for the tests: its journal entry, its two versions, and the disk in the middle of
-- the transaction and before it.
use docker_vrising.Prelude.{
  bytes_beq, refl, Option, true, none, some, [], ◌∷◌, ◌==◌, bytes_eq, Bytes, codes, if◌then◌else◌,
}
use docker_vrising.State.{JournalEntry}
use docker_vrising.Disk.{FileSnapshot, World}
use docker_vrising.Recovery.States.{IsWellFormed}
use docker_vrising.Journal.Accepted.{IsJournal}
use docker_vrising.Apply.{Change}

abbrev pub old_file : FileSnapshot
old_file = record { content = []; sha256 = codes "a"; mode = 420; dev = 1; ino = 10 }

abbrev pub new_file : FileSnapshot
new_file = record { content = []; sha256 = codes "b"; mode = 420; dev = 1; ino = 11 }

abbrev pub entry : JournalEntry
entry = record {
  relative_path = codes "x.dll";
  quarantine_path = codes "q";
  tombstone_path = codes "t";
  existed = true;
  original_sha256 = codes "a";
  installed_sha256 = codes "b";
  tombstone_sha256 = codes "b";
}

abbrev at : Bytes → FileSnapshot → Bytes → Option FileSnapshot
at name f path = if path == name then some f else none

-- The new file is in its place, and the old one in quarantine.
abbrev pub replaced : World
replaced = record {
  server_files = at (codes "x.dll") new_file;
  state_files = at (codes "q") old_file;
  document = none;
  package_lock = none;
  faults = [];
}

-- The old file is in its place, and the new one is staged.
abbrev pub staged : World
staged = record {
  server_files = at (codes "x.dll") old_file;
  state_files = at (codes "generations/g/overlay/x.dll") new_file;
  document = none;
  package_lock = none;
  faults = [];
}

abbrev pub replacement : Change
replacement = record {
  entry = entry;
  expected = some old_file;
  next = some (record { relative_path = codes "x.dll"; sha256 = codes "b"; mode = 420 });
}

pub entry-IsWellFormed : IsWellFormed entry
unfolding bytes_beq
entry-IsWellFormed = record {
  artifacts_differ = refl;
  artifacts_differ_sym = refl;
  tombstone_is_installed = refl;
  new_is_installed = λ absent. cc;
}

pub entry-IsJournal : IsJournal (entry ∷ [])
entry-IsJournal = record { well_formed = (entry-IsWellFormed, tt); independent = (tt, tt) }

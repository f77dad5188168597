-- ===== src/Journal/Example.antt =====
-- A state whose journal the check accepts, for the tests.
use docker_vrising.Prelude.{bytes_beq, ◌≡◌, refl, ◌∷◌, [], true, none, some, codes, Bytes}
use docker_vrising.Prelude.Result.{ok}
use docker_vrising.Path.{AbsolutePath, relative_path_parts, split}
use docker_vrising.State.{State, JournalEntry, TransactionJournal, initial_state, GenerationRecord}
use docker_vrising.Journal.{
  validate_transaction_state, validate_journal, check_candidate, validate_entries, validate_entry,
  check_live_path, check_digests, check_artifact_names, check_artifact, check_config_path,
  validate_config, valid_sha256, canonical_quarantine_path, canonical_tombstone_path, padded,
  decimal, path_beq, is_at_or_below, parent,
}

abbrev pub old_digest : Bytes
old_digest = codes "0123456789abcdef0123456789abcdef0123456789abcdef0123456789abcdef"

abbrev pub new_digest : Bytes
new_digest = codes "fedcba9876543210fedcba9876543210fedcba9876543210fedcba9876543210"

abbrev pub entry : JournalEntry
entry = record {
  relative_path = codes "BepInEx/core/x.dll";
  quarantine_path = codes "generations/g/rollback/quarantine/0000.displaced";
  tombstone_path = codes "generations/g/rollback/quarantine/0000.tombstone";
  existed = true;
  original_sha256 = old_digest;
  installed_sha256 = new_digest;
  tombstone_sha256 = new_digest;
}

abbrev pub journal : TransactionJournal
journal = record {
  generation_id = codes "g";
  phase = codes "applying";
  entries = entry ∷ [];
  config = none;
}

abbrev pub candidate : GenerationRecord
candidate = record { id = codes "g"; lock_digest = []; status = codes "candidate"; created_at = 0 }

abbrev pub applying : State
applying = record initial_state { candidate = some candidate; transaction = some journal }

abbrev pub state_dir : AbsolutePath
state_dir = codes "mods" ∷ codes "state" ∷ []

pub applying_accepted : validate_transaction_state applying state_dir ≡ ok tt
unfolding validate_transaction_state validate_journal check_candidate relative_path_parts split
    validate_entries validate_entry check_live_path check_digests check_artifact_names
    check_artifact check_config_path validate_config valid_sha256 canonical_quarantine_path
    canonical_tombstone_path padded decimal path_beq is_at_or_below parent bytes_beq
applying_accepted = refl

-- The same, of the journal alone.
pub journal_accepted : validate_journal state_dir candidate journal ≡ ok tt
unfolding validate_transaction_state
journal_accepted = applying_accepted

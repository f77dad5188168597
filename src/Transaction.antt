-- ===== src/Transaction.antt =====
-- state.go: `Load`, `Save`, the inspection of a transaction's artifacts, and
-- `RecoverInterruptedTransaction`.
pub mod Entries
pub mod Restored
pub mod Records
pub mod Recovered
mod Tests
use docker_vrising.Prelude.{
  not, Option, none, some, List, [], ◌∷◌, ◌++◌, ◌==◌, nat_eq, bytes_eq, Bytes, codes,
}
use docker_vrising.Prelude.Result.{Result, ok, err}
use docker_vrising.Path.{AbsolutePath}
use docker_vrising.State.{
  State, GenerationRecord, JournalEntry, TransactionJournal, PromotionJournal, schema_version,
}
use docker_vrising.Journal.{JournalError, validate_transaction_state}
use docker_vrising.Disk.{
  Disk, FileSnapshot, state, ◌>>=◌, ◌>>◌, pure, fail, fail_if, attempt, snapshot_file_below,
  load_document, save_document, unsupported_schema, unexpected_artifact, invalid_journal,
  pending_promotion,
}
use docker_vrising.Recovery.{
  recover_quarantined_journal_entry, recover_config_journal_entry, sync_quarantined_journal_parents,
  unexpected,
}

abbrev pub accept : Result JournalError (Unit {0}) → Disk (Unit {0})
accept (ok _) = pure tt
accept (err e) = fail (invalid_journal e)

-- The checks that `Load` and `Save` share.
check_state : AbsolutePath → State → Disk (Unit {0})
check_state state_dir s = do
  fail_if (not (s.schema_version == schema_version)) unsupported_schema
  accept (validate_transaction_state s state_dir)

unfoldable pub load : AbsolutePath → Disk State
unfolding check_state
load state_dir = do s ← load_document; check_state state_dir s; pure s

unfoldable pub save : AbsolutePath → State → Disk (Unit {0})
unfolding check_state
save state_dir s = do check_state state_dir s; save_document s

pub record TransactionArtifact : Type 0 where
  pub path : Bytes
  pub snapshot : Option FileSnapshot

-- One of the two artifacts of an entry: its content must be what the journal names.
inspect_artifact : Bytes → Bytes → Disk TransactionArtifact
inspect_artifact path digest = do
  found ← snapshot_file_below state path
  fail_if (unexpected found (not (digest == [])) digest) unexpected_artifact
  pure (record { path = path; snapshot = found })

-- The parent is checked (`validateProtectedArtifactParent`), then both artifacts are read.
inspect_entries : List JournalEntry → Disk (List TransactionArtifact)
inspect_entries [] = pure []
inspect_entries (entry ∷ entries) = do
  attempt
  quarantine ← inspect_artifact entry.quarantine_path entry.original_sha256
  tombstone ← inspect_artifact entry.tombstone_path entry.tombstone_sha256
  rest ← inspect_entries entries
  pure (quarantine ∷ tombstone ∷ rest)

abbrev config_entries : Option JournalEntry → List JournalEntry
config_entries none = []
config_entries (some entry) = entry ∷ []

abbrev inspect_journal : Option TransactionJournal → Disk (List TransactionArtifact)
inspect_journal none = pure []
inspect_journal (some journal) = inspect_entries (journal.entries ++ config_entries journal.config)

-- `transactionArtifacts`
unfoldable pub transaction_artifacts : AbsolutePath → State → Disk (List TransactionArtifact)
unfolding inspect_entries inspect_artifact
transaction_artifacts state_dir s = do
  accept (validate_transaction_state s state_dir)
  inspect_journal s.transaction

-- `for _, entry := range state.Transaction.Entries`
pub recover_entries : List JournalEntry → Disk (Unit {0})
recover_entries [] = pure tt
recover_entries (entry ∷ entries) = do
  recover_quarantined_journal_entry entry
  sync_quarantined_journal_parents entry
  recover_entries entries

abbrev recover_config : Option JournalEntry → Disk (Unit {0})
recover_config none = pure tt
recover_config (some entry) = recover_config_journal_entry entry

abbrev pub fail_candidate :
    Option GenerationRecord → Option GenerationRecord → Option GenerationRecord
fail_candidate none failed = failed
fail_candidate (some candidate) failed = some (record candidate { status = codes "failed" })

-- The state that is saved when recovery is done.
abbrev pub recovered_state : State → State
recovered_state s = record s {
  transaction = none;
  failed = fail_candidate s.candidate s.failed;
  candidate = none;
}

recover_journal : AbsolutePath → State → Option TransactionJournal → Disk (Unit {0})
recover_journal state_dir s none = pure tt
recover_journal state_dir s (some journal) = do
  artifacts ← transaction_artifacts state_dir s
  recover_entries journal.entries
  recover_config journal.config
  save state_dir (recovered_state s)

recover_loaded : AbsolutePath → State → Option PromotionJournal → Disk (Unit {0})
recover_loaded state_dir s none = recover_journal state_dir s s.transaction
recover_loaded state_dir s (some promotion) = fail (pending_promotion promotion.generation_id)

-- `RecoverInterruptedTransaction`
pub recover_interrupted_transaction : AbsolutePath → Disk (Unit {0})
unfolding recover_loaded recover_journal
recover_interrupted_transaction state_dir = do
  s ← load state_dir
  recover_loaded state_dir s s.promotion

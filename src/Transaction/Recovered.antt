-- ===== src/Transaction/Recovered.antt =====
-- `RecoverInterruptedTransaction` as a whole: what holds when it returns no error.
use docker_vrising.Prelude.{codes, ◌≡◌, Option, none, some, nat_eq}
use docker_vrising.Prelude.Result.{Result}
use docker_vrising.Path.{AbsolutePath}
use docker_vrising.State.{GenerationRecord, State, TransactionJournal, schema_version}
use docker_vrising.Journal.Accepted.{IsJournal}
use docker_vrising.Journal.Config.{IsApart}
use docker_vrising.Disk.{World, Disk, ◌>>◌}
use docker_vrising.Transaction.{save, recover_config, recovered_state}
use docker_vrising.Transaction.Restored.{AllRestored}

-- The candidate is recorded as the failed generation.
abbrev pub failed_generation :
    Option GenerationRecord → Option GenerationRecord → Option GenerationRecord
failed_generation none failed = failed
failed_generation (some r) failed = some (record {
  id = r.id;
  lock_digest = r.lock_digest;
  status = codes "failed";
  created_at = r.created_at;
})

-- The state without its transaction.
abbrev pub undone_state : State → State
undone_state s = record {
  schema_version = s.schema_version;
  steam_build = s.steam_build;
  active = s.active;
  previous = s.previous;
  candidate = none;
  failed = failed_generation s.candidate s.failed;
  transaction = none;
  promotion = s.promotion;
  pending_cleanup = s.pending_cleanup;
  runtime = s.runtime;
}

-- The transaction is undone: its files are as they were before it, and the state has no journal.
pub record IsUndone (s : State) (j : TransactionJournal) (w : World) : Type 0 where
  pub restored : AllRestored j.entries w
  pub document : w.document ≡ some (undone_state s)

module _ (d : AbsolutePath) (s : State) (j : TransactionJournal) (journal : IsJournal j.entries)
    (apart : IsApart j.config j.entries) where
  abbrev then_save : Disk (Unit {0})
  then_save = save d (recovered_state s)

  abbrev then_config : Disk (Unit {0})
  then_config = recover_config j.config >> then_save

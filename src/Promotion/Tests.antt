-- ===== src/Promotion/Tests.antt =====
-- The promotion of a first generation.
use docker_vrising.Prelude.{
  ◌==◌, bytes_eq, nat_eq, if◌then◌else◌, ◌≡◌, refl, Bool, List, true, false, none, some, [], ◌∷◌,
  codes, Bytes, bytes_beq,
}
use docker_vrising.Prelude.Result.{ok}
use docker_vrising.Path.{AbsolutePath, relative_path_parts, split}
use docker_vrising.State.{
  State, GenerationRecord, PromotionJournal, PackageLock, initial_state, schema_version,
}
use docker_vrising.Journal.{
  validate_transaction_state, validate_journal, check_candidate, validate_entries, validate_config,
}
use docker_vrising.Disk.{FileSnapshot, save_document, load_document, World, Disk, pure}
use docker_vrising.Transaction.{load, save, transaction_artifacts}
use docker_vrising.Transaction.Records.{IsSaved, IsSaved-refl}
use docker_vrising.Promotion.Commit.{commit_promotion, not_committed}
use docker_vrising.Promotion.{
  reconcile_promotion, settle_promotion, promote_candidate, save_package_lock,
  commit_transaction_artifacts, commit_artifacts, clean_up, clear_promotion, confirm_active,
  remove_generation, generation_is_referenced,
}
use docker_vrising.Promotion.Stages.{Stage, intended, IsDone}
use docker_vrising.Promotion.Recovered.{promotion_runs, reconcile-Stage, reconcile-IsDone}
use docker_vrising.Promotion.Commit.Outcome.{commit_promotion-keeps}

abbrev lock : PackageLock
lock = record {
  schema_version = schema_version;
  digest = codes "l";
  roots = [];
  resolved_at = 0;
  packages = [];
}

abbrev candidate : GenerationRecord
candidate = record {
  id = codes "g";
  lock_digest = codes "l";
  status = codes "candidate";
  created_at = 0;
}

abbrev promotion : PromotionJournal
promotion = record { generation_id = codes "g"; lock = lock }

abbrev applied : State
applied = record initial_state {
  candidate = some candidate;
  transaction =
      some (record {
        generation_id = codes "g";
        phase = codes "applied";
        entries = [];
        config = none;
      });
}

abbrev intent : State
intent = record applied { promotion = some promotion; pending_cleanup = codes "f" ∷ [] }

abbrev state_dir : AbsolutePath
state_dir = codes "mods" ∷ codes "state" ∷ []

abbrev hash : PackageLock → Bytes
hash l = l.digest

-- The generation to clean has a file.
abbrev old_file : FileSnapshot
old_file = record { content = []; sha256 = codes "o"; mode = 420; dev = 1; ino = 2 }

abbrev disk : State → List Bool → World
disk s faults = record {
  server_files = λ path. none;
  state_files = λ path. if path == codes "generations/f/m.dll" then some old_file else none;
  document = some s;
  package_lock = none;
  faults = faults;
}

reconcile-Stage_example :
    Stage hash state_dir intent promotion candidate
      (reconcile_promotion hash state_dir (disk intent (false ∷ false ∷ true ∷ []))).1
reconcile-Stage_example =
    reconcile-Stage hash state_dir intent promotion candidate refl refl
      (disk intent (false ∷ false ∷ true ∷ [])) (intended refl)

-- The first run fails at its third call.
abbrev runs : List (List Bool)
runs = (false ∷ false ∷ true ∷ []) ∷ []

second_run :
    (reconcile_promotion hash state_dir (promotion_runs hash state_dir runs (disk intent []))).0
    ≡ ok tt
unfolding reconcile_promotion load save transaction_artifacts settle_promotion promote_candidate
    save_package_lock commit_transaction_artifacts commit_artifacts clean_up clear_promotion
    confirm_active validate_transaction_state validate_journal check_candidate validate_entries
    validate_config remove_generation generation_is_referenced bytes_beq relative_path_parts split
    load_document save_document
second_run = refl

reconcile-IsDone_example :
    IsDone hash state_dir intent promotion candidate
      (reconcile_promotion hash state_dir (promotion_runs hash state_dir runs (disk intent []))).1
reconcile-IsDone_example =
    reconcile-IsDone hash state_dir intent promotion candidate refl refl runs (disk intent []) refl
      second_run

-- The staged generation can be read; the second call of the load fails.
abbrev open_staged : Disk PackageLock
open_staged = pure lock

reads_only : (v : World) → IsSaved v (open_staged v).1
reads_only v = IsSaved-refl v

abbrev failing : World
failing = disk applied (true ∷ [])

nothing_committed :
    (commit_promotion hash state_dir open_staged candidate failing).0.0 ≡ not_committed
unfolding commit_promotion load load_document
nothing_committed = refl

commit_promotion-keeps_example :
    IsSaved failing (commit_promotion hash state_dir open_staged candidate failing).1
commit_promotion-keeps_example =
    commit_promotion-keeps hash state_dir candidate open_staged failing reads_only nothing_committed

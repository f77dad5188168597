-- ===== src/Promotion/Commit.antt =====
-- mods.go: `CommitPromotion` and `RecoverPromotion`, with the outcomes that they return.
pub mod Outcome
use docker_vrising.Prelude.{
  ℕ, zero, suc, Bool, true, false, ◌&&◌, ◌||◌, not, Option, none, some, List, [], ◌∷◌, ◌++◌, any,
  all, length, ◌==◌, nat_eq, bytes_eq, Bytes, codes, if◌then◌else◌,
}
use docker_vrising.Prelude.Result.{Result, ok, err}
use docker_vrising.Path.{AbsolutePath, PathError, relative_path_parts}
use docker_vrising.State.{
  State, GenerationRecord, TransactionJournal, PromotionJournal, PackageLock, PackageRef,
  LockedPackage, package_ref_eq, int_beq, schema_version,
}
use docker_vrising.Disk.{
  World, Disk, Fault, FileSnapshot, Files, ◌>>=◌, ◌>>◌, pure, fail, fail_if, attempt, save_lock,
  sync_parent, remove_journal_artifact, state, promotion_invalid, promotion_mismatch,
  still_referenced, bad_generation_id, not_found, unsupported_schema,
}
use docker_vrising.Transaction.{load, save, TransactionArtifact, transaction_artifacts}
use docker_vrising.Promotion.{reconcile_promotion, cleanup_generation_ids, is_applied, names}

-- `PromotionCommitOutcome`
pub data PromotionCommitOutcome : Type 0 where
  not_committed committed recovery_required : PromotionCommitOutcome

-- A call that returns an outcome beside its error.
abbrev pub Commit : Type 0
Commit = World → (PromotionCommitOutcome × Result Fault (Unit {0})) × World

abbrev conclude : {A : Type 0} → PromotionCommitOutcome → Result Fault A → (A → Commit) → Commit
conclude outcome (ok a) rest w = rest a w
conclude outcome (err e) rest w = ((outcome, err e), w)

-- `if err != nil { return outcome, err }` after a call.
abbrev on_error : {A : Type 0} → PromotionCommitOutcome → Disk A → (A → Commit) → Commit
on_error outcome m rest w = let (r, w') = m w in conclude outcome r rest w'

abbrev finished : PromotionCommitOutcome → Commit
finished outcome w = ((outcome, ok tt), w)

module _ (package_lock_digest : PackageLock → Bytes) (state_dir : AbsolutePath) where
  abbrev is_staged : GenerationRecord → Option GenerationRecord → Bool
  is_staged staged none = false
  is_staged staged (some candidate) =
      candidate.id == staged.id && candidate.lock_digest == staged.lock_digest

  -- The checks that need no more than the state.
  pub check_candidate_applied : GenerationRecord → State → Disk (Unit {0})
  check_candidate_applied staged s = do
    fail_if (not (is_staged staged s.candidate)) promotion_mismatch
    fail_if (not (is_applied s.transaction staged.id)) promotion_mismatch

  abbrev intent : GenerationRecord → PackageLock → State → State
  intent staged lock s = record s {
    promotion = some (record { generation_id = staged.id; lock = lock });
    pending_cleanup = cleanup_generation_ids s.previous s.failed;
  }

  abbrev persist_intent : GenerationRecord → PackageLock → State → Commit
  persist_intent staged lock s =
      on_error recovery_required (save state_dir (intent staged lock s)) (λ _.
        on_error recovery_required (reconcile_promotion package_lock_digest state_dir)
          (λ _. finished committed))

  pub commit_loaded : GenerationRecord → PackageLock → State → Option PromotionJournal → Commit
  commit_loaded staged lock s (some pending) = λ w. ((recovery_required, err promotion_mismatch), w)
  commit_loaded staged lock s none =
      on_error not_committed (transaction_artifacts state_dir s)
        (λ artifacts. persist_intent staged lock s)

  -- `CommitPromotion`, where `open_staged` is `openAndValidateStaged`: it returns the staged lock.
  unfoldable pub commit_promotion : Disk PackageLock → GenerationRecord → Commit
  commit_promotion open_staged staged = on_error not_committed open_staged (λ lock.
      on_error not_committed (load state_dir) (λ s.
        on_error not_committed (check_candidate_applied staged s)
          (λ _. commit_loaded staged lock s s.promotion)))

  abbrev is_active : State → Bytes → Option PromotionJournal → Bool
  is_active s id none = names s.active id
  is_active s id (some _) = false

  pub recover_loaded_promotion : Option PromotionJournal → Commit
  recover_loaded_promotion none = finished not_committed
  recover_loaded_promotion (some promotion) =
      on_error recovery_required (reconcile_promotion package_lock_digest state_dir) (λ _.
        on_error recovery_required (load state_dir) (λ s.
          on_error recovery_required
            (fail_if (not (is_active s promotion.generation_id s.promotion)) promotion_mismatch)
            (λ _. finished committed)))

  -- `RecoverPromotion`
  pub recover_promotion : Commit
  recover_promotion =
      on_error recovery_required (load state_dir) (λ s. recover_loaded_promotion s.promotion)

-- ===== src/Promotion.antt =====
-- mods.go and state.go: `reconcilePromotion`, which promotes an applied candidate, and
-- `commitTransactionArtifacts`. The digest of a package lock, `PackageLockDigest`, is a parameter.
pub mod Records
pub mod Cleanup
pub mod Stages
pub mod Settling
pub mod Commit
pub mod Recovered
mod Tests
use docker_vrising.Prelude.{
  ℕ, zero, suc, Bool, true, false, ◌&&◌, ◌||◌, not, Option, none, some, List, [], ◌∷◌, ◌++◌, any,
  all, length, ◌==◌, nat_eq, bytes_eq, Bytes, codes, if◌then◌else◌,
}
use docker_vrising.Prelude.Result.{Result, ok, err}
use docker_vrising.Path.{AbsolutePath, PathError, relative_path_parts}
use docker_vrising.State.{
  State, GenerationRecord, TransactionJournal, PromotionJournal, PackageLock, PackageRef,
  LockedPackage, package_ref_eq, int_beq, schema_version,
}
use docker_vrising.Disk.{
  World, Disk, Fault, FileSnapshot, Files, ◌>>=◌, ◌>>◌, pure, fail, fail_if, attempt, save_lock,
  sync_parent, remove_journal_artifact, state, promotion_invalid, promotion_mismatch,
  still_referenced, bad_generation_id, not_found, unsupported_schema,
}
use docker_vrising.Transaction.{load, save, TransactionArtifact, transaction_artifacts}

-- `slices` compared element by element.
abbrev same_list : {A : Type 0} → (A → A → Bool) → List A → List A → Bool
same_list same [] [] = true
same_list same (x ∷ xs) (y ∷ ys) = same x y && same_list same xs ys
same_list same _ _ = false

unfoldable pub same_locked_package : LockedPackage → LockedPackage → Bool
unfolding int_beq
same_locked_package left right =
    left.ref == right.ref
    && (left.full_name == right.full_name
        && (left.download_url == right.download_url
            && (int_beq left.file_size right.file_size
                && (left.sha256 == right.sha256
                    && same_list (λ a b. a == b) left.dependencies right.dependencies))))

unfoldable pub same_package_lock : PackageLock → PackageLock → Bool
unfolding same_locked_package
same_package_lock left right =
    left.schema_version == right.schema_version
    && (same_list (λ a b. a == b) left.roots right.roots
        && (left.digest == right.digest
            && (left.resolved_at == right.resolved_at
                && same_list same_locked_package left.packages right.packages)))

-- `cleanupGenerationIDs`: the identifiers of the given records, each once, the empty one left out.
abbrev add_generation_id : Option GenerationRecord → List Bytes → List Bytes
add_generation_id none seen = []
add_generation_id (some r) seen =
    if r.id == [] || any (λ id. id == r.id) seen then [] else r.id ∷ []

unfoldable pub cleanup_generation_ids :
    Option GenerationRecord → Option GenerationRecord → List Bytes
cleanup_generation_ids first second =
    let ids = add_generation_id first [] in ids ++ add_generation_id second ids

abbrev names : Option GenerationRecord → Bytes → Bool
names none id = false
names (some r) id = r.id == id

-- `generationIsReferenced`
unfoldable pub generation_is_referenced : State → Bytes → Bool
generation_is_referenced s id =
    names s.active id || (names s.previous id || (names s.candidate id || names s.failed id))

-- Whether a path of the state directory lies below a directory.
abbrev pub is_below : Bytes → Bytes → Bool
is_below [] path = true
is_below (c ∷ dir) [] = false
is_below (c ∷ dir) (d ∷ path) = c == d && is_below dir path

abbrev pub generation_dir : Bytes → Bytes
generation_dir id = codes "generations/" ++ (id ++ codes "/")

abbrev without : Bytes → Files → Files
without dir files path = if is_below dir path then none else files path

abbrev check_generation_id : Result PathError (List Bytes) → Disk (Unit {0})
check_generation_id (ok parts) = pure tt
check_generation_id (err e) = fail bad_generation_id

-- `removeGeneration`. A removal that fails is one that has removed nothing yet: what it leaves of
-- the tree is read by nothing, and the next run removes it.
pub remove_generation : Bytes → Disk (Unit {0})
unfolding attempt
remove_generation id = do
  check_generation_id (relative_path_parts id)
  attempt
  λ w. (ok tt, record w { state_files = without (generation_dir id) w.state_files })
  attempt

-- `commitTransactionArtifacts`
abbrev commit_artifact : Bytes → Option FileSnapshot → Disk (Unit {0})
commit_artifact path none = sync_parent state path
commit_artifact path (some f) = remove_journal_artifact path f

pub commit_artifacts : List TransactionArtifact → Disk (Unit {0})
unfolding sync_parent remove_journal_artifact
commit_artifacts [] = pure tt
commit_artifacts (a ∷ artifacts) = do commit_artifact a.path a.snapshot; commit_artifacts artifacts

pub commit_transaction_artifacts : AbsolutePath → State → Disk (Unit {0})
commit_transaction_artifacts state_dir s = do
  artifacts ← transaction_artifacts state_dir s
  commit_artifacts artifacts

abbrev with_status : Bytes → Option GenerationRecord → Option GenerationRecord
with_status status none = none
with_status status (some r) = some (record r { status = status })

-- The state after the promotion of a candidate.
abbrev pub promote : State → GenerationRecord → State
promote s candidate = record s {
  previous = with_status (codes "previous") s.active;
  active = some (record candidate { status = codes "active" });
  candidate = none;
  failed = none;
  transaction = none;
}

abbrev is_applied : Option TransactionJournal → Bytes → Bool
is_applied none id = false
is_applied (some t) id = t.generation_id == id && t.phase == codes "applied"

abbrev is_for : GenerationRecord → PromotionJournal → Bool
is_for r promotion = r.id == promotion.generation_id && r.lock_digest == promotion.lock.digest

-- `SavePackageLock`
pub save_package_lock : PackageLock → Disk (Unit {0})
unfolding save_lock
save_package_lock lock = do
  fail_if (not (lock.schema_version == schema_version)) unsupported_schema
  save_lock lock

-- The branch of `state.Candidate != nil`.
pub promote_candidate : AbsolutePath → State → PromotionJournal → GenerationRecord → Disk State
promote_candidate state_dir s promotion candidate = do
  fail_if (not (is_for candidate promotion && is_applied s.transaction promotion.generation_id))
      promotion_mismatch
  save_package_lock promotion.lock
  commit_transaction_artifacts state_dir s
  save state_dir (promote s candidate)
  pure (promote s candidate)

abbrev active_is_for : Option GenerationRecord → PromotionJournal → Bool
active_is_for none promotion = false
active_is_for (some r) promotion = is_for r promotion

abbrev has_lock : Option PackageLock → PackageLock → Bool
has_lock none lock = false
has_lock (some found) lock = found.schema_version == schema_version && same_package_lock found lock

-- `LoadPackageLock` fails, or gives another lock than the promotion's.
abbrev lock_is_missing : PackageLock → Result Fault (Unit {0}) → World → Bool
lock_is_missing lock (ok _) w = not (has_lock w.package_lock lock)
lock_is_missing lock (err _) w = true

pub load_package_lock_differs : PackageLock → Disk Bool
unfolding attempt
load_package_lock_differs lock w = let (r, w') = attempt w in (ok (lock_is_missing lock r w'), w')

-- The branch of `state.Candidate == nil`.
pub confirm_active : State → PromotionJournal → Disk State
confirm_active s promotion = do
  fail_if (not (active_is_for s.active promotion)) promotion_mismatch
  differs ← load_package_lock_differs promotion.lock
  if differs then save_package_lock promotion.lock else pure tt
  pure s

module _ (package_lock_digest : PackageLock → Bytes) (state_dir : AbsolutePath) where
  abbrev is_invalid : PromotionJournal → Bool
  is_invalid promotion =
      promotion.generation_id == []
      || (promotion.lock.digest == []
          || not (promotion.lock.digest == package_lock_digest promotion.lock))

  abbrev settle_candidate : State → PromotionJournal → Option GenerationRecord → Disk State
  settle_candidate s promotion none = confirm_active s promotion
  settle_candidate s promotion (some candidate) = promote_candidate state_dir s promotion candidate

  -- What `state.Promotion` asks for before the cleanup.
  pub settle_promotion : State → Option PromotionJournal → Disk State
  settle_promotion s none = pure s
  settle_promotion s (some promotion) = do
    fail_if (is_invalid promotion) promotion_invalid
    settle_candidate s promotion s.candidate

  -- `for len(state.PendingCleanup) > 0`
  pub clean_up : State → List Bytes → Disk (Unit {0})
  clean_up s [] = pure tt
  clean_up s (id ∷ ids) = do
    fail_if (generation_is_referenced s id) still_referenced
    remove_generation id
    save state_dir (record s { pending_cleanup = ids })
    clean_up s ids

  pub clear_promotion : State → Option PromotionJournal → Disk (Unit {0})
  clear_promotion s none = pure tt
  clear_promotion s (some promotion) =
      save state_dir (record s { pending_cleanup = []; promotion = none })

  pub reconcile_promotion : Disk (Unit {0})
  reconcile_promotion = do
    s ← load state_dir
    artifacts ← transaction_artifacts state_dir s
    settled ← settle_promotion s s.promotion
    clean_up settled settled.pending_cleanup
    clear_promotion settled settled.promotion

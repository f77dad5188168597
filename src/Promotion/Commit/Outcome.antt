-- ===== src/Promotion/Commit/Outcome.antt =====
-- What the outcome of `CommitPromotion` tells its caller.
use docker_vrising.Prelude.{◌≡◌, not, Bytes, Option, none, some}
use docker_vrising.Prelude.Result.{Result, ok, err}
use docker_vrising.Path.{AbsolutePath}
use docker_vrising.State.{State, GenerationRecord, PromotionJournal, PackageLock}
use docker_vrising.Disk.{World, Disk, Fault, fail_if, fail_if-keeps, promotion_mismatch}
use docker_vrising.Transaction.{load, save, transaction_artifacts}
use docker_vrising.Transaction.Records.{
  IsSaved, IsSaved-refl, IsSaved-trans, load-IsSaved, fail_if-IsSaved,
  transaction_artifacts-IsSaved,
}
use docker_vrising.Promotion.Commit.{
  Commit, conclude, on_error, not_committed, recovery_required, commit_promotion, commit_loaded,
  persist_intent, check_candidate_applied, is_staged, intent,
}
use docker_vrising.Promotion.{is_applied, reconcile_promotion}

-- If the call says that nothing was committed, the document and the lock are as they were.
abbrev IsSilent : Commit → World → Type 0
IsSilent k w = (k w).0.0 ≡ not_committed → IsSaved w (k w).1

module _ {A : Type 0} where
  conclude-IsSilent :
      (r : Result Fault A) (f : A → Commit) (u v : World)
      → IsSaved u v
      → ((a : A) → IsSilent (f a) v)
      → (conclude not_committed r f v).0.0 ≡ not_committed
      → IsSaved u (conclude not_committed r f v).1
  conclude-IsSilent (ok a) f u v kept rest h = IsSaved-trans u v _ kept (rest a h)
  conclude-IsSilent (err e) f u v kept rest h = kept

  on_error-IsSilent :
      (m : Disk A) (f : A → Commit) (w : World)
      → IsSaved w (m w).1
      → ((a : A) (v : World) → IsSilent (f a) v)
      → IsSilent (on_error not_committed m f) w
  on_error-IsSilent m f w kept rest =
      conclude-IsSilent (m w).0 f w (m w).1 kept (λ a. rest a (m w).1)

  -- Past the save of the intent, the outcome is another.
  conclude-not_silent :
      (r : Result Fault A) (f : A → Commit) (v : World)
      → ((a : A) (x : World) → (f a x).0.0 ≡ not_committed → ⊥)
      → (conclude recovery_required r f v).0.0 ≡ not_committed
      → ⊥
  conclude-not_silent (ok a) f v rest h = rest a v h
  conclude-not_silent (err e) f v rest h = cc

module _ (hash : PackageLock → Bytes) (d : AbsolutePath) (staged : GenerationRecord) where
  persist_intent-IsSilent :
      (lock : PackageLock) (s : State) (w : World)
      → IsSilent (persist_intent hash d staged lock s) w
  persist_intent-IsSilent lock s w h = absurd (
      conclude-not_silent (save d (intent hash d staged lock s) w).0 _ _
        (λ _ x. conclude-not_silent (reconcile_promotion hash d x).0 _ _ (λ _ y e. cc)) h)

  commit_loaded-IsSilent :
      (lock : PackageLock) (s : State) (o : Option PromotionJournal) (w : World)
      → IsSilent (commit_loaded hash d staged lock s o) w
  unfolding commit_loaded
  commit_loaded-IsSilent lock s none w =
      on_error-IsSilent (transaction_artifacts d s) (λ _. persist_intent hash d staged lock s) w
        (transaction_artifacts-IsSaved d s w) (λ _. persist_intent-IsSilent lock s)
  commit_loaded-IsSilent lock s (some q) w = λ h. absurd cc

  check_candidate_applied-IsSaved :
      (s : State) (w : World) → IsSaved w (check_candidate_applied hash d staged s w).1
  unfolding check_candidate_applied
  check_candidate_applied-IsSaved s w =
      fail_if-keeps (IsSaved w) (not (is_staged hash d staged s.candidate)) promotion_mismatch
        (fail_if (not (is_applied s.transaction staged.id)) promotion_mismatch) w (IsSaved-refl w)
        (fail_if-IsSaved (not (is_applied s.transaction staged.id)) promotion_mismatch w)

  -- When `CommitPromotion` returns `PromotionNotCommitted`, whichever calls failed, `state.json` and
  -- the package lock are as they were, if the check of the staged generation changes neither.
  pub commit_promotion-keeps :
      (open_staged : Disk PackageLock) (w : World)
      → ((v : World) → IsSaved v (open_staged v).1)
      → (commit_promotion hash d open_staged staged w).0.0 ≡ not_committed
      → IsSaved w (commit_promotion hash d open_staged staged w).1
  unfolding commit_promotion
  commit_promotion-keeps open_staged w reads =
      on_error-IsSilent open_staged _ w (reads w) (λ lock u.
        on_error-IsSilent (load d) _ u (load-IsSaved d u) (λ s v.
          on_error-IsSilent (check_candidate_applied hash d staged s) _ v
            (check_candidate_applied-IsSaved s v) (λ _. commit_loaded-IsSilent lock s s.promotion)))

-- ===== src/Promotion/Records.antt =====
-- What the steps of a promotion do to the state document and the package lock.
use docker_vrising.Prelude.{inl, inr, Option, none, some, List, [], ◌∷◌, arith, Bytes}
use docker_vrising.Prelude.Result.{Result-cases}
use docker_vrising.Path.{AbsolutePath, relative_path_parts}
use docker_vrising.State.{State}
use docker_vrising.Disk.{World, FileSnapshot, attempt_lem, sync_parent, remove_journal_artifact}
use docker_vrising.Transaction.{TransactionArtifact, transaction_artifacts}
use docker_vrising.Transaction.Records.{
  IsSaved, IsSaved-refl, bind-IsSaved, attempt-IsSaved, transaction_artifacts-IsSaved,
}
use docker_vrising.Promotion.{
  commit_artifact, commit_artifacts, commit_transaction_artifacts, remove_generation,
}

commit_artifact-IsSaved :
    (path : Bytes) (f : Option FileSnapshot) (w : World) → IsSaved w (commit_artifact path f w).1
unfolding sync_parent remove_journal_artifact
commit_artifact-IsSaved path none w = attempt-IsSaved w
commit_artifact-IsSaved path (some f) w = ground (arith, attempt_lem w)

commit_artifacts-IsSaved :
    (artifacts : List TransactionArtifact) (w : World) → IsSaved w (commit_artifacts artifacts w).1
unfolding commit_artifacts
commit_artifacts-IsSaved [] w = IsSaved-refl w
commit_artifacts-IsSaved (a ∷ artifacts) w =
    bind-IsSaved (commit_artifact a.path a.snapshot) _ w
      (commit_artifact-IsSaved a.path a.snapshot w) (λ _. commit_artifacts-IsSaved artifacts)

pub commit_transaction_artifacts-IsSaved :
    (d : AbsolutePath) (s : State) (w : World) → IsSaved w (commit_transaction_artifacts d s w).1
unfolding commit_transaction_artifacts
commit_transaction_artifacts-IsSaved d s w =
    bind-IsSaved (transaction_artifacts d s) commit_artifacts w
      (transaction_artifacts-IsSaved d s w) commit_artifacts-IsSaved

pub remove_generation-IsSaved : (id : Bytes) (w : World) → IsSaved w (remove_generation id w).1
unfolding remove_generation
remove_generation-IsSaved id w = elim (Result-cases (relative_path_parts id)) [
  | inl (parts, e) ↦ rw e (ground (arith, attempt_lem w))
  | inr (x, e) ↦ rw e (IsSaved-refl w)
]

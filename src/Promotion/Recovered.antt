-- ===== src/Promotion/Recovered.antt =====
-- `reconcilePromotion`, interrupted or not: the document stays in one of its stages, and a run that
-- returns no error has finished the promotion.
use docker_vrising.Prelude.{◌≡◌, refl, sym, subst, ◌∙◌, none, some, List, [], ◌∷◌, Bytes, Bool}
use docker_vrising.Prelude.Result.{ok}
use docker_vrising.Path.{AbsolutePath}
use docker_vrising.State.{State, GenerationRecord, PromotionJournal, PackageLock}
use docker_vrising.Disk.{World, Disk, ◌>>=◌, ◌>>◌, promotion_invalid}
use docker_vrising.Disk.Laws.{Yields, bind-Yields, fail_if-Yields}
use docker_vrising.Transaction.{load, transaction_artifacts}
use docker_vrising.Transaction.Records.{load-IsRead, load-ok, transaction_artifacts-IsRead}
use docker_vrising.Promotion.{
  settle_promotion, settle_candidate, clean_up, clear_promotion, reconcile_promotion, is_invalid,
}
use docker_vrising.Promotion.Settling.{
  IsSettled, Settles, promote_candidate-Settles, confirm_active-Settles,
}
use docker_vrising.Promotion.Stages.{
  cleaning, done, IsCleaning, IsPromoted-of, IsDone, Stage, intended, promoted, complete,
  Stage-IsRead, clean_up-Cleans, clear_promotion-Yields,
}

-- Runs that meet the given failures, each from the disk that the one before it left.
abbrev pub promotion_runs : (PackageLock → Bytes) → AbsolutePath → List (List Bool) → World → World
promotion_runs hash d [] w = w
promotion_runs hash d (faults ∷ runs) w =
    promotion_runs hash d runs (reconcile_promotion hash d (record w { faults = faults })).1

module _ (hash : PackageLock → Bytes) (d : AbsolutePath) (s0 : State) (p : PromotionJournal)
    (c : GenerationRecord) (has_promotion : s0.promotion ≡ some p)
    (has_candidate : s0.candidate ≡ some c) where
  settle_intended :
      (w : World)
      → w.document ≡ some s0
      → Settles hash d s0 p c (settle_promotion hash d s0 s0.promotion) w
  unfolding settle_promotion
  settle_intended w h =
      subst (λ o. Settles hash d s0 p c (settle_promotion hash d s0 o) w) (sym has_promotion)
        (fail_if-Yields (Stage hash d s0 p c) (IsSettled hash d s0 p c) (is_invalid hash d p)
          promotion_invalid (settle_candidate hash d s0 p s0.candidate) w (intended h)
          (subst (λ o. Settles hash d s0 p c (settle_candidate hash d s0 p o) w) (sym has_candidate)
            (promote_candidate-Settles hash d s0 p c w h)))

  settle_promoted :
      (left : List Bytes) (w : World)
      → IsCleaning hash d s0 p c left w
      → Settles hash d s0 p c (settle_promotion hash d (cleaning hash d s0 p c left) s0.promotion) w
  unfolding settle_promotion
  settle_promoted left w h =
      let s = cleaning hash d s0 p c left in
      subst (λ o. Settles hash d s0 p c (settle_promotion hash d s o) w) (sym has_promotion)
        (fail_if-Yields (Stage hash d s0 p c) (IsSettled hash d s0 p c) (is_invalid hash d p)
          promotion_invalid (settle_candidate hash d s p none) w
          (promoted (IsPromoted-of hash d s0 p c left w h))
          (confirm_active-Settles hash d s0 p c left w h))

  -- The cleanup, and the end of the intent.
  abbrev finish : State → Disk (Unit {0})
  finish s = clean_up hash d s s.pending_cleanup >> clear_promotion hash d s s.promotion

  -- Whatever fails, one of the stages is left, and the last one when no error is returned.
  abbrev Finishes : Disk (Unit {0}) → World → Type 0
  Finishes = Yields (Stage hash d s0 p c) (λ _. IsDone hash d s0 p c)

  bind-Finishes :
      {A : Type 0} (m : Disk A) (f : A → Disk (Unit {0})) (w : World)
      → Stage hash d s0 p c (m w).1
      → ((a : A) → (m w).0 ≡ ok a → Finishes (f a) (m w).1)
      → Finishes (m >>= f) w
  bind-Finishes = bind-Yields (Stage hash d s0 p c) (λ _. IsDone hash d s0 p c)

  finish-Finishes :
      (left : List Bytes) (v : World)
      → IsCleaning hash d s0 p c left v
      → Finishes (finish (cleaning hash d s0 p c left)) v
  finish-Finishes left v h =
      let s = cleaning hash d s0 p c left in
      let cleaned = clean_up-Cleans hash d s0 p c left left v h in
      bind-Finishes (clean_up hash d s left) (λ _. clear_promotion hash d s s0.promotion) v
        (promoted cleaned.after)
        (λ u ran.
          clear_promotion-Yields hash d s0 p c left s0.promotion _ has_promotion
            (cleaned.returned u ran))

  settle_then_finish :
      (m : Disk State) (v : World) → Settles hash d s0 p c m v → Finishes (m >>= finish) v
  settle_then_finish m v h = bind-Finishes m finish v h.after (λ s ran.
      let (left, e, there) = h.returned s ran in
      subst (λ s. Finishes (finish s) (m v).1) (sym e) (finish-Finishes left _ there))

  -- What follows the load.
  abbrev after_load : State → Disk (Unit {0})
  after_load s =
      transaction_artifacts d s >>= λ artifacts. settle_promotion hash d s s.promotion >>= finish

  finish-done : (v : World) → IsDone hash d s0 p c v → Finishes (finish (done hash d s0 p c)) v
  unfolding clean_up clear_promotion
  finish-done v h = record { after = complete h; returned = λ _ _. h }

  settle_promotion-done :
      (v : World)
      → IsDone hash d s0 p c v
      → Finishes (settle_promotion hash d (done hash d s0 p c) none >>= finish) v
  unfolding settle_promotion
  settle_promotion-done v h = finish-done v h

  after_load-Finishes :
      (s : State) (v : World)
      → v.document ≡ some s
      → Stage hash d s0 p c v
      → Finishes (after_load s) v
  after_load-Finishes s v h stage =
      let kept = transaction_artifacts-IsRead d s v in
      bind-Finishes (transaction_artifacts d s)
        (λ _. settle_promotion hash d s s.promotion >>= finish) v
        (Stage-IsRead hash d s0 p c v _ kept stage)
        (λ _ _.
          settled_as (transaction_artifacts d s v).1 (kept.document ∙ h)
            (Stage-IsRead hash d s0 p c v _ kept stage))
    where
      same_state : {a b : State} (x : World) → x.document ≡ some a → x.document ≡ some b → b ≡ a
      same_state x h k = cc

      settled_as :
          (x : World)
          → x.document ≡ some s
          → Stage hash d s0 p c x
          → Finishes (settle_promotion hash d s s.promotion >>= finish) x
      settled_as x h (intended k) =
          subst (λ s. Finishes (settle_promotion hash d s s.promotion >>= finish) x)
            (same_state x h k)
            (settle_then_finish (settle_promotion hash d s0 s0.promotion) x (settle_intended x k))
      settled_as x h (promoted k) =
          subst (λ s. Finishes (settle_promotion hash d s s.promotion >>= finish) x)
            (same_state x h k.rest.document)
            (settle_then_finish
              (settle_promotion hash d (cleaning hash d s0 p c k.left) s0.promotion) x
              (settle_promoted k.left x k.rest))
      settled_as x h (complete k) =
          subst (λ s. Finishes (settle_promotion hash d s s.promotion >>= finish) x)
            (same_state x h k.document) (settle_promotion-done x k)

  document_at : (w : World) → Stage hash d s0 p c w → (s : State) × (w.document ≡ some s)
  document_at w (intended h) = (s0, h)
  document_at w (promoted h) = (cleaning hash d s0 p c h.left, h.rest.document)
  document_at w (complete h) = (done hash d s0 p c, h.document)

  reconcile-Finishes : (w : World) → Stage hash d s0 p c w → Finishes (reconcile_promotion hash d) w
  unfolding reconcile_promotion
  reconcile-Finishes w stage =
      let kept = load-IsRead d w in
      let v = (load d w).1 in
      let later = Stage-IsRead hash d s0 p c w v kept stage in
      let (s, there) = document_at w stage in
      bind-Finishes (load d) after_load w later (λ a ran.
        subst (λ s. Finishes (after_load s) v) (sym (load-ok d s w there ran))
          (after_load-Finishes s v (kept.document ∙ there) later))

  -- Whatever calls of `reconcilePromotion` fail, the document stays one of the intent, the promoted
  -- state with the rest of the cleanup, and the finished state. From the promotion of the candidate
  -- on, the package lock is the promotion's, and no file is left of the generations whose cleanup is
  -- no longer recorded.
  pub reconcile-Stage :
      (w : World) → Stage hash d s0 p c w → Stage hash d s0 p c (reconcile_promotion hash d w).1
  reconcile-Stage w stage = (reconcile-Finishes w stage).after

  Stage-faults :
      (faults : List Bool) (w : World)
      → Stage hash d s0 p c w
      → Stage hash d s0 p c (record w { faults = faults })
  Stage-faults faults w stage =
      Stage-IsRead hash d s0 p c w _
        (record { document = refl; package_lock = refl; state_files = refl }) stage

  promotion_runs-Stage :
      (runs : List (List Bool)) (w : World)
      → Stage hash d s0 p c w
      → Stage hash d s0 p c (promotion_runs hash d runs w)
  promotion_runs-Stage [] w stage = stage
  promotion_runs-Stage (faults ∷ runs) w stage =
      promotion_runs-Stage runs _ (reconcile-Stage _ (Stage-faults faults w stage))

  -- A promotion whose intent is saved, and whose reconciliation failed or crashed at any call any
  -- number of times: when a run of it returns no error, the candidate is the active generation, the
  -- former active one the previous, the journals and the recorded cleanup are gone, the package lock is the promotion's, and
  -- no file is left of any generation that the intent names for the cleanup.
  pub reconcile-IsDone :
      (runs : List (List Bool)) (w : World)
      → w.document ≡ some s0
      → (reconcile_promotion hash d (promotion_runs hash d runs w)).0 ≡ ok tt
      → IsDone hash d s0 p c (reconcile_promotion hash d (promotion_runs hash d runs w)).1
  reconcile-IsDone runs w h =
      (reconcile-Finishes (promotion_runs hash d runs w)
          (promotion_runs-Stage runs w (intended h))).returned
        tt

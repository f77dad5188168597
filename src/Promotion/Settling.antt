-- ===== src/Promotion/Settling.antt =====
-- The steps of `reconcilePromotion` that settle its intent: each leaves one of the stages.
use docker_vrising.Prelude.{
  ◌≡◌, refl, [], sym, ◌∙◌, if◌then◌else◌, inl, inr, Bool, not, ◌&&◌, nat_eq, bytes_eq, some, List,
  arith, Bytes,
}
use docker_vrising.Prelude.Result.{ok}
use docker_vrising.Path.{AbsolutePath}
use docker_vrising.State.{State, GenerationRecord, PromotionJournal, PackageLock}
use docker_vrising.Disk.{
  World, Disk, ◌>>=◌, ◌>>◌, pure, attempt_lem, if-keeps, save_lock, promotion_mismatch,
}
use docker_vrising.Disk.Laws.{Yields, bind-Yields, fail_if-Yields}
use docker_vrising.Transaction.{save}
use docker_vrising.Transaction.Records.{IsRead, IsWritten, Saves, save-Saves, save-ok}
use docker_vrising.Promotion.{
  promote, promote_candidate, confirm_active, save_package_lock, commit_transaction_artifacts,
  load_package_lock_differs, is_for, is_applied, active_is_for,
}
use docker_vrising.Promotion.Records.{commit_transaction_artifacts-IsSaved}
use docker_vrising.Promotion.Stages.{
  IsCleaning, IsPromoted-of, Stage, intended, promoted, cleaning, IsCleaning-IsRead,
}

save_package_lock-state_files :
    (lock : PackageLock) (w : World) → (save_package_lock lock w).1.state_files ≡ w.state_files
unfolding save_package_lock save_lock
save_package_lock-state_files lock w = ground (arith, attempt_lem w)

-- The lock was saved, or nothing was.
save_package_lock-document :
    (lock : PackageLock) (w : World) → (save_package_lock lock w).1.document ≡ w.document
unfolding save_package_lock save_lock
save_package_lock-document lock w = ground (arith, attempt_lem w)

save_package_lock-ok :
    (lock : PackageLock) (w : World)
    → (save_package_lock lock w).0 ≡ ok tt
    → (save_package_lock lock w).1.package_lock ≡ some lock
unfolding save_package_lock save_lock
save_package_lock-ok lock w h = ground (arith, attempt_lem w)

save_package_lock-keeps :
    (lock : PackageLock) (w : World)
    → w.package_lock ≡ some lock
    → (save_package_lock lock w).1.package_lock ≡ some lock
unfolding save_package_lock save_lock
save_package_lock-keeps lock w h = ground (arith, attempt_lem w)

load_package_lock_differs-IsRead :
    (lock : PackageLock) (w : World) → IsRead w (load_package_lock_differs lock w).1
unfolding load_package_lock_differs
load_package_lock_differs-IsRead lock w = ground (arith, attempt_lem w)

module _ (hash : PackageLock → Bytes) (d : AbsolutePath) (s0 : State) (p : PromotionJournal)
    (c : GenerationRecord) where
  -- The state that was settled is the promoted one, with the cleanup that is left on the disk.
  abbrev pub IsSettled : State → World → Type 0
  IsSettled s w =
      (left : List Bytes) × (s ≡ cleaning hash d s0 p c left) × IsCleaning hash d s0 p c left w

  -- A step that leaves one of the stages, and the promoted state when it returns no error.
  abbrev pub Settles : Disk State → World → Type 0
  Settles = Yields (Stage hash d s0 p c) IsSettled

  bind-Settles :
      {A : Type 0} (m : Disk A) (f : A → Disk State) (w : World)
      → Stage hash d s0 p c (m w).1
      → ((a : A) → (m w).0 ≡ ok a → Settles (f a) (m w).1)
      → Settles (m >>= f) w
  bind-Settles = bind-Yields (Stage hash d s0 p c) IsSettled

  IsCleaning-by_save :
      (v v' : World)
      → v.package_lock ≡ some p.lock
      → IsWritten (promote s0 c) v v'
      → IsCleaning hash d s0 p c s0.pending_cleanup v'
  IsCleaning-by_save v v' lock new = record {
    document = new.document;
    package_lock = new.package_lock ∙ lock;
    removed = [];
    whole = refl;
    gone = tt;
  }

  stage_of :
      (left : List Bytes) (w : World) → IsCleaning hash d s0 p c left w → Stage hash d s0 p c w
  stage_of left w h = promoted (IsPromoted-of hash d s0 p c left w h)

  pure-Settles :
      (left : List Bytes) (w : World)
      → IsCleaning hash d s0 p c left w
      → Settles (pure (cleaning hash d s0 p c left)) w
  pure-Settles left w h = record { after = stage_of left w h; returned = λ s e. (left, cc, h) }

  abbrev save_last : Disk State
  save_last = save d (promote s0 c) >> pure (promote s0 c)

  abbrev commit_last : Disk State
  commit_last = commit_transaction_artifacts d s0 >> save_last

  Stage-Saves :
      (v v' : World)
      → v.document ≡ some s0
      → v.package_lock ≡ some p.lock
      → Saves (promote s0 c) v v'
      → Stage hash d s0 p c v'
  Stage-Saves v v' h lock (inl kept) = intended (kept.document ∙ h)
  Stage-Saves v v' h lock (inr new) =
      stage_of s0.pending_cleanup v' (IsCleaning-by_save v v' lock new)

  save_last-Settles :
      (v : World) → v.document ≡ some s0 → v.package_lock ≡ some p.lock → Settles save_last v
  save_last-Settles v h lock =
      let v' = (save d (promote s0 c) v).1 in
      bind-Settles (save d (promote s0 c)) (λ _. pure (promote s0 c)) v
        (Stage-Saves v v' h lock (save-Saves d (promote s0 c) v))
        (λ _ ran.
          pure-Settles s0.pending_cleanup v'
            (IsCleaning-by_save v v' lock (save-ok d (promote s0 c) v ran)))

  commit_last-Settles :
      (v : World) → v.document ≡ some s0 → v.package_lock ≡ some p.lock → Settles commit_last v
  commit_last-Settles v h lock =
      let kept = commit_transaction_artifacts-IsSaved d s0 v in
      bind-Settles (commit_transaction_artifacts d s0) (λ _. save_last) v
        (intended (kept.document ∙ h))
        (λ _ _. save_last-Settles _ (kept.document ∙ h) (kept.package_lock ∙ lock))

  pub promote_candidate-Settles :
      (w : World) → w.document ≡ some s0 → Settles (promote_candidate d s0 p c) w
  unfolding promote_candidate
  promote_candidate-Settles w h =
      let kept = save_package_lock-document p.lock w ∙ h in
      fail_if-Yields (Stage hash d s0 p c) IsSettled
        (not (is_for c p && is_applied s0.transaction p.generation_id)) promotion_mismatch
        (save_package_lock p.lock >> commit_last) w (intended h)
        (bind-Settles (save_package_lock p.lock) (λ _. commit_last) w (intended kept)
          (λ _ ran. commit_last-Settles _ kept (save_package_lock-ok p.lock w ran)))

  -- The candidate is active already: its lock is compared, and written again if it differs.
  lock_step-IsCleaning :
      (left : List Bytes) (differs : Bool) (w : World)
      → IsCleaning hash d s0 p c left w
      → IsCleaning hash d s0 p c left ((if differs then save_package_lock p.lock else pure tt) w).1
  lock_step-IsCleaning left differs w h =
      if-keeps (IsCleaning hash d s0 p c left) differs (save_package_lock p.lock) (pure tt) w
        (λ _.
          IsCleaning-IsRead hash d s0 p c left w _
            (record {
              document = save_package_lock-document p.lock w;
              package_lock = save_package_lock-keeps p.lock w h.package_lock ∙ sym h.package_lock;
              state_files = save_package_lock-state_files p.lock w;
            })
            h)
        (λ _. h)

  abbrev rewrite_lock : List Bytes → Bool → Disk State
  rewrite_lock left differs =
      (if differs then save_package_lock p.lock else pure tt) >> pure (cleaning hash d s0 p c left)

  pub confirm_active-Settles :
      (left : List Bytes) (w : World)
      → IsCleaning hash d s0 p c left w
      → Settles (confirm_active (cleaning hash d s0 p c left) p) w
  unfolding confirm_active
  confirm_active-Settles left w h =
      let compared =
        IsCleaning-IsRead hash d s0 p c left w _ (load_package_lock_differs-IsRead p.lock w) h in
      fail_if-Yields (Stage hash d s0 p c) IsSettled
        (not (active_is_for (cleaning hash d s0 p c left).active p)) promotion_mismatch
        (load_package_lock_differs p.lock >>= rewrite_lock left) w (stage_of left w h)
        (bind-Settles (load_package_lock_differs p.lock) (rewrite_lock left) w
          (stage_of left _ compared)
          (λ differs _.
            let there = lock_step-IsCleaning left differs _ compared in
            bind-Settles (if differs then save_package_lock p.lock else pure tt)
              (λ _. pure (cleaning hash d s0 p c left)) _ (stage_of left _ there)
              (λ _ _. pure-Settles left _ there)))

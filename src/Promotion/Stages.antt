-- ===== src/Promotion/Stages.antt =====
-- The documents that an interrupted promotion can leave, and where its recovery leads.
use docker_vrising.Prelude.{
  codes, ◌≡◌, ◌∙◌, sym, subst, inl, inr, nat_eq, bytes_eq, Option, none, some, List, [], ◌∷◌, ◌++◌,
  Bytes, All,
}
use mathlib.Core.List.{append-nil, append_assoc}
use docker_vrising.Path.{AbsolutePath}
use docker_vrising.State.{State, GenerationRecord, PromotionJournal, PackageLock}
use docker_vrising.Disk.{World, Disk, ◌>>◌, still_referenced}
use docker_vrising.Disk.Laws.{Yields, bind-Yields, fail_if-Yields}
use docker_vrising.Transaction.{save}
use docker_vrising.Transaction.Records.{
  IsSaved, IsRead, IsRead-IsSaved, IsWritten, Saves, save-Saves, save-ok,
}
use docker_vrising.Promotion.{
  clean_up, clear_promotion, remove_generation, generation_is_referenced,
}
use docker_vrising.Promotion.Records.{remove_generation-IsSaved}
use docker_vrising.Promotion.Cleanup.{
  IsGone, Shrinks, AreGone-Shrinks, AreGone-snoc, remove_generation-Shrinks,
  remove_generation-IsGone,
}

module _ (hash : PackageLock → Bytes) (d : AbsolutePath) (s0 : State) (p : PromotionJournal)
    (c : GenerationRecord) where
  abbrev pub previous_generation : Option GenerationRecord → Option GenerationRecord
  previous_generation none = none
  previous_generation (some r) = some (record {
    id = r.id;
    lock_digest = r.lock_digest;
    status = codes "previous";
    created_at = r.created_at;
  })

  -- The promoted state, with the cleanup that is left: the candidate is active, the generation that
  -- was active is the previous one, and nothing is left of the transaction.
  abbrev pub promoted_state : List Bytes → Option PromotionJournal → State
  promoted_state left promotion = record {
    schema_version = s0.schema_version;
    steam_build = s0.steam_build;
    active = some (record {
      id = c.id;
      lock_digest = c.lock_digest;
      status = codes "active";
      created_at = c.created_at;
    });
    previous = previous_generation s0.active;
    candidate = none;
    failed = none;
    transaction = none;
    promotion = promotion;
    pending_cleanup = left;
    runtime = s0.runtime;
  }

  abbrev pub cleaning : List Bytes → State
  cleaning ids = promoted_state ids s0.promotion

  abbrev pub done : State
  done = promoted_state [] none

  -- The promoted state is saved, and what is left of its cleanup is the rest of it: the generations
  -- before are no longer on the disk.
  pub record IsCleaning (left : List Bytes) (w : World) : Type 0 where
    pub document : w.document ≡ some (cleaning left)
    pub package_lock : w.package_lock ≡ some p.lock
    pub removed : List Bytes
    pub whole : removed ++ left ≡ s0.pending_cleanup
    pub gone : All (IsGone w) removed

  pub record IsPromoted (w : World) : Type 0 where
    pub left : List Bytes
    pub rest : IsCleaning left w

  -- The promotion is finished, and so is its cleanup.
  pub record IsDone (w : World) : Type 0 where
    pub document : w.document ≡ some done
    pub package_lock : w.package_lock ≡ some p.lock
    pub gone : All (IsGone w) s0.pending_cleanup

  -- The intent is saved; the candidate is active and the cleanup goes on; all is done.
  pub data Stage (w : World) : Type 0 where
    intended : w.document ≡ some s0 → Stage w
    promoted : IsPromoted w → Stage w
    complete : IsDone w → Stage w

  pub IsCleaning-Shrinks :
      (left : List Bytes) (u v : World)
      → IsSaved u v
      → Shrinks u v
      → IsCleaning left u
      → IsCleaning left v
  IsCleaning-Shrinks left u v kept shrinks h = record {
    document = kept.document ∙ h.document;
    package_lock = kept.package_lock ∙ h.package_lock;
    removed = h.removed;
    whole = h.whole;
    gone = AreGone-Shrinks u v h.removed shrinks h.gone;
  }

  IsRead-Shrinks : (u v : World) → IsRead u v → Shrinks u v
  IsRead-Shrinks u v r path h = subst (λ files. files path ≡ none) (sym r.state_files) h

  pub IsCleaning-IsRead :
      (left : List Bytes) (u v : World) → IsRead u v → IsCleaning left u → IsCleaning left v
  IsCleaning-IsRead left u v r =
      IsCleaning-Shrinks left u v (IsRead-IsSaved u v r) (IsRead-Shrinks u v r)

  pub Stage-IsRead : (u v : World) → IsRead u v → Stage u → Stage v
  Stage-IsRead u v r (intended h) = intended (r.document ∙ h)
  Stage-IsRead u v r (promoted h) =
      promoted (record { left = h.left; rest = IsCleaning-IsRead h.left u v r h.rest })
  Stage-IsRead u v r (complete h) = complete (record {
    document = r.document ∙ h.document;
    package_lock = r.package_lock ∙ h.package_lock;
    gone = AreGone-Shrinks u v s0.pending_cleanup (IsRead-Shrinks u v r) h.gone;
  })

  pub IsPromoted-of : (left : List Bytes) (w : World) → IsCleaning left w → IsPromoted w
  IsPromoted-of left w h = record { left = left; rest = h }

  -- What the loop of the cleanup does.
  abbrev pub Cleans : Disk (Unit {0}) → World → Type 0
  Cleans = Yields IsPromoted (λ _. IsCleaning [])

  IsCleaning-written :
      (id : Bytes) (ids : List Bytes) (v v' : World)
      → IsCleaning (id ∷ ids) v
      → IsGone v id
      → IsWritten (cleaning ids) v v'
      → IsCleaning ids v'
  IsCleaning-written id ids v v' h gone new = record {
    document = new.document;
    package_lock = new.package_lock ∙ h.package_lock;
    removed = h.removed ++ (id ∷ []);
    whole = append_assoc h.removed (id ∷ []) ids ∙ h.whole;
    gone =
        AreGone-Shrinks v v' (h.removed ++ (id ∷ []))
          (λ path k. subst (λ files. files path ≡ none) (sym new.state_files) k)
          (AreGone-snoc v h.removed id h.gone gone);
  }

  save-IsPromoted :
      (id : Bytes) (ids : List Bytes) (v v' : World)
      → IsCleaning (id ∷ ids) v
      → IsGone v id
      → Saves (cleaning ids) v v'
      → IsPromoted v'
  save-IsPromoted id ids v v' h gone (inl kept) =
      IsPromoted-of (id ∷ ids) v' (IsCleaning-IsRead (id ∷ ids) v v' kept h)
  save-IsPromoted id ids v v' h gone (inr new) =
      IsPromoted-of ids v' (IsCleaning-written id ids v v' h gone new)

  save-Cleans :
      (id : Bytes) (ids : List Bytes) (more : Disk (Unit {0})) (v : World)
      → ((u : World) → IsCleaning ids u → Cleans more u)
      → IsCleaning (id ∷ ids) v
      → IsGone v id
      → Cleans (save d (cleaning ids) >> more) v
  save-Cleans id ids more v rest h gone =
      bind-Yields IsPromoted (λ _. IsCleaning []) (save d (cleaning ids)) (λ _. more) v
        (save-IsPromoted id ids v _ h gone (save-Saves d (cleaning ids) v))
        (λ _ ran.
          rest (save d (cleaning ids) v).1
            (IsCleaning-written id ids v _ h gone (save-ok d (cleaning ids) v ran)))

  -- Whatever fails, the cleanup leaves the rest of it to do, and nothing when it returns no error.
  pub clean_up-Cleans :
      (xs ids : List Bytes) (w : World)
      → IsCleaning ids w
      → Cleans (clean_up hash d (cleaning xs) ids) w
  unfolding clean_up
  clean_up-Cleans xs [] w h = record { after = IsPromoted-of [] w h; returned = λ _ _. h }
  clean_up-Cleans xs (id ∷ ids) w h =
      let v = (remove_generation id w).1 in
      let removed =
        IsCleaning-Shrinks (id ∷ ids) w v (remove_generation-IsSaved id w)
          (remove_generation-Shrinks id w) h in
      fail_if-Yields IsPromoted (λ _. IsCleaning []) (generation_is_referenced (cleaning xs) id)
        still_referenced
        (remove_generation id >> (save d (cleaning ids) >> clean_up hash d (cleaning xs) ids)) w
        (IsPromoted-of (id ∷ ids) w h)
        (bind-Yields IsPromoted (λ _. IsCleaning []) (remove_generation id)
          (λ _. save d (cleaning ids) >> clean_up hash d (cleaning xs) ids) w
          (IsPromoted-of (id ∷ ids) v removed)
          (λ _ ran.
            save-Cleans id ids (clean_up hash d (cleaning xs) ids) v (clean_up-Cleans xs ids)
              removed (remove_generation-IsGone id w ran)))

  IsDone-written : (v v' : World) → IsCleaning [] v → IsWritten done v v' → IsDone v'
  IsDone-written v v' h new = record {
    document = new.document;
    package_lock = new.package_lock ∙ h.package_lock;
    gone =
        AreGone-Shrinks v v' s0.pending_cleanup
          (λ path k. subst (λ files. files path ≡ none) (sym new.state_files) k)
          (subst (λ ids. All (IsGone v) ids) (sym (append-nil h.removed) ∙ h.whole) h.gone);
  }

  Stage-of_done : (v v' : World) → IsCleaning [] v → Saves done v v' → Stage v'
  Stage-of_done v v' h (inl kept) =
      promoted (IsPromoted-of [] v' (IsCleaning-IsRead [] v v' kept h))
  Stage-of_done v v' h (inr new) = complete (IsDone-written v v' h new)

  pub clear_promotion-Yields :
      (xs : List Bytes) (o : Option PromotionJournal) (v : World)
      → o ≡ some p
      → IsCleaning [] v
      → Yields Stage (λ _. IsDone) (clear_promotion hash d (cleaning xs) o) v
  unfolding clear_promotion
  clear_promotion-Yields xs none v e h = cc
  clear_promotion-Yields xs (some q) v e h = record {
    after = Stage-of_done v _ h (save-Saves d done v);
    returned = λ _ ran. IsDone-written v _ h (save-ok d done v ran);
  }

-- ===== src/Apply/Displaced.antt =====
-- The old file of a change is moved to quarantine: wherever this stops, the entry is recoverable, and
-- when it returns no error the old file is there.
use docker_vrising.Prelude.{
  ◌≡◌, Bool, true, not, Option, none, some, [], bytes_beq, bytes_beq_refl, arith, ◌≢◌, sym, subst,
  ◌∙◌, Bool-cases, inl, inr,
}
use docker_vrising.Prelude.Result.{Result, ok}
use docker_vrising.State.{JournalEntry}
use docker_vrising.Disk.{
  World, FileSnapshot, fail, pure, live_changed, Fault, server, state, snapshot_file_below,
  move_file_no_replace, attempt_lem, if-keeps,
}
use docker_vrising.Disk.Laws.{bind-keeps, bind-Ran}
use docker_vrising.Recovery.{exists}
use docker_vrising.Recovery.States.{
  IsWellFormed, live_of, quarantine_of, tombstone_of, IsRecoverable, recoverable_existing,
}
use docker_vrising.Apply.{
  ManagedFile, Change, digest_of, installed_digest, quarantine_managed_file, restore_displaced,
  move_out, look, look_back, settle, is_displaced,
}

abbrev pub is_named : Option ManagedFile → Bool
is_named none = true
is_named (some f) = not (bytes_beq f.sha256 [])

-- The entry says what the change will do, and the disk is as it was inspected.
pub record IsPlanned (c : Change) (w : World) : Type 0 where
  pub existed : c.entry.existed ≡ exists c.expected
  pub original : c.entry.original_sha256 ≡ digest_of c.expected
  pub installed : c.entry.installed_sha256 ≡ installed_digest c.next
  pub named : is_named c.next ≡ true
  pub live : live_of c.entry w ≡ c.expected
  pub quarantine : quarantine_of c.entry w ≡ none
  pub tombstone : tombstone_of c.entry w ≡ none

-- The old file, if there was one, has been moved to quarantine.
pub record IsDisplaced (c : Change) (w : World) : Type 0 where
  pub live : live_of c.entry w ≡ none
  pub quarantine : quarantine_of c.entry w ≡ c.expected
  pub tombstone : tombstone_of c.entry w ≡ none

abbrev pub change : JournalEntry → Option FileSnapshot → Option ManagedFile → Change
change entry expected next = record { entry = entry; expected = expected; next = next }

module _ (e : JournalEntry) (wf : IsWellFormed e) (next : Option ManagedFile)
    (f : FileSnapshot) where
  abbrev replacing : Change
  replacing = change e (some f) next

  move_out-IsRecoverable : (w : World) → IsPlanned replacing w → IsRecoverable e (move_out e w).1
  unfolding move_file_no_replace recoverable_existing
  move_out-IsRecoverable w p = ground (
    arith,
    bytes_beq_refl f.sha256,
    bytes_beq_refl e.quarantine_path,
    bytes_beq_refl e.relative_path,
  )

  move_out-IsDisplaced :
      (w : World)
      → IsPlanned replacing w
      → (move_out e w).0 ≡ ok tt
      → IsDisplaced replacing (move_out e w).1
  unfolding move_file_no_replace
  move_out-IsDisplaced w p h =
      ground (arith, bytes_beq_refl e.quarantine_path, bytes_beq_refl e.relative_path)

  module _ (existed : e.existed ≡ true) (original : e.original_sha256 ≡ f.sha256) where
    pub IsDisplaced-IsRecoverable : (w : World) → IsDisplaced replacing w → IsRecoverable e w
    unfolding recoverable_existing
    IsDisplaced-IsRecoverable w d = ground (arith, bytes_beq_refl f.sha256)

    restore_displaced-IsRecoverable :
        (w : World) → IsDisplaced replacing w → IsRecoverable e (restore_displaced e w).1
    unfolding restore_displaced move_file_no_replace recoverable_existing
    restore_displaced-IsRecoverable w d = ground (
      arith,
      bytes_beq_refl f.sha256,
      bytes_beq_refl e.quarantine_path,
      bytes_beq_refl e.relative_path,
    )

  look-IsDisplaced : (w : World) → IsDisplaced replacing w → IsDisplaced replacing (look e w).1
  unfolding snapshot_file_below
  look-IsDisplaced w d = ground (arith, attempt_lem w)

  not-restore_displaced-ok : (w : World) → (restore_displaced e w).0 ≢ ok tt
  unfolding restore_displaced
  not-restore_displaced-ok w h =
      let r =
        bind-Ran (move_file_no_replace state e.quarantine_path server e.relative_path)
          (λ _. fail live_changed) w h in
      cc (r.second)

  module _ (w : World) (p : IsPlanned replacing w) where
    pub quarantine-IsRecoverable : IsRecoverable e (quarantine_managed_file e f w).1
    unfolding quarantine_managed_file
    quarantine-IsRecoverable =
        bind-keeps (IsRecoverable e) (move_out e) (λ _. look_back e f) w
          (move_out-IsRecoverable w p)
          (λ _ moved.
            let d = look-IsDisplaced (move_out e w).1 (move_out-IsDisplaced w p moved) in
            let w2 = (look e (move_out e w).1).1 in
            bind-keeps (IsRecoverable e) (look e) (settle e f) (move_out e w).1
              (IsDisplaced-IsRecoverable p.existed p.original w2 d)
              (λ r _.
                if-keeps (IsRecoverable e) (is_displaced f r) (pure tt) (restore_displaced e) w2
                  (λ _. IsDisplaced-IsRecoverable p.existed p.original w2 d)
                  (λ _. restore_displaced-IsRecoverable p.existed p.original w2 d)))

    settle-ok :
        (r : Result Fault (Option FileSnapshot)) (v : World)
        → (settle e f r v).0 ≡ ok tt
        → (settle e f r v).1 ≡ v
    settle-ok r v h = elim (Bool-cases (is_displaced f r)) [
      | inl same ↦ rw same
      | inr other ↦ absurd (not-restore_displaced-ok v (rw other at h))
    ]

    pub quarantine-IsDisplaced :
        (quarantine_managed_file e f w).0 ≡ ok tt
        → IsDisplaced replacing (quarantine_managed_file e f w).1
    unfolding quarantine_managed_file
    quarantine-IsDisplaced h =
        let r = bind-Ran (move_out e) (λ _. look_back e f) w h in
        let s = bind-Ran (look e) (settle e f) (move_out e w).1 r.second in
        let d = look-IsDisplaced (move_out e w).1 (move_out-IsDisplaced w p r.first) in
        subst (IsDisplaced replacing) (sym (r.world ∙ s.world ∙ settle-ok s.value _ s.second)) d

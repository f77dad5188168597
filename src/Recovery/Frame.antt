-- ===== src/Recovery/Frame.antt =====
-- What recovery leaves alone: every other path, and a live file that the transaction did not install.
use docker_vrising.Prelude.{
  ◌∙◌, ◌≡◌, arith, bytes_beq, Bytes, List, [], ◌∷◌, All, Option, none, some, false,
}
use docker_vrising.State.{JournalEntry}
use docker_vrising.Disk.{
  Disk, ◌>>=◌, Tree, snapshot_file_below, World, FileSnapshot, advance, attempt_lem,
}
use docker_vrising.Disk.Laws.{bind-keeps}
use docker_vrising.Recovery.{
  recover_new_file, recover_stale_deletion, recover_replacement, finish_replacement,
  recover_existing_file, recover_seen, recover_quarantined_journal_entry,
  sync_quarantined_journal_parents,
}
use docker_vrising.Recovery.Branches.{recover_seen-keeps}
use docker_vrising.Recovery.States.{live_of, quarantine_of, tombstone_of}

-- The two paths hold what they held.
pub record Keeps (p q : Bytes) (w w' : World) : Type 0 where
  pub server_file : w'.server_files p ≡ w.server_files p
  pub state_file : w'.state_files q ≡ w.state_files q
  pub document : w'.document ≡ w.document
  pub package_lock : w'.package_lock ≡ w.package_lock

-- `p` is not the entry's live path, and `q` is neither of its artifacts.
pub record IsOutside (e : JournalEntry) (p q : Bytes) : Type 0 where
  pub live : bytes_beq e.relative_path p ≡ false
  pub quarantine : bytes_beq e.quarantine_path q ≡ false
  pub tombstone : bytes_beq e.tombstone_path q ≡ false

module _ (p q : Bytes) where
  Keeps-trans : (u v w : World) → Keeps p q u v → Keeps p q v w → Keeps p q u w
  Keeps-trans u v w a b = record {
    server_file = b.server_file ∙ a.server_file;
    state_file = b.state_file ∙ a.state_file;
    document = b.document ∙ a.document;
    package_lock = b.package_lock ∙ a.package_lock;
  }

  -- Each of two calls in sequence keeps the paths, so both do.
  pub bind-Keeps :
      {A B : Type 0} (m : Disk A) (f : A → Disk B) (w : World)
      → Keeps p q w (m w).1
      → ((a : A) (v : World) → Keeps p q v (f a v).1)
      → Keeps p q w ((m >>= f) w).1
  bind-Keeps m f w first rest =
      bind-keeps (Keeps p q w) m f w first
        (λ a _. Keeps-trans w (m w).1 (f a (m w).1).1 first (rest a (m w).1))

  pub snapshot-Keeps :
      (t : Tree) (path : Bytes) (w : World) → Keeps p q w (snapshot_file_below t path w).1
  unfolding snapshot_file_below
  snapshot-Keeps t path w = ground (arith, attempt_lem w)

module _ (e : JournalEntry) (p q : Bytes) (outside : IsOutside e p q) (w : World)
    (live tombstone : Option FileSnapshot) where
  recover_new_file-Keeps :
      (quarantine : Option FileSnapshot)
      → Keeps p q w (recover_new_file e live quarantine tombstone w).1
  unfolding recover_new_file
  recover_new_file-Keeps quarantine = ground arith

  recover_replacement-Keeps : Keeps p q w (recover_replacement e live tombstone w).1
  unfolding recover_replacement finish_replacement
  recover_replacement-Keeps = ground arith

  recover_existing_file-Keeps :
      (quarantine : Option FileSnapshot)
      → Keeps p q w (recover_existing_file e live quarantine tombstone w).1
  unfolding recover_existing_file
  recover_existing_file-Keeps none = ground arith
  recover_existing_file-Keeps (some f) =
      unfold recover_stale_deletion in ground (arith, recover_replacement-Keeps)

  recover_seen-Keeps :
      (quarantine : Option FileSnapshot)
      → Keeps p q w (recover_seen e live quarantine tombstone w).1
  recover_seen-Keeps quarantine =
      recover_seen-keeps (Keeps p q w) e live quarantine tombstone w (ground arith)
        (λ _. recover_existing_file-Keeps quarantine) (λ _. recover_new_file-Keeps quarantine)

-- Recovery of an entry leaves a server path and a state path that are not among the entry's as
-- they were, and the state document and the package lock too.
pub recover-Keeps :
    (e : JournalEntry) (p q : Bytes) (w : World)
    → IsOutside e p q
    → Keeps p q w (recover_quarantined_journal_entry e w).1
unfolding recover_quarantined_journal_entry
recover-Keeps e p q w outside =
    let w' = advance (advance (advance w)) in
    ground (
      arith,
      attempt_lem w,
      attempt_lem (advance w),
      attempt_lem (advance (advance w)),
      recover_seen-Keeps e p q outside w' (live_of e w) (tombstone_of e w) (quarantine_of e w),
    )

-- Syncing directories changes no file.
pub sync-Keeps :
    (e : JournalEntry) (p q : Bytes) (w : World)
    → Keeps p q w (sync_quarantined_journal_parents e w).1
unfolding sync_quarantined_journal_parents
sync-Keeps e p q w =
    ground (arith, attempt_lem w, attempt_lem (advance w), attempt_lem (advance (advance w)))

module _ (e : JournalEntry) (f : FileSnapshot)
    (foreign : bytes_beq f.sha256 e.installed_sha256 ≡ false) (w : World)
    (sees : live_of e w ≡ some f) (tombstone : Option FileSnapshot) where
  recover_new_file-keeps_foreign :
      (quarantine : Option FileSnapshot)
      → live_of e (recover_new_file e (some f) quarantine tombstone w).1 ≡ some f
  unfolding recover_new_file
  recover_new_file-keeps_foreign quarantine = ground arith

  recover_existing_file-keeps_foreign :
      (quarantine : Option FileSnapshot)
      → live_of e (recover_existing_file e (some f) quarantine tombstone w).1 ≡ some f
  unfolding recover_existing_file
  recover_existing_file-keeps_foreign none = ground arith
  recover_existing_file-keeps_foreign (some q) =
      unfold recover_stale_deletion recover_replacement finish_replacement in ground arith

-- If the live file's content is not what the transaction installed, recovery leaves that file
-- where it is, whichever calls fail.
pub recover-keeps_foreign :
    (e : JournalEntry) (f : FileSnapshot) (w : World)
    → live_of e w ≡ some f
    → bytes_beq f.sha256 e.installed_sha256 ≡ false
    → live_of e (recover_quarantined_journal_entry e w).1 ≡ some f
unfolding recover_quarantined_journal_entry
recover-keeps_foreign e f w sees foreign =
    let w' = advance (advance (advance w)) in
    let kept =
      recover_seen-keeps (λ v. live_of e v ≡ some f) e (some f) (quarantine_of e w)
        (tombstone_of e w) w' sees
        (λ _.
          recover_existing_file-keeps_foreign e f foreign w' sees (tombstone_of e w)
            (quarantine_of e w))
        (λ _.
          recover_new_file-keeps_foreign e f foreign w' sees (tombstone_of e w)
            (quarantine_of e w)) in
    ground (arith, attempt_lem w, attempt_lem (advance w), attempt_lem (advance (advance w)), kept)

-- Two journal entries that have no path in common.
pub record IsIndependent (e e' : JournalEntry) : Type 0 where
  pub quarantine_outside : IsOutside e e'.relative_path e'.quarantine_path
  pub tombstone_outside : IsOutside e e'.relative_path e'.tombstone_path
  pub quarantine_outside_sym : IsOutside e' e.relative_path e.quarantine_path
  pub tombstone_outside_sym : IsOutside e' e.relative_path e.tombstone_path

-- No two entries of a journal have a path in common.
abbrev pub AreIndependent : List JournalEntry → Type 0
AreIndependent [] = Unit
AreIndependent (e ∷ es) = All (IsIndependent e) es × AreIndependent es

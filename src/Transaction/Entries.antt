-- ===== src/Transaction/Entries.antt =====
-- The loop of `RecoverInterruptedTransaction` over a journal's entries, interrupted or not.
use docker_vrising.Prelude.{◌≡◌, refl, ◌∙◌, List, [], ◌∷◌, All, All-map}
use docker_vrising.State.{JournalEntry}
use docker_vrising.Disk.{World, ◌>>◌}
use docker_vrising.Disk.Laws.{bind-keeps}
use docker_vrising.Recovery.{recover_quarantined_journal_entry, sync_quarantined_journal_parents}
use docker_vrising.Recovery.States.{
  live_of, quarantine_of, tombstone_of, IsRecoverable, IsRestored, IsWellFormed,
}
use docker_vrising.Recovery.Frame.{Keeps, IsIndependent, AreIndependent, recover-Keeps, sync-Keeps}
use docker_vrising.Recovery.Crash.{recover-IsRecoverable}
use docker_vrising.Transaction.{recover_entries}

-- The three files of an entry are the same in both worlds.
pub record IsSame (e : JournalEntry) (w w' : World) : Type 0 where
  pub live : live_of e w' ≡ live_of e w
  pub quarantine : quarantine_of e w' ≡ quarantine_of e w
  pub tombstone : tombstone_of e w' ≡ tombstone_of e w

module _ (e : JournalEntry) where
  pub IsSame-trans : (u v w : World) → IsSame e u v → IsSame e v w → IsSame e u w
  IsSame-trans u v w a b = record {
    live = b.live ∙ a.live;
    quarantine = b.quarantine ∙ a.quarantine;
    tombstone = b.tombstone ∙ a.tombstone;
  }

  pub IsSame-of_Keeps :
      {w w' : World}
      → Keeps e.relative_path e.quarantine_path w w'
      → Keeps e.relative_path e.tombstone_path w w'
      → IsSame e w w'
  IsSame-of_Keeps q t = record {
    live = q.server_file;
    quarantine = q.state_file;
    tombstone = t.state_file;
  }

  pub IsRecoverable-IsSame : {w w' : World} → IsSame e w w' → IsRecoverable e w → IsRecoverable e w'
  IsRecoverable-IsSame s h = rw (s.live, s.quarantine, s.tombstone) h

  pub IsRestored-IsSame : {w w' : World} → IsSame e w w' → IsRestored e w → IsRestored e w'
  IsRestored-IsSame s h = record {
    live = rw s.live h.live;
    quarantine = s.quarantine ∙ h.quarantine;
    tombstone = s.tombstone ∙ h.tombstone;
  }

  pub sync-IsSame :
      (e' : JournalEntry) (w : World) → IsSame e w (sync_quarantined_journal_parents e' w).1
  sync-IsSame e' w =
      IsSame-of_Keeps (sync-Keeps e' e.relative_path e.quarantine_path w)
        (sync-Keeps e' e.relative_path e.tombstone_path w)

  pub recover-IsSame :
      (e' : JournalEntry) (w : World)
      → IsIndependent e' e
      → IsSame e w (recover_quarantined_journal_entry e' w).1
  recover-IsSame e' w i =
      IsSame-of_Keeps (recover-Keeps e' e.relative_path e.quarantine_path w i.quarantine_outside)
        (recover-Keeps e' e.relative_path e.tombstone_path w i.tombstone_outside)

-- The worlds after the first two steps of the loop.
abbrev pub after_recovery : JournalEntry → World → World
after_recovery e w = (recover_quarantined_journal_entry e w).1

abbrev pub after_sync : JournalEntry → World → World
after_sync e w = (sync_quarantined_journal_parents e (after_recovery e w)).1

-- One round of the loop keeps `P` if each of its parts does.
round-keeps :
    (P : World → Type 0) (e : JournalEntry) (es : List JournalEntry) (w : World)
    → P (after_recovery e w)
    → P (after_sync e w)
    → P (recover_entries es (after_sync e w)).1
    → P (recover_entries (e ∷ es) w).1
unfolding recover_entries
round-keeps P e es w recovered synced rest =
    bind-keeps P (recover_quarantined_journal_entry e)
      (λ _. sync_quarantined_journal_parents e >> recover_entries es) w recovered
      (λ _ _.
        bind-keeps P (sync_quarantined_journal_parents e) (λ _. recover_entries es)
          (after_recovery e w) synced (λ _ _. rest))

pub recover_entries-IsSame :
    (e' : JournalEntry) (es : List JournalEntry) (w : World)
    → All (λ e. IsIndependent e e') es
    → IsSame e' w (recover_entries es w).1
unfolding recover_entries
recover_entries-IsSame e' [] w apart = record { live = refl; quarantine = refl; tombstone = refl }
recover_entries-IsSame e' (e ∷ es) w apart =
    let first = recover-IsSame e' e w apart.0 in
    let second =
      IsSame-trans e' w (after_recovery e w) (after_sync e w) first
        (sync-IsSame e' e (after_recovery e w)) in
    round-keeps (IsSame e' w) e es w first second (
      IsSame-trans e' w (after_sync e w) _ second
        (recover_entries-IsSame e' es (after_sync e w) apart.1))

abbrev pub AllRecoverable : List JournalEntry → World → Type 0
AllRecoverable es w = All (λ e. IsRecoverable e w) es

pub AllRecoverable-first :
    (e : JournalEntry) (es : List JournalEntry) (w w' : World)
    → All (IsIndependent e) es
    → ((e' : JournalEntry) → IsIndependent e e' → IsSame e' w w')
    → AllRecoverable es w
    → AllRecoverable es w'
AllRecoverable-first e [] w w' apart same h = tt
AllRecoverable-first e (e' ∷ es) w w' apart same h =
    (IsRecoverable-IsSame e' (same e' apart.0) h.0, AllRecoverable-first e es w w' apart.1 same h.1)

pub IsIndependent-sym : (e e' : JournalEntry) → IsIndependent e e' → IsIndependent e' e
IsIndependent-sym e e' i = record {
  quarantine_outside = i.quarantine_outside_sym;
  tombstone_outside = i.tombstone_outside_sym;
  quarantine_outside_sym = i.quarantine_outside;
  tombstone_outside_sym = i.tombstone_outside;
}

pub recover_entries-AllRecoverable :
    (es : List JournalEntry) (w : World)
    → All IsWellFormed es
    → AreIndependent es
    → AllRecoverable es w
    → AllRecoverable es (recover_entries es w).1
recover_entries-AllRecoverable [] w wf apart h = tt
recover_entries-AllRecoverable (e ∷ es) w wf apart h =
    let w1 = after_recovery e w in
    let w2 = after_sync e w in
    let here1 = recover-IsRecoverable e w wf.0 h.0 in
    let here2 = IsRecoverable-IsSame e (sync-IsSame e e w1) here1 in
    let rest1 = AllRecoverable-first e es w w1 apart.0 (λ e'. recover-IsSame e' e w) h.1 in
    let rest2 = AllRecoverable-first e es w1 w2 apart.0 (λ e' _. sync-IsSame e' e w1) rest1 in
    round-keeps (AllRecoverable (e ∷ es)) e es w (here1, rest1) (here2, rest2)
      (
        IsRecoverable-IsSame e
            (recover_entries-IsSame e es w2 (All-map (IsIndependent-sym e) es apart.0)) here2,
        recover_entries-AllRecoverable es w2 wf.1 apart.1 rest2,
      )

-- ===== src/Recovery/Config.antt =====
-- What the recovery of the configuration leaves alone.
use docker_vrising.Prelude.{refl, arith, Bytes, ◌&&◌, not, Option, none, some, if◌then◌else◌}
use docker_vrising.State.{JournalEntry}
use docker_vrising.Disk.{
  World, FileSnapshot, ◌>>=◌, server, state, fail, fail_if-keeps, if-keeps, quarantine_changed,
  unexpected_quarantine, snapshot_file_below,
}
use docker_vrising.Recovery.{
  recover_existing_config, recover_known_config, recover_seen_config, recover_config_journal_entry,
  sync_quarantined_journal_parents, exists, has_digest, unexpected,
}
use docker_vrising.Recovery.Frame.{Keeps, IsOutside, sync-Keeps, bind-Keeps, snapshot-Keeps}

module _ (e : JournalEntry) (p q : Bytes) (outside : IsOutside e p q) (w : World) where
  here : Keeps p q w w
  here = record { server_file = refl; state_file = refl; document = refl; package_lock = refl }

  recover_existing_config-Keeps :
      (live quarantine : Option FileSnapshot)
      → Keeps p q w (recover_existing_config e live quarantine w).1
  unfolding recover_existing_config
  recover_existing_config-Keeps none none = ground arith
  recover_existing_config-Keeps (some f) none = sync-Keeps e p q w
  recover_existing_config-Keeps none (some g) = ground arith
  recover_existing_config-Keeps (some f) (some g) = ground arith

  recover_known_config-Keeps :
      (live quarantine : Option FileSnapshot)
      → Keeps p q w (recover_known_config e live quarantine w).1
  unfolding recover_known_config
  recover_known_config-Keeps live quarantine =
      let sync = sync_quarantined_journal_parents e in
      let synced = sync-Keeps e p q w in
      let none_there = if exists quarantine then fail unexpected_quarantine else sync in
      if-keeps (Keeps p q w) (exists live && not (has_digest live e.installed_sha256)) sync
        (if not e.existed then none_there else recover_existing_config e live quarantine) w
        (λ _. synced)
        (λ _.
          if-keeps (Keeps p q w) (not e.existed) none_there
            (recover_existing_config e live quarantine) w
            (λ _.
              if-keeps (Keeps p q w) (exists quarantine) (fail unexpected_quarantine) sync w
                (λ _. here) (λ _. synced))
            (λ _. recover_existing_config-Keeps live quarantine))

  recover_seen_config-Keeps :
      (live quarantine : Option FileSnapshot)
      → Keeps p q w (recover_seen_config e live quarantine w).1
  unfolding recover_seen_config
  recover_seen_config-Keeps live quarantine =
      fail_if-keeps (Keeps p q w) (unexpected quarantine e.existed e.original_sha256)
        quarantine_changed (recover_known_config e live quarantine) w here
        (recover_known_config-Keeps live quarantine)

-- The recovery of the configuration leaves a server path and a state path that are not among its
-- entry's as they were, and the state document and the package lock too.
pub recover_config-Keeps :
    (e : JournalEntry) (p q : Bytes) (w : World)
    → IsOutside e p q
    → Keeps p q w (recover_config_journal_entry e w).1
unfolding recover_config_journal_entry
recover_config-Keeps e p q w outside =
    bind-Keeps p q (snapshot_file_below server e.relative_path)
      (λ live. snapshot_file_below state e.quarantine_path >>= recover_seen_config e live) w
      (snapshot-Keeps p q server e.relative_path w)
      (λ live v.
        bind-Keeps p q (snapshot_file_below state e.quarantine_path) (recover_seen_config e live) v
          (snapshot-Keeps p q state e.quarantine_path v)
          (λ quarantine u. recover_seen_config-Keeps e p q outside u live quarantine))

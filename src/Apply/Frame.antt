-- ===== src/Apply/Frame.antt =====
-- What one round of the mutation loop leaves alone: the files of every other entry.
use docker_vrising.Prelude.{refl, Bool, true, false, Option, none, some, Bytes, arith}
use docker_vrising.State.{JournalEntry}
use docker_vrising.Disk.{
  World, FileSnapshot, server, state, snapshot_file_below, move_file_no_replace, attempt_lem, fail,
  if-keeps, fail_if, stale_replaced, staged_changed, pure,
}
use docker_vrising.Recovery.{exists}
use docker_vrising.Recovery.Frame.{Keeps, IsOutside, bind-Keeps, snapshot-Keeps}
use docker_vrising.Apply.{
  ManagedFile, Change, displace, install, apply_change, quarantine_managed_file, restore_displaced,
  move_out, look, look_back, settle, is_displaced, install_staged, publish_server_file, is_stale,
  overlay_path,
}

module _ (p q : Bytes) where
  module _ (e : JournalEntry) (outside : IsOutside e p q) where
    move_out-Keeps : (w : World) → Keeps p q w (move_out e w).1
    unfolding move_file_no_replace
    move_out-Keeps w = ground arith

    restore_displaced-Keeps : (w : World) → Keeps p q w (restore_displaced e w).1
    unfolding restore_displaced move_file_no_replace
    restore_displaced-Keeps w = ground arith

    Keeps-refl : (w : World) → Keeps p q w w
    Keeps-refl w = record {
      server_file = refl;
      state_file = refl;
      document = refl;
      package_lock = refl;
    }

    displace-Keeps :
        (expected : Option FileSnapshot) (w : World) → Keeps p q w (displace e expected w).1
    unfolding displace quarantine_managed_file
    displace-Keeps none w = Keeps-refl w
    displace-Keeps (some f) w =
        bind-Keeps p q (move_out e) (λ _. look_back e f) w (move_out-Keeps w)
          (λ _ u.
            bind-Keeps p q (look e) (settle e f) u (snapshot-Keeps p q state e.quarantine_path u)
              (λ r v.
                if-keeps (Keeps p q v) (is_displaced f r) (pure tt) (restore_displaced e) v
                  (λ _. Keeps-refl v) (λ _. restore_displaced-Keeps v)))

    publish-Keeps :
        (f : FileSnapshot) (w : World) → Keeps p q w (publish_server_file e.relative_path f w).1
    unfolding publish_server_file
    publish-Keeps f w = ground (arith, attempt_lem w)

    fail_if_last-Keeps : (b : Bool) (v : World) → Keeps p q v (fail_if b stale_replaced v).1
    fail_if_last-Keeps true v = Keeps-refl v
    fail_if_last-Keeps false v = Keeps-refl v

    module _ (root : Bool) (id : Bytes) where
      install_staged-Keeps :
          (next : ManagedFile) (staged : Option FileSnapshot) (w : World)
          → Keeps p q w (install_staged root e.relative_path next staged w).1
      unfolding install_staged
      install_staged-Keeps next none w = Keeps-refl w
      install_staged-Keeps next (some staged) w =
          if-keeps (Keeps p q w) (is_stale root staged next) (fail staged_changed)
            (publish_server_file e.relative_path (record staged { mode = next.mode })) w
            (λ _. Keeps-refl w) (λ _. publish-Keeps (record staged { mode = next.mode }) w)

      install-Keeps :
          (next : Option ManagedFile) (w : World) → Keeps p q w (install root id e next w).1
      unfolding install
      install-Keeps none w =
          bind-Keeps p q (snapshot_file_below server e.relative_path)
            (λ found. fail_if (exists found) stale_replaced) w
            (snapshot-Keeps p q server e.relative_path w)
            (λ found. fail_if_last-Keeps (exists found))
      install-Keeps (some next) w =
          let path = overlay_path id e.relative_path in
          bind-Keeps p q (snapshot_file_below state path) (install_staged root e.relative_path next)
            w (snapshot-Keeps p q state path w) (install_staged-Keeps next)

-- A round of the mutation loop changes the files of its own entry and nothing else.
pub apply_change-Keeps :
    (root : Bool) (id : Bytes) (c : Change) (p q : Bytes) (w : World)
    → IsOutside c.entry p q
    → Keeps p q w (apply_change root id c w).1
unfolding apply_change
apply_change-Keeps root id c p q w outside =
    bind-Keeps p q (displace c.entry c.expected) (λ _. install root id c.entry c.next) w
      (displace-Keeps p q c.entry outside c.expected w)
      (λ _ v. install-Keeps p q c.entry outside root id c.next v)

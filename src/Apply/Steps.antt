-- ===== src/Apply/Steps.antt =====
-- One round of the mutation loop, interrupted or not: the entry is recoverable afterwards.
use docker_vrising.Prelude.{
  ◌≡◌, Bool, true, false, Option, none, some, Bytes, bytes_beq, bytes_beq_refl, arith, Option-cases,
  inl, inr,
}
use docker_vrising.Prelude.Result.{ok}
use docker_vrising.State.{JournalEntry}
use docker_vrising.Disk.{
  World, FileSnapshot, fail, server, state, snapshot_file_below, attempt_lem, if-keeps, Tree,
  fail_if, stale_replaced, staged_changed,
}
use docker_vrising.Disk.Laws.{bind-keeps}
use docker_vrising.Recovery.{exists}
use docker_vrising.Recovery.States.{
  IsWellFormed, IsRecoverable, recoverable_existing, recoverable_new,
}
use docker_vrising.Apply.{
  ManagedFile, Change, displace, install, apply_change, digest_of, installed_digest, install_staged,
  overlay_path, publish_server_file, is_stale,
}
use docker_vrising.Apply.Displaced.{
  is_named, IsPlanned, IsDisplaced, change, quarantine-IsRecoverable, quarantine-IsDisplaced,
}

module _ (root : Bool) (id : Bytes) (e : JournalEntry) (expected : Option FileSnapshot) where
  -- The digests of the entry, without the disk.
  record Agrees (next : Option ManagedFile) : Type 0 where
    existed : e.existed ≡ exists expected
    original : e.original_sha256 ≡ digest_of expected
    installed : e.installed_sha256 ≡ installed_digest next
    named : is_named next ≡ true

  displaced-IsRecoverable :
      (next : Option ManagedFile) (w : World)
      → Agrees next
      → IsDisplaced (change e expected next) w
      → IsRecoverable e w
  unfolding recoverable_existing recoverable_new
  displaced-IsRecoverable next w a d = elim (Option-cases expected) [
    | inl e0 ↦ ground arith
    | inr (f, e1) ↦ ground (arith, bytes_beq_refl f.sha256)
  ]

  module _ (next : ManagedFile) (w : World) (a : Agrees (some next))
      (d : IsDisplaced (change e expected (some next)) w) where
    publish-IsRecoverable :
        (f : FileSnapshot)
        → bytes_beq f.sha256 next.sha256 ≡ true
        → IsRecoverable e (publish_server_file e.relative_path f w).1
    unfolding publish_server_file recoverable_existing recoverable_new
    publish-IsRecoverable f same = elim (Option-cases expected) [
      | inl e0 ↦ ground (arith, bytes_beq_refl e.relative_path, attempt_lem w)
      | inr (g, e1) ↦
          ground (arith, bytes_beq_refl g.sha256, bytes_beq_refl e.relative_path, attempt_lem w)
    ]

    is_stale-sha256 :
        (staged : FileSnapshot)
        → is_stale root staged next ≡ false
        → bytes_beq staged.sha256 next.sha256 ≡ true
    is_stale-sha256 staged h = ground arith

    install_staged-IsRecoverable :
        (staged : Option FileSnapshot)
        → IsRecoverable e (install_staged root e.relative_path next staged w).1
    unfolding install_staged
    install_staged-IsRecoverable none = displaced-IsRecoverable (some next) w a d
    install_staged-IsRecoverable (some staged) =
        if-keeps (IsRecoverable e) (is_stale root staged next) (fail staged_changed)
          (publish_server_file e.relative_path (record staged { mode = next.mode })) w
          (λ _. displaced-IsRecoverable (some next) w a d)
          (λ fresh.
            publish-IsRecoverable (record staged { mode = next.mode })
              (is_stale-sha256 staged fresh))

  look-IsDisplaced_at :
      (next : Option ManagedFile) (t : Tree) (path : Bytes) (w : World)
      → IsDisplaced (change e expected next) w
      → IsDisplaced (change e expected next) (snapshot_file_below t path w).1
  unfolding snapshot_file_below
  look-IsDisplaced_at next t path w d = ground (arith, attempt_lem w)

  fail_if_last-keeps :
      (P : World → Type 0) (b : Bool) (v : World) → P v → P (fail_if b stale_replaced v).1
  fail_if_last-keeps P true v h = h
  fail_if_last-keeps P false v h = h

  install-IsRecoverable :
      (next : Option ManagedFile) (w : World)
      → Agrees next
      → IsDisplaced (change e expected next) w
      → IsRecoverable e (install root id e next w).1
  unfolding install
  install-IsRecoverable none w a d =
      let looked =
        displaced-IsRecoverable none _ a (look-IsDisplaced_at none server e.relative_path w d) in
      bind-keeps (IsRecoverable e) (snapshot_file_below server e.relative_path)
        (λ found. fail_if (exists found) stale_replaced) w looked
        (λ found _.
          fail_if_last-keeps (IsRecoverable e) (exists found)
            (snapshot_file_below server e.relative_path w).1 looked)
  install-IsRecoverable (some next) w a d =
      let path = overlay_path id e.relative_path in
      let looked = look-IsDisplaced_at (some next) state path w d in
      bind-keeps (IsRecoverable e) (snapshot_file_below state path)
        (install_staged root e.relative_path next) w
        (displaced-IsRecoverable (some next) _ a looked)
        (λ staged _. install_staged-IsRecoverable next _ a looked staged)

displace-IsRecoverable :
    (e : JournalEntry) (expected : Option FileSnapshot) (next : Option ManagedFile) (w : World)
    → IsWellFormed e
    → IsPlanned (change e expected next) w
    → IsRecoverable e (displace e expected w).1
unfolding displace recoverable_new
displace-IsRecoverable e none next w wf p = ground arith
displace-IsRecoverable e (some f) next w wf p = quarantine-IsRecoverable e wf next f w p

displace-IsDisplaced :
    (e : JournalEntry) (expected : Option FileSnapshot) (next : Option ManagedFile) (w : World)
    → IsWellFormed e
    → IsPlanned (change e expected next) w
    → (displace e expected w).0 ≡ ok tt
    → IsDisplaced (change e expected next) (displace e expected w).1
unfolding displace
displace-IsDisplaced e none next w wf p h = record {
  live = p.live;
  quarantine = p.quarantine;
  tombstone = p.tombstone;
}
displace-IsDisplaced e (some f) next w wf p h = quarantine-IsDisplaced e wf next f w p h

IsPlanned-Agrees :
    (root : Bool) (id : Bytes) (c : Change) (w : World)
    → IsPlanned c w
    → Agrees root id c.entry c.expected c.next
IsPlanned-Agrees root id c w p = record {
  existed = p.existed;
  original = p.original;
  installed = p.installed;
  named = p.named;
}

-- Wherever one round of the mutation loop stops, its entry can be recovered, if the entry is well
-- formed, describes the change, and the disk was as inspected when the round began.
pub apply_change-IsRecoverable :
    (root : Bool) (id : Bytes) (c : Change) (w : World)
    → IsWellFormed c.entry
    → IsPlanned c w
    → IsRecoverable c.entry (apply_change root id c w).1
unfolding apply_change
apply_change-IsRecoverable root id c w wf p =
    let agrees = IsPlanned-Agrees root id c w p in
    bind-keeps (IsRecoverable c.entry) (displace c.entry c.expected)
      (λ _. install root id c.entry c.next) w
      (displace-IsRecoverable c.entry c.expected c.next w wf p)
      (λ u h.
        install-IsRecoverable root id c.entry c.expected c.next _ agrees
          (displace-IsDisplaced c.entry c.expected c.next w wf p h))

-- Before its round, too.
pub IsPlanned-IsRecoverable : (c : Change) (w : World) → IsPlanned c w → IsRecoverable c.entry w
IsPlanned-IsRecoverable c w p = elim (Option-cases c.expected) [
  | inl e0 ↦ unfold recoverable_existing recoverable_new in ground arith
  | inr (f, e1) ↦
      unfold recoverable_existing recoverable_new in ground (arith, bytes_beq_refl f.sha256)
]

-- ===== src/Journal/Accepted.antt =====
-- A journal that the check accepts is one that recovery can work with: each entry is well formed,
-- and no two entries name the same live path or the same artifact.
use docker_vrising.Prelude.{
  ℕ, suc, ◌≡◌, ap, Bool, false, inl, inr, Option, none, some, List, [], ◌∷◌, All, Bytes, bytes_beq,
  bytes_beq_iff, Bool-cases, arith, All-map, subst,
}
use docker_vrising.Prelude.Result.{ok, >>=-eq-ok}
use docker_vrising.Path.{AbsolutePath, join}
use docker_vrising.State.{JournalEntry, GenerationRecord, TransactionJournal, State}
use docker_vrising.Recovery.States.{IsWellFormed}
use docker_vrising.Recovery.Frame.{IsIndependent, AreIndependent}
use docker_vrising.Journal.{
  validate_transaction_state, validate_journal, transaction_of, check_candidate, no_paths,
  SeenPaths, contains, parent, path_beq, path_beq_iff, check_live_path, check_digests,
  check_artifact, validate_entry, validate_entries, check_artifact_names, check_config_path,
}

beq_false_sym : (a b : Bytes) → bytes_beq a b ≡ false → bytes_beq b a ≡ false
beq_false_sym a b h = ground (arith, bytes_beq_iff a b, bytes_beq_iff b a)

-- Different absolute paths come from different relative ones.
join_differ :
    (root : AbsolutePath) (a b : Bytes)
    → path_beq (join root a) (join root b) ≡ false
    → bytes_beq a b ≡ false
join_differ root a b h = elim (Bool-cases (bytes_beq a b)) [
  | inl same ↦ cc (
    h,
    (path_beq_iff (join root a) (join root b)).1 (ap (join root) ((bytes_beq_iff a b).0 same)),
  )
  | inr differ ↦ differ
]

module _ (state_dir : AbsolutePath) where
  abbrev live_path_of : JournalEntry → AbsolutePath
  live_path_of e = join (parent state_dir) e.relative_path

  -- No earlier entry has claimed a path of this one.
  pub record IsFresh (seen : SeenPaths) (e : JournalEntry) : Type 0 where
    pub live : contains seen.live (live_path_of e) ≡ false
    pub quarantine : contains seen.artifacts (join state_dir e.quarantine_path) ≡ false
    pub tombstone : contains seen.artifacts (join state_dir e.tombstone_path) ≡ false

  abbrev pub claim : JournalEntry → SeenPaths → SeenPaths
  claim e seen = record {
    live = live_path_of e ∷ seen.live;
    artifacts = join state_dir e.tombstone_path ∷ join state_dir e.quarantine_path ∷ seen.artifacts;
  }

  pub record IsAccepted (seen seen' : SeenPaths) (e : JournalEntry) : Type 0 where
    pub well_formed : IsWellFormed e
    pub fresh : IsFresh seen e
    pub claimed : seen' ≡ claim e seen

  record ArtifactClaim (seen : SeenPaths) (path : Bytes) (seen' : SeenPaths) : Type 0 where
    unseen : contains seen.artifacts (join state_dir path) ≡ false
    then_seen : seen' ≡ record seen { artifacts = join state_dir path ∷ seen.artifacts }

  check_artifact-ArtifactClaim :
      (path : Bytes) (seen : SeenPaths) {seen' : SeenPaths}
      → check_artifact state_dir path seen ≡ ok seen'
      → ArtifactClaim seen path seen'
  unfolding check_artifact
  check_artifact-ArtifactClaim path seen h = ground arith

  record LiveClaim (seen : SeenPaths) (e : JournalEntry) (seen' : SeenPaths) : Type 0 where
    unseen : contains seen.live (live_path_of e) ≡ false
    then_seen : seen' ≡ record seen { live = live_path_of e ∷ seen.live }

  check_live_path-LiveClaim :
      (e : JournalEntry) (seen : SeenPaths) {seen' : SeenPaths}
      → check_live_path state_dir e seen ≡ ok seen'
      → LiveClaim seen e seen'
  unfolding check_live_path
  check_live_path-LiveClaim e seen h = ground arith

record DigestsAgree (e : JournalEntry) : Type 0 where
  tombstone_is_installed : e.tombstone_sha256 ≡ e.installed_sha256
  new_is_installed : e.existed ≡ false → bytes_beq e.installed_sha256 [] ≡ false

check_digests-DigestsAgree :
    (e : JournalEntry) (config : Bool) → check_digests e config ≡ ok tt → DigestsAgree e
unfolding check_digests
check_digests-DigestsAgree e config h =
    ground (arith, bytes_beq_iff e.tombstone_sha256 e.installed_sha256)

module _ (state_dir : AbsolutePath) where
  IsWellFormed-of_digests :
      (e : JournalEntry) (seen : SeenPaths)
      → DigestsAgree e
      → contains
          (join state_dir e.quarantine_path ∷ seen.artifacts)
          (join state_dir e.tombstone_path)
        ≡ false
      → IsWellFormed e
  IsWellFormed-of_digests e seen d fresh =
      let differ : bytes_beq e.quarantine_path e.tombstone_path ≡ false =
        join_differ state_dir e.quarantine_path e.tombstone_path (ground arith) in
      record {
        artifacts_differ = differ;
        artifacts_differ_sym = beq_false_sym e.quarantine_path e.tombstone_path differ;
        tombstone_is_installed = d.tombstone_is_installed;
        new_is_installed = d.new_is_installed;
      }

  pub validate_entry-IsAccepted :
      (id : Bytes) (e : JournalEntry) (index : ℕ) (config : Bool) (seen : SeenPaths)
      {seen' : SeenPaths}
      → validate_entry state_dir id e index config seen ≡ ok seen'
      → IsAccepted state_dir seen seen' e
  unfolding validate_entry
  validate_entry-IsAccepted id e index config seen h =
      let (a, live_ok, after_live) = >>=-eq-ok (check_live_path state_dir e seen) _ h in
      let (_, digests_ok, after_digests) = >>=-eq-ok (check_digests e config) _ after_live in
      let (_, _, after_names) = >>=-eq-ok (check_artifact_names id e index) _ after_digests in
      let (b, quarantine_ok, after_quarantine) =
        >>=-eq-ok (check_artifact state_dir e.quarantine_path a) _ after_names in
      let (c, tombstone_ok, after_tombstone) =
        >>=-eq-ok (check_artifact state_dir e.tombstone_path b) _ after_quarantine in
      let (_, _, finally) = >>=-eq-ok (check_config_path e config) _ after_tombstone in
      let l = check_live_path-LiveClaim state_dir e seen live_ok in
      let q = check_artifact-ArtifactClaim state_dir e.quarantine_path a quarantine_ok in
      let t = check_artifact-ArtifactClaim state_dir e.tombstone_path b tombstone_ok in
      let d = check_digests-DigestsAgree e config digests_ok in
      record {
        well_formed = IsWellFormed-of_digests e a d (ground (arith, t.unseen, q.then_seen));
        fresh = record {
          live = l.unseen;
          quarantine = ground (arith, q.unseen, l.then_seen);
          tombstone = ground (arith, t.unseen, q.then_seen, l.then_seen);
        };
        claimed = cc (finally, t.then_seen, q.then_seen, l.then_seen);
      }

  -- What is fresh after an entry's claim was fresh before it, and has no path in common with the entry.
  pub IsFresh-IsIndependent :
      (seen : SeenPaths) (e e' : JournalEntry)
      → IsFresh state_dir (claim state_dir e seen) e'
      → IsFresh state_dir seen e' × IsIndependent e e'
  IsFresh-IsIndependent seen e e' f =
      let live =
        join_differ (parent state_dir) e.relative_path e'.relative_path (ground (arith, f.live)) in
      let qq =
        join_differ state_dir e.quarantine_path e'.quarantine_path (ground (arith, f.quarantine)) in
      let tq =
        join_differ state_dir e.tombstone_path e'.quarantine_path (ground (arith, f.quarantine)) in
      let qt =
        join_differ state_dir e.quarantine_path e'.tombstone_path (ground (arith, f.tombstone)) in
      let tt' =
        join_differ state_dir e.tombstone_path e'.tombstone_path (ground (arith, f.tombstone)) in
      let live' = beq_false_sym e.relative_path e'.relative_path live in
      (
        record {
          live = ground (arith, f.live);
          quarantine = ground (arith, f.quarantine);
          tombstone = ground (arith, f.tombstone);
        },
        record {
          quarantine_outside = record { live = live; quarantine = qq; tombstone = tq };
          tombstone_outside = record { live = live; quarantine = qt; tombstone = tt' };
          quarantine_outside_sym = record {
            live = live';
            quarantine = beq_false_sym e.quarantine_path e'.quarantine_path qq;
            tombstone = beq_false_sym e.quarantine_path e'.tombstone_path qt;
          };
          tombstone_outside_sym = record {
            live = live';
            quarantine = beq_false_sym e.tombstone_path e'.quarantine_path tq;
            tombstone = beq_false_sym e.tombstone_path e'.tombstone_path tt';
          };
        },
      )

  -- The entries are well formed and pairwise independent, and fresh in what was seen before them.
  record AreAccepted (seen : SeenPaths) (entries : List JournalEntry) : Type 0 where
    well_formed : All IsWellFormed entries
    independent : AreIndependent entries
    fresh : All (IsFresh state_dir seen) entries

  AreAccepted-cons :
      (e : JournalEntry) (seen seen' : SeenPaths) (entries : List JournalEntry)
      → IsAccepted state_dir seen seen' e
      → AreAccepted seen' entries
      → AreAccepted seen (e ∷ entries)
  AreAccepted-cons e seen seen' entries a rest =
      let fresh = subst (λ s. All (IsFresh state_dir s) entries) a.claimed rest.fresh in
      record {
        well_formed = (a.well_formed, rest.well_formed);
        independent = (
          All-map (λ e' f. (IsFresh-IsIndependent seen e e' f).1) entries fresh,
          rest.independent,
        );
        fresh = (a.fresh, All-map (λ e' f. (IsFresh-IsIndependent seen e e' f).0) entries fresh);
      }

  validate_entries-AreAccepted :
      (id : Bytes) (entries : List JournalEntry) (index : ℕ) (seen : SeenPaths) {seen' : SeenPaths}
      → validate_entries state_dir id entries index seen ≡ ok seen'
      → AreAccepted seen entries
  unfolding validate_entries
  validate_entries-AreAccepted id [] index seen h = record {
    well_formed = tt;
    independent = tt;
    fresh = tt;
  }
  validate_entries-AreAccepted id (e ∷ entries) index seen h =
      let (a, entry_ok, rest) = >>=-eq-ok (validate_entry state_dir id e index false seen) _ h in
      AreAccepted-cons e seen a entries (validate_entry-IsAccepted id e index false seen entry_ok)
        (validate_entries-AreAccepted id entries (suc index) a rest)

-- The journal of a state that the check accepts: recovery can work with its entries.
pub record IsJournal (entries : List JournalEntry) : Type 0 where
  pub well_formed : All IsWellFormed entries
  pub independent : AreIndependent entries

validate_journal-IsJournal :
    (state_dir : AbsolutePath) (candidate : GenerationRecord) (journal : TransactionJournal)
    → validate_journal state_dir candidate journal ≡ ok tt
    → IsJournal journal.entries
unfolding validate_journal
validate_journal-IsJournal state_dir candidate journal h =
    let (_, _, rest) = >>=-eq-ok (check_candidate candidate journal) _ h in
    let (_, entries_ok, _) =
      >>=-eq-ok (validate_entries state_dir candidate.id journal.entries 0 no_paths) _ rest in
    let a =
      validate_entries-AreAccepted state_dir candidate.id journal.entries 0 no_paths entries_ok in
    record { well_formed = a.well_formed; independent = a.independent }

transaction_of-IsJournal :
    (state_dir : AbsolutePath) (t : Option TransactionJournal) (c : Option GenerationRecord)
    (journal : TransactionJournal)
    → t ≡ some journal
    → transaction_of state_dir t c ≡ ok tt
    → IsJournal journal.entries
transaction_of-IsJournal state_dir none c journal present h = cc
transaction_of-IsJournal state_dir (some j) none journal present h = cc
transaction_of-IsJournal state_dir (some j) (some c) journal present h =
    let same : j ≡ journal = cc in
    subst (λ k. IsJournal k.entries) same (validate_journal-IsJournal state_dir c j h)

-- A state that the check accepts, and that has a journal, has one whose entries are well formed
-- and pairwise share no path.
pub validate-IsJournal :
    (s : State) (state_dir : AbsolutePath) (journal : TransactionJournal)
    → s.transaction ≡ some journal
    → validate_transaction_state s state_dir ≡ ok tt
    → IsJournal journal.entries
unfolding validate_transaction_state
validate-IsJournal s state_dir journal present h =
    transaction_of-IsJournal state_dir s.transaction s.candidate journal present h

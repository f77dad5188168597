-- ===== src/Transaction/Records.antt =====
-- What the calls of the store do to the state document and the package lock.
use docker_vrising.Prelude.{
  ◌≡◌, refl, ◌∙◌, inl, inr, ◌⊎◌, not, ◌==◌, nat_eq, bytes_eq, Bool-cases, subst, sym, Bool, true,
  false, Option, none, some, List, [], ◌∷◌, arith, Bytes,
}
use docker_vrising.Prelude.Result.{Result, ok, err}
use docker_vrising.Path.{AbsolutePath}
use docker_vrising.State.{State, JournalEntry, TransactionJournal, schema_version}
use docker_vrising.Journal.{JournalError, validate_transaction_state}
use docker_vrising.Disk.{
  World, Disk, Fault, ◌>>=◌, ◌>>◌, pure, attempt, attempt_lem, fail_if, snapshot_file_below,
  load_document, save_document, Tree, state, fail_if-keeps, unsupported_schema, unexpected_artifact,
  is_faulty,
}
use docker_vrising.Disk.Laws.{bind-keeps, bind-Ran}
use docker_vrising.Recovery.{unexpected}
use docker_vrising.Transaction.{
  accept, check_state, load, save, inspect_artifact, inspect_entries, inspect_journal,
  transaction_artifacts,
}

-- Both are as they were.
pub record IsSaved (w w' : World) : Type 0 where
  pub document : w'.document ≡ w.document
  pub package_lock : w'.package_lock ≡ w.package_lock

pub IsSaved-refl : (w : World) → IsSaved w w
IsSaved-refl w = record { document = refl; package_lock = refl }

pub IsSaved-trans : (u v w : World) → IsSaved u v → IsSaved v w → IsSaved u w
IsSaved-trans u v w a b = record {
  document = b.document ∙ a.document;
  package_lock = b.package_lock ∙ a.package_lock;
}

pub bind-IsSaved :
    {A B : Type 0} (m : Disk A) (f : A → Disk B) (w : World)
    → IsSaved w (m w).1
    → ((a : A) (v : World) → IsSaved v (f a v).1)
    → IsSaved w ((m >>= f) w).1
bind-IsSaved m f w first rest =
    bind-keeps (IsSaved w) m f w first
      (λ a _. IsSaved-trans w (m w).1 (f a (m w).1).1 first (rest a (m w).1))

-- The state tree is as it was, too: nothing but the outcomes of the calls to come is another.
pub record IsRead (w w' : World) : Type 0 where
  pub document : w'.document ≡ w.document
  pub package_lock : w'.package_lock ≡ w.package_lock
  pub state_files : w'.state_files ≡ w.state_files

pub IsRead-IsSaved : (w w' : World) → IsRead w w' → IsSaved w w'
IsRead-IsSaved w w' r = record { document = r.document; package_lock = r.package_lock }

pub IsRead-refl : (w : World) → IsRead w w
IsRead-refl w = record { document = refl; package_lock = refl; state_files = refl }

pub IsRead-trans : (u v w : World) → IsRead u v → IsRead v w → IsRead u w
IsRead-trans u v w a b = record {
  document = b.document ∙ a.document;
  package_lock = b.package_lock ∙ a.package_lock;
  state_files = b.state_files ∙ a.state_files;
}

pub bind-IsRead :
    {A B : Type 0} (m : Disk A) (f : A → Disk B) (w : World)
    → IsRead w (m w).1
    → ((a : A) (v : World) → IsRead v (f a v).1)
    → IsRead w ((m >>= f) w).1
bind-IsRead m f w first rest =
    bind-keeps (IsRead w) m f w first
      (λ a _. IsRead-trans w (m w).1 (f a (m w).1).1 first (rest a (m w).1))

pub attempt-IsRead : (w : World) → IsRead w (attempt w).1
attempt-IsRead w = ground (arith, attempt_lem w)

accept-IsRead : (r : Result JournalError (Unit {0})) (w : World) → IsRead w (accept r w).1
accept-IsRead (ok _) w = IsRead-refl w
accept-IsRead (err _) w = IsRead-refl w

snapshot-IsRead : (t : Tree) (path : Bytes) (w : World) → IsRead w (snapshot_file_below t path w).1
unfolding snapshot_file_below
snapshot-IsRead t path w = ground (arith, attempt_lem w)

check_state-IsRead : (d : AbsolutePath) (s : State) (w : World) → IsRead w (check_state d s w).1
unfolding check_state
check_state-IsRead d s w =
    fail_if-keeps (IsRead w) (not (s.schema_version == schema_version)) unsupported_schema
      (accept (validate_transaction_state s d)) w (IsRead-refl w)
      (accept-IsRead (validate_transaction_state s d) w)

pub load-IsRead : (d : AbsolutePath) (w : World) → IsRead w (load d w).1
unfolding load load_document
load-IsRead d w = bind-IsRead load_document _ w (ground (arith, attempt_lem w)) (λ s v.
    bind-IsRead (check_state d s) (λ _. pure s) v (check_state-IsRead d s v) (λ _. IsRead-refl))

inspect_artifact-IsRead :
    (path digest : Bytes) (w : World) → IsRead w (inspect_artifact path digest w).1
unfolding inspect_artifact
inspect_artifact-IsRead path digest w =
    bind-IsRead (snapshot_file_below state path) _ w (snapshot-IsRead state path w) (λ f v.
      fail_if-keeps (IsRead v) (unexpected f (not (digest == [])) digest) unexpected_artifact
        (pure (record { path = path; snapshot = f })) v (IsRead-refl v) (IsRead-refl v))

inspect_entries-IsRead : (es : List JournalEntry) (w : World) → IsRead w (inspect_entries es w).1
unfolding inspect_entries
inspect_entries-IsRead [] w = IsRead-refl w
inspect_entries-IsRead (e ∷ es) w = bind-IsRead attempt _ w (attempt-IsRead w) (λ _ u.
    bind-IsRead (inspect_artifact e.quarantine_path e.original_sha256) _ u
      (inspect_artifact-IsRead _ _ u)
      (λ q v.
        bind-IsRead (inspect_artifact e.tombstone_path e.tombstone_sha256) _ v
          (inspect_artifact-IsRead _ _ v)
          (λ t x.
            bind-IsRead (inspect_entries es) _ x (inspect_entries-IsRead es x) (λ _. IsRead-refl))))

inspect_journal-IsRead :
    (t : Option TransactionJournal) (w : World) → IsRead w (inspect_journal t w).1
inspect_journal-IsRead none w = IsRead-refl w
inspect_journal-IsRead (some j) w = inspect_entries-IsRead _ w

pub transaction_artifacts-IsRead :
    (d : AbsolutePath) (s : State) (w : World) → IsRead w (transaction_artifacts d s w).1
unfolding transaction_artifacts
transaction_artifacts-IsRead d s w =
    bind-IsRead (accept (validate_transaction_state s d)) (λ _. inspect_journal s.transaction) w
      (accept-IsRead (validate_transaction_state s d) w) (λ _. inspect_journal-IsRead s.transaction)

load_document-ok :
    (s0 : State) (w : World) {s : State}
    → w.document ≡ some s0
    → (load_document w).0 ≡ ok s
    → s ≡ s0
unfolding load_document
load_document-ok s0 w there h = ground (arith, attempt_lem w)

-- A load that returns no error returns the document.
pub load-ok :
    (d : AbsolutePath) (s0 : State) (w : World) {s : State}
    → w.document ≡ some s0
    → (load d w).0 ≡ ok s
    → s ≡ s0
unfolding load
load-ok d s0 w there h =
    let r = bind-Ran load_document (λ s. check_state d s >> pure s) w h in
    let q = bind-Ran (check_state d r.value) (λ _. pure r.value) (load_document w).1 r.second in
    cc (load_document-ok s0 w there r.first, q.second)

-- The document alone is written, or nothing.
pub record IsWritten (s : State) (w w' : World) : Type 0 where
  pub document : w'.document ≡ some s
  pub package_lock : w'.package_lock ≡ w.package_lock
  pub state_files : w'.state_files ≡ w.state_files

-- The possible documents after a save.
abbrev pub Saves : State → World → World → Type 0
Saves s w w' = IsRead w w' ⊎ IsWritten s w w'

save_document-Saves : (s : State) (w : World) → Saves s w (save_document s w).1
unfolding save_document
save_document-Saves s w = elim (Bool-cases (is_faulty w.faults)) [
  | inl failed ↦ inl (ground (arith, attempt_lem w))
  | inr quiet ↦ inr (ground (arith, attempt_lem w))
]

save_document-ok :
    (s : State) (w : World) → (save_document s w).0 ≡ ok tt → IsWritten s w (save_document s w).1
unfolding save_document
save_document-ok s w h = ground (arith, attempt_lem w)

IsRead-IsWritten : (s : State) (u v w : World) → IsRead u v → IsWritten s v w → IsWritten s u w
IsRead-IsWritten s u v w a b = record {
  document = b.document;
  package_lock = b.package_lock ∙ a.package_lock;
  state_files = b.state_files ∙ a.state_files;
}

IsRead-Saves : (s : State) (u v w : World) → IsRead u v → Saves s v w → Saves s u w
IsRead-Saves s u v w a (inl b) = inl (IsRead-trans u v w a b)
IsRead-Saves s u v w a (inr b) = inr (IsRead-IsWritten s u v w a b)

-- Whatever calls fail, a save leaves the old document or the new one.
pub save-Saves : (d : AbsolutePath) (s : State) (w : World) → Saves s w (save d s w).1
unfolding save
save-Saves d s w =
    let kept = check_state-IsRead d s w in
    let v = (check_state d s w).1 in
    bind-keeps (Saves s w) (check_state d s) (λ _. save_document s) w (inl kept)
      (λ _ _. IsRead-Saves s w v (save_document s v).1 kept (save_document-Saves s v))

-- A save that returns no error leaves the new one.
pub save-ok :
    (d : AbsolutePath) (s : State) (w : World)
    → (save d s w).0 ≡ ok tt
    → IsWritten s w (save d s w).1
unfolding save
save-ok d s w h =
    let r = bind-Ran (check_state d s) (λ _. save_document s) w h in
    let v = (check_state d s w).1 in
    subst (IsWritten s w) (sym r.world) (
      IsRead-IsWritten s w v (save_document s v).1 (check_state-IsRead d s w)
        (save_document-ok s v r.second))

pub load-IsSaved : (d : AbsolutePath) (w : World) → IsSaved w (load d w).1
load-IsSaved d w = IsRead-IsSaved w _ (load-IsRead d w)

pub transaction_artifacts-IsSaved :
    (d : AbsolutePath) (s : State) (w : World) → IsSaved w (transaction_artifacts d s w).1
transaction_artifacts-IsSaved d s w = IsRead-IsSaved w _ (transaction_artifacts-IsRead d s w)

pub fail_if-IsSaved : (b : Bool) (x : Fault) (w : World) → IsSaved w (fail_if b x w).1
fail_if-IsSaved true x w = IsSaved-refl w
fail_if-IsSaved false x w = IsSaved-refl w

pub attempt-IsSaved : (w : World) → IsSaved w (attempt w).1
attempt-IsSaved w = IsRead-IsSaved w _ (attempt-IsRead w)

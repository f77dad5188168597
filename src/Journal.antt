-- ===== src/Journal.antt =====
-- state.go: `validateTransactionState`, which guards every load and save of `state.json`, and the
-- canonical names of a transaction's artifacts. `stateDir` is the list of its components.
pub mod Accepted
pub mod Config
pub mod Example
mod Tests
use docker_vrising.Prelude.{
  ℕ, zero, suc, ◌+◌, ◌/◌, ◌%◌, Bool, true, false, ◌&&◌, ◌||◌, not, Option, none, some, List, [],
  ◌∷◌, ◌++◌, length, any, all, ◌==◌, leb, ltb, Comparable, refl, nat_eq, bytes_eq, bytes_beq,
  bytes_beq_iff, Bytes, codes, if◌then◌else◌, ◌↔◌, ◌≡◌, arith,
}
use docker_vrising.Prelude.Result.{Result, ok, err, ◌>>=◌, ◌>>◌, guard}
use docker_vrising.Path.{AbsolutePath, join, relative_path_parts}
use docker_vrising.State.{JournalEntry, TransactionJournal, GenerationRecord, State}

pub data JournalError : Type 0 where
  candidate_without_journal generation_mismatch bad_candidate_status bad_phase : JournalError
  bad_candidate_id live_path_invalid live_path_reserved duplicate_live_path : JournalError
  bad_original_sha256 new_path_has_original installed_sha256_missing bad_installed_sha256 :
      JournalError
  tombstone_mismatch artifacts_not_canonical duplicate_artifact bad_config_path : JournalError
  live_path_is_artifact : JournalError

abbrev is_hex_digit : ℕ → Bool
is_hex_digit c =
    (leb b'0' c && leb c b'9') || ((leb b'a' c && leb c b'f') || (leb b'A' c && leb c b'F'))

-- `hex.DecodeString` succeeds and gives 32 bytes.
unfoldable pub valid_sha256 : Bytes → Bool
valid_sha256 value = length value == 64 && all is_hex_digit value

-- The decimal digits of a number, most significant first; `fuel` above the number is enough.
unfoldable pub decimal : ℕ → ℕ → Bytes → Bytes
decimal zero n rest = rest
decimal (suc fuel) n rest =
    let more = decimal fuel (n / 10) ((b'0' + n % 10) ∷ rest) in
    if ltb n 10 then (b'0' + n) ∷ rest else more

-- `%04d`
unfoldable pub padded : ℕ → Bytes
unfolding decimal
padded n =
    if ltb n 10
    then codes "000" ++ decimal (suc n) n []
    else if ltb n 100
    then codes "00" ++ decimal (suc n) n []
    else if ltb n 1000
    then codes "0" ++ decimal (suc n) n []
    else decimal (suc n) n []

abbrev artifact_base : Bytes → ℕ → Bytes
artifact_base candidate_id index =
    codes "generations/" ++ (candidate_id ++ (codes "/rollback/quarantine/" ++ padded index))

-- `canonicalTransactionArtifactPaths`
unfoldable pub canonical_quarantine_path : Bytes → ℕ → Bytes
unfolding padded
canonical_quarantine_path candidate_id index =
    artifact_base candidate_id index ++ codes ".displaced"

unfoldable pub canonical_tombstone_path : Bytes → ℕ → Bytes
unfolding padded
canonical_tombstone_path candidate_id index = artifact_base candidate_id index ++ codes ".tombstone"

pub path_beq : AbsolutePath → AbsolutePath → Bool
path_beq [] [] = true
path_beq (a ∷ as') (b ∷ bs) = a == b && path_beq as' bs
path_beq _ _ = false

pub path_beq_iff : (a b : AbsolutePath) → (path_beq a b ≡ true) ↔ (a ≡ b)
unfolding path_beq
path_beq_iff (a ∷ as') (b ∷ bs) = ground (arith, bytes_beq_iff a b, path_beq_iff as' bs)
path_beq_iff _ _ = ground arith

instance abbrev pub path_eq : Comparable AbsolutePath
path_eq = record {
  equal = path_beq;
  sound = λ x y. (path_beq_iff x y).0;
  reflexive = λ x. (path_beq_iff x x).1 refl;
}

abbrev pub contains : List AbsolutePath → AbsolutePath → Bool
contains paths p = any (λ q. q == p) paths

-- `strings.HasPrefix(path, dir+"/")` or equality, for clean paths.
is_at_or_below : AbsolutePath → AbsolutePath → Bool
is_at_or_below [] path = true
is_at_or_below (d ∷ dir) [] = false
is_at_or_below (d ∷ dir) (p ∷ path) = d == p && is_at_or_below dir path

-- `filepath.Dir`
unfoldable pub parent : AbsolutePath → AbsolutePath
parent [] = []
parent (p ∷ []) = []
parent (p ∷ q ∷ path) = p ∷ parent (q ∷ path)

-- The two maps that the checks fill, `livePaths` and `artifactPaths`.
pub record SeenPaths : Type 0 where
  pub live : List AbsolutePath
  pub artifacts : List AbsolutePath

abbrev Check : Type 0 → Type 0
Check A = Result JournalError A

abbrev first_is : Bytes → List Bytes → Bool
first_is name [] = false
first_is name (p ∷ parts) = p == name

-- `relativePathParts(entry.RelativePath)`, with the error of this check.
abbrev parts_of : Bytes → JournalError → Check (List Bytes)
parts_of path e = elim (relative_path_parts path) [ ok parts ↦ ok parts | err _ ↦ err e ]

check_live_path : AbsolutePath → JournalEntry → SeenPaths → Check SeenPaths
unfolding is_at_or_below
check_live_path state_dir entry seen = do
  parts ← parts_of entry.relative_path live_path_invalid
  let live_path = join (parent state_dir) entry.relative_path
  guard (not (first_is (codes ".docker-vrising") parts || is_at_or_below state_dir live_path))
      live_path_reserved
  guard (not (contains seen.live live_path)) duplicate_live_path
  ok (record seen { live = live_path ∷ seen.live })

check_digests : JournalEntry → Bool → Check (Unit {0})
check_digests entry config = do
  if entry.existed
      then guard (valid_sha256 entry.original_sha256) bad_original_sha256
      else guard (entry.original_sha256 == []) new_path_has_original
  if entry.installed_sha256 == []
      then guard (entry.existed && not config) installed_sha256_missing
      else guard (valid_sha256 entry.installed_sha256) bad_installed_sha256
  guard (entry.tombstone_sha256 == entry.installed_sha256) tombstone_mismatch

check_artifact : AbsolutePath → Bytes → SeenPaths → Check SeenPaths
check_artifact state_dir artifact seen = do
  let path = join state_dir artifact
  guard (not (contains seen.artifacts path)) duplicate_artifact
  ok (record seen { artifacts = path ∷ seen.artifacts })

check_artifact_names : Bytes → JournalEntry → ℕ → Check (Unit {0})
check_artifact_names candidate_id entry index =
    guard
      (entry.quarantine_path == canonical_quarantine_path candidate_id index
        && entry.tombstone_path == canonical_tombstone_path candidate_id index)
      artifacts_not_canonical

check_config_path : JournalEntry → Bool → Check (Unit {0})
check_config_path entry config =
    guard (not (config && not (entry.relative_path == codes "BepInEx/config/BepInEx.cfg")))
      bad_config_path

-- The closure `validateEntry`.
pub validate_entry : AbsolutePath → Bytes → JournalEntry → ℕ → Bool → SeenPaths → Check SeenPaths
validate_entry state_dir candidate_id entry index config seen = do
  live_seen ← check_live_path state_dir entry seen
  check_digests entry config
  check_artifact_names candidate_id entry index
  quarantine_seen ← check_artifact state_dir entry.quarantine_path live_seen
  both_seen ← check_artifact state_dir entry.tombstone_path quarantine_seen
  check_config_path entry config
  ok both_seen

-- `for index, entry := range journal.Entries`
unfoldable pub validate_entries :
    AbsolutePath → Bytes → List JournalEntry → ℕ → SeenPaths → Check SeenPaths
validate_entries state_dir candidate_id [] index seen = ok seen
validate_entries state_dir candidate_id (entry ∷ entries) index seen = do
  seen' ← validate_entry state_dir candidate_id entry index false seen
  validate_entries state_dir candidate_id entries (suc index) seen'

unfoldable pub validate_config :
    AbsolutePath → Bytes → Option JournalEntry → ℕ → SeenPaths → Check SeenPaths
validate_config state_dir candidate_id none index seen = ok seen
validate_config state_dir candidate_id (some entry) index seen =
    validate_entry state_dir candidate_id entry index true seen

abbrev no_paths : SeenPaths
no_paths = record { live = []; artifacts = [] }

-- The checks before the paths: the candidate, and the phase of its journal.
unfoldable pub check_candidate : GenerationRecord → TransactionJournal → Check (Unit {0})
check_candidate candidate journal = do
  guard (not (candidate.id == []) && candidate.id == journal.generation_id) generation_mismatch
  guard (candidate.status == codes "candidate") bad_candidate_status
  guard (journal.phase == codes "applying" || journal.phase == codes "applied") bad_phase
  id_parts ← parts_of candidate.id bad_candidate_id
  guard (length id_parts == 1) bad_candidate_id

unfoldable pub validate_journal :
    AbsolutePath → GenerationRecord → TransactionJournal → Check (Unit {0})
validate_journal state_dir candidate journal = do
  check_candidate candidate journal
  seen ← validate_entries state_dir candidate.id journal.entries 0 no_paths
  seen' ← validate_config state_dir candidate.id journal.config (length journal.entries) seen
  guard (not (any (contains seen'.artifacts) seen'.live)) live_path_is_artifact

abbrev pub transaction_of :
    AbsolutePath → Option TransactionJournal → Option GenerationRecord → Check (Unit {0})
transaction_of state_dir none none = ok tt
transaction_of state_dir none (some candidate) = err candidate_without_journal
transaction_of state_dir (some journal) none = err generation_mismatch
transaction_of state_dir (some journal) (some candidate) =
    validate_journal state_dir candidate journal

unfoldable pub validate_transaction_state : State → AbsolutePath → Check (Unit {0})
validate_transaction_state s state_dir = transaction_of state_dir s.transaction s.candidate

-- ===== src/Staging/Manifest.antt =====
-- What `validateManagedManifest` accepts, and the map of files that `managedFilesByPath` makes of it.
use docker_vrising.Prelude.{
  Bool, true, false, not, ◌≡◌, refl, none, some, List, [], ◌∷◌, ◌==◌, nat_eq, bytes_eq, Bytes,
  bytes_beq_iff, any, arith, All, All-map, inl, inr,
}
use docker_vrising.Prelude.Result.{Result, guard-passed, ok, ◌>>◌, guard, Result-cases, >>=-eq-ok}
use docker_vrising.State.{schema_version}
use docker_vrising.Path.{relative_path_parts}
use docker_vrising.Path.Parts.{intercalate, IsSafePart, relative_path_parts-IsSafePart}
use docker_vrising.Journal.{valid_sha256}
use docker_vrising.Order.{is_before}
use docker_vrising.Order.Laws.{is_before-IsOrder, is_before-connected}
use docker_vrising.Apply.{ManagedFile, managed_file_at}
use docker_vrising.Startup.Host.{ManagedManifest}
use docker_vrising.Staging.{
  StagingError, outside_runtime, duplicate_path, bad_digest, bad_mode, is_managed_runtime_path,
  is_plain_mode, is_sorted, lift_path, validate_managed_file, validate_managed_files,
  validate_managed_manifest,
}

-- A path below the root: its parts are file names.
abbrev pub IsBelow : Bytes → Type 0
IsBelow path = (parts : List Bytes) × (intercalate b'/' parts ≡ path) × All IsSafePart parts

pub record IsManagedFile (f : ManagedFile) : Type 0 where
  pub below : IsBelow f.relative_path
  pub runtime : is_managed_runtime_path f.relative_path ≡ true
  pub digest : valid_sha256 f.sha256 ≡ true
  pub mode : is_plain_mode f.mode ≡ true

abbrev IsOther : ManagedFile → ManagedFile → Type 0
IsOther f g = (f.relative_path == g.relative_path) ≡ false

abbrev AreDistinct : List ManagedFile → Type 0
AreDistinct [] = Unit
AreDistinct (f ∷ files) = All (IsOther f) files × AreDistinct files

abbrev IsFirst : ManagedFile → ManagedFile → Type 0
IsFirst f g = is_before f.relative_path g.relative_path ≡ true

-- Each path is before all that follow.
abbrev pub IsAscending : List ManagedFile → Type 0
IsAscending [] = Unit
IsAscending (f ∷ files) = All (IsFirst f) files × IsAscending files

parts-IsBelow :
    (path : Bytes) {parts : List Bytes}
    → lift_path (relative_path_parts path) ≡ ok parts
    → IsBelow path
parts-IsBelow path h = elim (Result-cases (relative_path_parts path)) [
  | inl (parts, e) ↦
      let (joined, safe) = relative_path_parts-IsSafePart path e in (parts, joined, safe)
  | inr (e, k) ↦ ground arith
]

guard-true : (test : Bool) (e : StagingError) → guard test e ≡ ok tt → test ≡ true
guard-true true e h = refl
guard-true false e h = cc

not-true : (test : Bool) → not test ≡ true → test ≡ false
not-true test h = ground arith

validate_managed_file-IsManagedFile :
    (seen : List Bytes) (f : ManagedFile)
    → validate_managed_file seen f ≡ ok tt
    → IsManagedFile f × (any (λ path. path == f.relative_path) seen ≡ false)
unfolding validate_managed_file
validate_managed_file-IsManagedFile seen f h =
    let (parts, is_path, after_path) =
      >>=-eq-ok (lift_path (relative_path_parts f.relative_path)) (λ parts. from_runtime) h in
    let (runtime, after_runtime) =
      guard-passed (is_managed_runtime_path f.relative_path) (outside_runtime f.relative_path)
        from_fresh after_path in
    let (fresh, after_fresh) =
      guard-passed (not (any (λ path. path == f.relative_path) seen))
        (duplicate_path f.relative_path) from_digest after_runtime in
    let (digest, after_digest) =
      guard-passed (valid_sha256 f.sha256) (bad_digest f.relative_path) from_mode after_fresh in
    (
      record {
        below = parts-IsBelow f.relative_path is_path;
        runtime = runtime;
        digest = digest;
        mode = guard-true (is_plain_mode f.mode) (bad_mode f.relative_path) after_digest;
      },
      not-true (any (λ path. path == f.relative_path) seen) fresh,
    )
  where
    from_mode : Result StagingError (Unit {0})
    from_mode = guard (is_plain_mode f.mode) (bad_mode f.relative_path)

    from_digest : Result StagingError (Unit {0})
    from_digest = guard (valid_sha256 f.sha256) (bad_digest f.relative_path) >> from_mode

    from_fresh : Result StagingError (Unit {0})
    from_fresh =
        guard (not (any (λ path. path == f.relative_path) seen)) (duplicate_path f.relative_path)
        >> from_digest

    from_runtime : Result StagingError (Unit {0})
    from_runtime =
        guard (is_managed_runtime_path f.relative_path) (outside_runtime f.relative_path)
        >> from_fresh

module _ (seen : List Bytes) (f : ManagedFile) (files : List ManagedFile)
    (accepted : validate_managed_files seen (f ∷ files) ≡ ok tt) where
  first_ok : validate_managed_file seen f ≡ ok tt
  unfolding validate_managed_files
  first_ok =
      let (u, e, k) =
        >>=-eq-ok (validate_managed_file seen f)
          (λ u. validate_managed_files (f.relative_path ∷ seen) files) accepted in
      ground arith

  rest_ok : validate_managed_files (f.relative_path ∷ seen) files ≡ ok tt
  unfolding validate_managed_files
  rest_ok =
      let (u, e, k) =
        >>=-eq-ok (validate_managed_file seen f)
          (λ u. validate_managed_files (f.relative_path ∷ seen) files) accepted in
      k

files-IsManagedFile :
    (files : List ManagedFile) (seen : List Bytes)
    → validate_managed_files seen files ≡ ok tt
    → All IsManagedFile files
files-IsManagedFile [] seen h = tt
files-IsManagedFile (f ∷ files) seen h = (
  (validate_managed_file-IsManagedFile seen f (first_ok seen f files h)).0,
  files-IsManagedFile files (f.relative_path ∷ seen) (rest_ok seen f files h),
)

files-unseen :
    (files : List ManagedFile) (seen : List Bytes)
    → validate_managed_files seen files ≡ ok tt
    → All (λ (g : ManagedFile). any (λ path. path == g.relative_path) seen ≡ false) files
files-unseen [] seen h = tt
files-unseen (f ∷ files) seen h = (
  (validate_managed_file-IsManagedFile seen f (first_ok seen f files h)).1,
  All-map (λ g k. ground arith) files
      (files-unseen files (f.relative_path ∷ seen) (rest_ok seen f files h)),
)

files-AreDistinct :
    (files : List ManagedFile) (seen : List Bytes)
    → validate_managed_files seen files ≡ ok tt
    → AreDistinct files
files-AreDistinct [] seen h = tt
files-AreDistinct (f ∷ files) seen h = (
  All-map (λ g k. ground arith) files
      (files-unseen files (f.relative_path ∷ seen) (rest_ok seen f files h)),
  files-AreDistinct files (f.relative_path ∷ seen) (rest_ok seen f files h),
)

IsFirst-trans : (f g h : ManagedFile) → IsFirst f g → IsFirst g h → IsFirst f h
IsFirst-trans f g h a b = ground (
  arith,
  is_before-IsOrder.splits f.relative_path h.relative_path g.relative_path,
  is_before-IsOrder.asymmetric g.relative_path h.relative_path,
)

distinct-IsAscending :
    (files : List ManagedFile) → AreDistinct files → is_sorted files ≡ true → IsAscending files
distinct-IsAscending [] d s = tt
distinct-IsAscending (f ∷ []) d s = (tt, tt)
distinct-IsAscending (f ∷ g ∷ files) d s =
    let rest = distinct-IsAscending (g ∷ files) d.1 (ground arith) in
    let next : IsFirst f g = ground (
      arith,
      is_before-connected f.relative_path g.relative_path,
      bytes_beq_iff f.relative_path g.relative_path,
    ) in
    ((next, All-map (λ h k. IsFirst-trans f g h next k) files rest.0), rest)

managed_file_at-absent :
    (files : List ManagedFile) (f : ManagedFile)
    → All (IsOther f) files
    → managed_file_at files f.relative_path ≡ none
unfolding managed_file_at
managed_file_at-absent [] f h = refl
managed_file_at-absent (g ∷ files) f h = ground (
  arith,
  managed_file_at-absent files f h.1,
  bytes_beq_iff f.relative_path g.relative_path,
  bytes_beq_iff g.relative_path f.relative_path,
)

-- Each file is what the map has at its path.
abbrev pub IsFound : List ManagedFile → ManagedFile → Type 0
IsFound files f = managed_file_at files f.relative_path ≡ some f

distinct-IsFound : (files : List ManagedFile) → AreDistinct files → All (IsFound files) files
unfolding managed_file_at
distinct-IsFound [] d = tt
distinct-IsFound (f ∷ files) d = (
  ground (arith, managed_file_at-absent files f d.0, bytes_beq_iff f.relative_path f.relative_path),
  All-map (λ g k. ground arith) files (distinct-IsFound files d.1),
)

pub record IsManifest (m : ManagedManifest) : Type 0 where
  pub version : m.schema_version ≡ schema_version
  pub generation : IsBelow m.generation_id
  pub files : All IsManagedFile m.files
  pub ascending : IsAscending m.files
  pub found : All (IsFound m.files) m.files

-- An accepted manifest has the schema version of the code and the name of a path below the root; its
-- files are below the root, within the managed runtime paths, with a digest and a plain mode; each
-- path is before all that follow; and a look-up by the path of a file gives that file.
pub validate_managed_manifest-IsManifest :
    (m : ManagedManifest) → validate_managed_manifest m ≡ ok tt → IsManifest m
unfolding validate_managed_manifest
validate_managed_manifest-IsManifest m h =
    elim (Result-cases (lift_path (relative_path_parts m.generation_id))) [
      | inl (parts, e) ↦ elim (Result-cases (validate_managed_files [] m.files)) [
        | inl (u, k) ↦
            let distinct = files-AreDistinct m.files [] k in
            record {
              version = ground arith;
              generation = parts-IsBelow m.generation_id e;
              files = files-IsManagedFile m.files [] k;
              ascending = distinct-IsAscending m.files distinct (ground arith);
              found = distinct-IsFound m.files distinct;
            }
        | inr (r, k) ↦ ground arith
      ]
      | inr (r, e) ↦ ground arith
    ]

-- ===== src/Graph/Metadata.antt =====
-- thunderstore.go: the metadata of a package and what `validateMetadata` and `parseDependency`
-- accept, and `getJSON` with its retries. `url.Parse` with the test of its scheme and host is a
-- parameter, and so is what the service answers.
pub mod RoundTrip
pub mod Requests
use docker_vrising.Prelude.{
  ℕ, zero, suc, Bool, true, false, ◌&&◌, ◌||◌, not, Option, none, some, List, [], ◌∷◌, ◌++◌, ◌==◌,
  all, leb, ltb, nat_eq, bytes_eq, Bytes, if◌then◌else◌, ◌+◌,
}
use docker_vrising.Prelude.Result.{Result, ok, err, ◌>>=◌, ◌>>◌, guard}
use docker_vrising.State.{ℤ, pos, negsuc, PackageRef}
use docker_vrising.Config.{semantic_version}

-- `packageDependencies`
pub record PackageDependencies : Type 0 where
  pub values : List Bytes
  pub present : Bool
  pub null : Bool

pub record PackageMetadata : Type 0 where
  pub namespace : Bytes
  pub name : Bytes
  pub version : Bytes
  pub full_name : Bytes
  pub dependencies : PackageDependencies
  pub download_url : Bytes
  pub file_size : ℤ
  pub is_active : Bool

pub data MetadataError : Type 0 where
  identity_mismatch inactive dependencies_missing negative_size url_not_https : MetadataError
  malformed_dependency : Bytes → MetadataError
  request_failed bad_status bad_body cancelled exhausted : MetadataError

-- `packageFullName` and `packageVersionFullName`
unfoldable pub package_full_name : Bytes → Bytes → Bytes
package_full_name namespace name = namespace ++ (b'-' ∷ name)

unfoldable pub package_version_full_name : PackageRef → Bytes
unfolding package_full_name
package_version_full_name ref = ref.namespace ++ (b'-' ∷ (ref.name ++ (b'-' ∷ ref.version)))

abbrev pub is_negative : ℤ → Bool
is_negative (pos n) = false
is_negative (negsuc n) = true

module _ (is_https_url : Bytes → Bool) where
  -- `validateMetadata`
  unfoldable pub validate_metadata : PackageRef → PackageMetadata → Result MetadataError (Unit {0})
  unfolding package_version_full_name
  validate_metadata ref m = do
    guard
        (m.namespace == ref.namespace
          && (m.name == ref.name
              && (m.version == ref.version && m.full_name == package_version_full_name ref)))
        identity_mismatch
    guard m.is_active inactive
    guard (m.dependencies.present && not m.dependencies.null) dependencies_missing
    guard (not (is_negative m.file_size)) negative_size
    guard (is_https_url m.download_url) url_not_https

abbrev pub is_dash : ℕ → Bool
is_dash c = c == b'-'

-- `[A-Za-z0-9_]`
abbrev pub is_word : ℕ → Bool
is_word c =
    leb b'A' c && leb c b'Z'
    || (leb b'a' c && leb c b'z' || (leb b'0' c && leb c b'9' || c == b'_'))

-- `[A-Za-z0-9_-]`
abbrev pub is_name_char : ℕ → Bool
is_name_char c = is_word c || is_dash c

-- The text before the first dash, and after it.
unfoldable pub cut_first : Bytes → Option (Bytes × Bytes)
cut_first [] = none
cut_first (c ∷ s) =
    let rest = cut_first s in
    if is_dash c then some ([], s) else elim rest [ none ↦ none | some (a, b) ↦ some (c ∷ a, b) ]

-- The text before the last dash, and after it.
unfoldable pub cut_last : Bytes → Option (Bytes × Bytes)
cut_last [] = none
cut_last (c ∷ s) = elim (cut_last s) [
  | some (a, b) ↦ some (c ∷ a, b)
  | none ↦ if is_dash c then some ([], s) else none
]

abbrev pub is_reference : Bytes → Bytes → Bytes → Bool
is_reference namespace name version =
    not (namespace == [])
    && (all is_word namespace
        && (not (name == []) && (all is_name_char name && semantic_version version)))

-- `dependencyReference` and `parseDependency`: a namespace has no dash and a version neither, so the
-- pattern splits at the first dash and at the last one.
unfoldable pub parse_dependency : Bytes → Result MetadataError PackageRef
unfolding cut_first cut_last
parse_dependency s = elim (cut_first s) [
  | none ↦ err (malformed_dependency s)
  | some (namespace, rest) ↦ elim (cut_last rest) [
    | none ↦ err (malformed_dependency s)
    | some (name, version) ↦
        if is_reference namespace name version
        then ok (record { namespace = namespace; name = name; version = version })
        else err (malformed_dependency s)
  ]
]

-- The loop over `metadata.Dependencies.values`.
unfoldable pub parse_dependencies : List Bytes → Result MetadataError (List PackageRef)
unfolding parse_dependency
parse_dependencies [] = ok []
parse_dependencies (s ∷ rest) = do
  ref ← parse_dependency s
  refs ← parse_dependencies rest
  ok (ref ∷ refs)

-- The answer to one request: its status, and what `decodeJSONResponse` makes of the body.
pub record Response (A : Type 0) : Type 0 where
  pub status : ℕ
  pub body : Option A

abbrev pub is_retried : ℕ → Bool
is_retried status = status == 429 || leb 500 status

abbrev pub decoded : {A : Type 0} → Option A → Result MetadataError A
decoded none = err bad_body
decoded (some a) = ok a

abbrev pub last_answer : {A : Type 0} → Response A → Result MetadataError A
last_answer r = if r.status == 200 then decoded r.body else err bad_status

-- `getJSON`: what the client answers to each request, where `none` is an error of the transport, and
-- whether the context is cancelled during the wait after it. The result, and the requests made.
module _ {A : Type 0} (client : ℕ → Option (Response A)) (is_cancelled : ℕ → Bool) where
  unfoldable pub get_json_from : ℕ → ℕ → Result MetadataError A × ℕ
  get_json_from zero attempt = (err exhausted, attempt)
  get_json_from (suc left) attempt = elim (client attempt) [
    | none ↦ (err request_failed, suc attempt)
    | some r ↦
        if is_retried r.status && ltb attempt 2
        then if is_cancelled attempt
          then (err cancelled, suc attempt)
          else get_json_from left (suc attempt)
        else (last_answer r, suc attempt)
  ]

  unfoldable pub get_json : Result MetadataError A × ℕ
  unfolding get_json_from
  get_json = get_json_from 3 0

-- ===== src/Staging.antt =====
-- mods.go: what a staged generation must be: the checks of its manifest and of its files
-- (Staging/Manifest has what they guarantee), and in Staging/Lock those of its package lock.
pub mod Manifest
pub mod Lock
mod Tests
use docker_vrising.Prelude.{
  ℕ, zero, suc, Bool, true, false, ◌&&◌, ◌||◌, not, Option, none, some, List, [], ◌∷◌, ◌==◌, any,
  all, leb, ltb, ◌%◌, nat_eq, bytes_eq, Bytes, codes, length, map, if◌then◌else◌,
}
use docker_vrising.Prelude.Result.{Result, ok, err, ◌>>=◌, ◌>>◌, guard}
use docker_vrising.State.{
  ℤ, pos, PackageRef, LockedPackage, PackageLock, package_ref_eq, schema_version, is_non_positive,
}
use docker_vrising.Path.{PathError, relative_path_parts}
use docker_vrising.Journal.{valid_sha256}
use docker_vrising.Config.{has_prefix, int_ltb}
use docker_vrising.Order.{is_before, sort_strings}
use docker_vrising.Apply.{ManagedFile, managed_file_at}
use docker_vrising.Promotion.{same_locked_package}
use docker_vrising.Graph.Roots.{RootError, validate_managed_root_refs}
use docker_vrising.Graph.Metadata.{package_version_full_name}
use docker_vrising.Graph.Canonical.{OrderError, Dependencies, canonical_package_order}
use docker_vrising.Startup.Host.{ManagedManifest}

-- What `managedPackageKind` returns; the empty string is `none`.
pub data PackageKind : Type 0 where
  bepinex vcf kindred_commands hook_dots satisvampory_mod : PackageKind

pub data StagingError : Type 0 where
  bad_path : PathError → StagingError
  outside_runtime duplicate_path bad_digest bad_mode : Bytes → StagingError
  unsupported_manifest incomplete_identity bad_generation_id unsorted_files : StagingError
  missing_file missing_tree : Bytes → StagingError

-- `isManagedBepInExPath` and `isManagedRuntimePath`
unfoldable pub is_managed_bepinex_path : Bytes → Bool
is_managed_bepinex_path path =
    path == codes ".doorstop_version"
    || (path == codes "doorstop_config.ini"
        || (path == codes "winhttp.dll"
            || (has_prefix path (codes "dotnet/")
                || (has_prefix path (codes "BepInEx/core/")
                    || has_prefix path (codes "BepInEx/patchers/")))))

unfoldable pub is_managed_runtime_path : Bytes → Bool
unfolding is_managed_bepinex_path
is_managed_runtime_path path =
    is_managed_bepinex_path path || has_prefix path (codes "BepInEx/plugins/saltydk-managed/")

abbrev pub lift_path : {A : Type 0} → Result PathError A → Result StagingError A
lift_path (ok a) = ok a
lift_path (err e) = err (bad_path e)

-- A mode is its bits: nine of permissions, and those above.
abbrev pub is_plain_mode : ℕ → Bool
is_plain_mode mode = not (mode % 512 == 0) && ltb mode 512

unfoldable pub validate_managed_file : List Bytes → ManagedFile → Result StagingError (Unit {0})
unfolding is_managed_runtime_path
validate_managed_file seen f = do
  parts ← lift_path (relative_path_parts f.relative_path)
  guard (is_managed_runtime_path f.relative_path) (outside_runtime f.relative_path)
  guard (not (any (λ path. path == f.relative_path) seen)) (duplicate_path f.relative_path)
  guard (valid_sha256 f.sha256) (bad_digest f.relative_path)
  guard (is_plain_mode f.mode) (bad_mode f.relative_path)

-- `validateManagedFiles`, with the paths seen so far.
unfoldable pub validate_managed_files :
    List Bytes → List ManagedFile → Result StagingError (Unit {0})
unfolding validate_managed_file
validate_managed_files seen [] = ok tt
validate_managed_files seen (f ∷ files) = do
  validate_managed_file seen f
  validate_managed_files (f.relative_path ∷ seen) files

-- `slices.IsSortedFunc` by the paths.
abbrev pub is_sorted : List ManagedFile → Bool
is_sorted [] = true
is_sorted (f ∷ []) = true
is_sorted (f ∷ g ∷ files) = not (is_before g.relative_path f.relative_path) && is_sorted (g ∷ files)

-- `validateManagedManifest`
unfoldable pub validate_managed_manifest : ManagedManifest → Result StagingError (Unit {0})
unfolding validate_managed_files
validate_managed_manifest m = do
  guard (m.schema_version == schema_version) unsupported_manifest
  guard (not (m.generation_id == []) && not (m.lock_digest == [])) incomplete_identity
  parts ← lift_path (relative_path_parts m.generation_id)
  validate_managed_files [] m.files
  guard (is_sorted m.files) unsorted_files

abbrev pub required_files : List Bytes
required_files =
    codes ".doorstop_version"
    ∷ codes "doorstop_config.ini"
    ∷ codes "winhttp.dll"
    ∷ codes "BepInEx/plugins/saltydk-managed/VampireCommandFramework.dll"
    ∷ codes "BepInEx/plugins/saltydk-managed/KindredCommands.dll"
    ∷ codes "BepInEx/plugins/saltydk-managed/NetTopologySuite.dll"
    ∷ codes "BepInEx/plugins/saltydk-managed/HookDOTS.API.dll"
    ∷ codes "BepInEx/plugins/saltydk-managed/Satisvampory.dll"
    ∷ []

abbrev is_there : Option ManagedFile → Bool
is_there none = false
is_there (some f) = true

-- `requireManagedRuntimeFiles`, the first loop.
require_files : List ManagedFile → List Bytes → Result StagingError (Unit {0})
require_files files [] = ok tt
require_files files (path ∷ paths) = do
  guard (is_there (managed_file_at files path)) (missing_file path)
  require_files files paths

abbrev has_tree : List ManagedFile → Bytes → Bool
has_tree files prefix = any (λ (f : ManagedFile). has_prefix f.relative_path prefix) files

-- `requireManagedRuntimeFiles`; which of the two trees is named first in an error is left open there.
pub require_managed_runtime_files : List ManagedFile → Result StagingError (Unit {0})
require_managed_runtime_files files = do
  require_files files required_files
  guard (has_tree files (codes "dotnet/")) (missing_tree (codes "dotnet runtime"))
  guard (has_tree files (codes "BepInEx/core/")) (missing_tree (codes "BepInEx core"))

abbrev is_named : PackageRef → Bytes → Bytes → Bool
is_named ref namespace name = ref.namespace == namespace && ref.name == name

-- `managedPackageKind`
unfoldable pub managed_package_kind : PackageRef → Option PackageKind
managed_package_kind ref =
    if is_named ref (codes "BepInEx") (codes "BepInExPack_V_Rising")
    then some bepinex
    else if is_named ref (codes "deca") (codes "VampireCommandFramework")
    then some vcf
    else if is_named ref (codes "odjit") (codes "KindredCommands")
    then some kindred_commands
    else if is_named ref (codes "cheesasaurus") (codes "HookDOTS_API")
    then some hook_dots
    else if is_named ref (codes "Team_GreenEye") (codes "Satisvampory")
    then some satisvampory_mod
    else none

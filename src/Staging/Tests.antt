-- ===== src/Staging/Tests.antt =====
-- A lock of five packages and a manifest of two files, checked.
use docker_vrising.Promotion.{same_locked_package}
use docker_vrising.Graph.Canonical.{canonical_package_order}
use docker_vrising.Config.{semantic_version}
use docker_vrising.Graph.Roots.{validate_managed_root_refs}
use docker_vrising.Graph.Refs.{compare_package_refs}
use docker_vrising.Order.{sort, compare_bytes}
use docker_vrising.Journal.{valid_sha256}
use docker_vrising.Path.{relative_path_parts}
use docker_vrising.Prelude.{
  bytes_beq, ◌+◌, ◌≡◌, refl, List, [], ◌∷◌, ◌++◌, codes, Bytes, length, some,
}
use docker_vrising.Prelude.Result.{ok, err}
use docker_vrising.State.{is_non_positive, pos, PackageRef, LockedPackage, PackageLock}
use docker_vrising.Apply.{managed_file_at, ManagedFile}
use docker_vrising.Graph.Metadata.{package_version_full_name}
use docker_vrising.Graph.Digest.{package_lock_digest, CanonicalPackageLock}
use docker_vrising.Startup.Host.{ManagedManifest}
use docker_vrising.Staging.{
  managed_package_kind, require_files, validate_managed_manifest, unsorted_files,
  require_managed_runtime_files, missing_file,
}
use docker_vrising.Staging.Manifest.{IsManifest, validate_managed_manifest-IsManifest}
use docker_vrising.Staging.Lock.{
  kind_beq, validate_managed_package_lock, validate_managed_archive_set, wrong_archive_count,
  not_canonical,
}
use docker_vrising.Staging.Lock.Accepted.{
  IsManagedLock, validate_managed_package_lock-IsManagedLock,
}

abbrev some_digest : Bytes
some_digest = codes "0123456789abcdef0123456789abcdef0123456789ABCDEF0123456789abcdef"

abbrev package_of : Bytes → Bytes → List PackageRef → LockedPackage
package_of namespace name ds =
    let ref : PackageRef = record { namespace = namespace; name = name; version = codes "1.0.0" } in
    record {
      ref = ref;
      full_name = namespace ++ (b'-' ∷ (name ++ codes "-1.0.0"));
      download_url = codes "https://example.org/p";
      file_size = pos 12;
      sha256 = some_digest;
      dependencies = ds;
    }

abbrev loader : LockedPackage
loader = package_of (codes "BepInEx") (codes "BepInExPack_V_Rising") []

abbrev hooks : LockedPackage
hooks = package_of (codes "cheesasaurus") (codes "HookDOTS_API") (loader.ref ∷ [])

abbrev framework : LockedPackage
framework = package_of (codes "deca") (codes "VampireCommandFramework") (loader.ref ∷ [])

abbrev commands : LockedPackage
commands = package_of (codes "odjit") (codes "KindredCommands") (framework.ref ∷ loader.ref ∷ [])

abbrev factory : LockedPackage
factory = package_of (codes "Team_GreenEye") (codes "Satisvampory") (hooks.ref ∷ framework.ref ∷ [])

-- A stand-in for the digest that looks at the number of packages.
abbrev short_hash : CanonicalPackageLock → Bytes
short_hash lock = (b'0' + length lock.packages) ∷ []

abbrev lock_with : List LockedPackage → PackageLock
lock_with packages = record {
  schema_version = 1;
  roots = commands.ref ∷ factory.ref ∷ [];
  packages = packages;
  digest = codes "5";
  resolved_at = 7;
}

abbrev lock : PackageLock
lock = lock_with (loader ∷ framework ∷ commands ∷ hooks ∷ factory ∷ [])

lock_accepted : validate_managed_package_lock short_hash lock ≡ ok tt
unfolding validate_managed_package_lock bytes_beq package_lock_digest sort compare_package_refs
    compare_bytes validate_managed_root_refs semantic_version package_version_full_name
    is_non_positive valid_sha256 managed_package_kind kind_beq canonical_package_order
lock_accepted = refl

swapped_lock :
    validate_managed_package_lock short_hash
      (lock_with (loader ∷ framework ∷ hooks ∷ commands ∷ factory ∷ []))
    ≡ err not_canonical
unfolding validate_managed_package_lock bytes_beq package_lock_digest sort compare_package_refs
    compare_bytes validate_managed_root_refs semantic_version package_version_full_name
    is_non_positive valid_sha256 managed_package_kind kind_beq canonical_package_order
swapped_lock = refl

no_archives : validate_managed_archive_set short_hash lock [] ≡ err wrong_archive_count
unfolding validate_managed_archive_set bytes_beq package_lock_digest sort compare_package_refs
    compare_bytes validate_managed_root_refs semantic_version package_version_full_name
    is_non_positive valid_sha256 managed_package_kind kind_beq canonical_package_order
no_archives = refl

all_archives :
    validate_managed_archive_set short_hash lock (
      (loader.ref, some loader)
      ∷ (factory.ref, some factory)
      ∷ (hooks.ref, some hooks)
      ∷ (framework.ref, some framework)
      ∷ (commands.ref, some commands)
      ∷ [])
    ≡ ok tt
unfolding validate_managed_archive_set bytes_beq package_lock_digest sort compare_package_refs
    compare_bytes validate_managed_root_refs semantic_version package_version_full_name
    is_non_positive valid_sha256 managed_package_kind kind_beq canonical_package_order
    same_locked_package
all_archives = refl

validate_managed_package_lock-IsManagedLock_example : IsManagedLock short_hash lock
validate_managed_package_lock-IsManagedLock_example =
    validate_managed_package_lock-IsManagedLock short_hash lock lock_accepted

abbrev file : Bytes → ManagedFile
file path = record { relative_path = path; sha256 = some_digest; mode = 420 }

abbrev manifest_of : List ManagedFile → ManagedManifest
manifest_of files = record {
  schema_version = 1;
  generation_id = codes "20260101-abc";
  lock_digest = codes "5";
  files = files;
}

abbrev manifest : ManagedManifest
manifest = manifest_of (file (codes "BepInEx/core/0Harmony.dll") ∷ file (codes "winhttp.dll") ∷ [])

manifest_accepted : validate_managed_manifest manifest ≡ ok tt
unfolding validate_managed_manifest bytes_beq relative_path_parts valid_sha256 compare_bytes
manifest_accepted = refl

unsorted_manifest :
    validate_managed_manifest
      (manifest_of (file (codes "winhttp.dll") ∷ file (codes "dotnet/x") ∷ []))
    ≡ err unsorted_files
unfolding validate_managed_manifest bytes_beq relative_path_parts valid_sha256 compare_bytes
unsorted_manifest = refl

no_doorstop :
    require_managed_runtime_files manifest.files ≡ err (missing_file (codes ".doorstop_version"))
unfolding require_managed_runtime_files require_files managed_file_at bytes_beq
no_doorstop = refl

validate_managed_manifest-IsManifest_example : IsManifest manifest
validate_managed_manifest-IsManifest_example =
    validate_managed_manifest-IsManifest manifest manifest_accepted

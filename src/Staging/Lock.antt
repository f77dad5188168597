-- ===== src/Staging/Lock.antt =====
-- mods.go: `validateManagedPackageLock`, what a lock must be to be staged, and `validateManagedArchiveSet`.
-- The SHA-256 of the JSON text of a lock is a parameter.
pub mod Accepted
use docker_vrising.Prelude.{
  ℕ, Bool, true, false, ◌&&◌, ◌||◌, not, Option, none, some, List, [], ◌∷◌, ◌==◌, nat_eq, bytes_eq,
  Bytes, length, map, any, ◌↔◌, ◌≡◌, arith, Comparable, refl, if◌then◌else◌,
}
use docker_vrising.Prelude.Result.{Result, ok, err, ◌>>=◌, ◌>>◌, guard}
use docker_vrising.State.{
  PackageRef, LockedPackage, PackageLock, package_ref_eq, schema_version, is_non_positive,
}
use docker_vrising.Journal.{valid_sha256}
use docker_vrising.Promotion.{same_locked_package}
use docker_vrising.Graph.Roots.{RootError, validate_managed_root_refs}
use docker_vrising.Graph.Metadata.{package_version_full_name}
use docker_vrising.Graph.Canonical.{OrderError, Dependencies, canonical_package_order}
use docker_vrising.Graph.Digest.{CanonicalPackageLock, package_lock_digest}
use docker_vrising.Staging.{
  PackageKind, bepinex, vcf, kindred_commands, hook_dots, satisvampory_mod, managed_package_kind,
}

pub data LockError : Type 0 where
  unsupported_lock lock_digest_invalid wrong_package_count roots_differ not_canonical : LockError
  bad_root : RootError → LockError
  bad_package unmapped_package : PackageRef → LockError
  duplicate_kind missing_kind : PackageKind → LockError
  bad_order : OrderError → LockError
  wrong_archive_count : LockError
  archive_missing archive_differs archive_outside : PackageRef → LockError

unfoldable pub kind_beq : PackageKind → PackageKind → Bool
kind_beq bepinex bepinex = true
kind_beq vcf vcf = true
kind_beq kindred_commands kindred_commands = true
kind_beq hook_dots hook_dots = true
kind_beq satisvampory_mod satisvampory_mod = true
kind_beq _ _ = false

pub kind_beq_iff : (a b : PackageKind) → (kind_beq a b ≡ true) ↔ (a ≡ b)
unfolding kind_beq
kind_beq_iff bepinex bepinex = ground arith
kind_beq_iff vcf vcf = ground arith
kind_beq_iff kindred_commands kindred_commands = ground arith
kind_beq_iff hook_dots hook_dots = ground arith
kind_beq_iff satisvampory_mod satisvampory_mod = ground arith
kind_beq_iff _ _ = ground arith

-- The map `seen`, from kinds to references.
abbrev pub SeenKinds : Type 0
SeenKinds = List (PackageKind × PackageRef)

abbrev pub seen_at : SeenKinds → PackageKind → Option PackageRef
seen_at [] kind = none
seen_at ((j, r) ∷ seen) kind =
    let earlier = seen_at seen kind in if kind_beq j kind then some r else earlier

abbrev pub is_seen : Option PackageRef → Bool
is_seen none = false
is_seen (some r) = true

abbrev pub is_ref : Option PackageRef → PackageRef → Bool
is_ref none expected = false
is_ref (some r) expected = r == expected

-- The metadata that the lock has to have of a package.
abbrev pub is_locked : LockedPackage → Bool
is_locked p =
    p.full_name == package_version_full_name p.ref
    && (not (p.download_url == []) && (not (is_non_positive p.file_size) && valid_sha256 p.sha256))

abbrev pub note_kind : SeenKinds → PackageRef → Option PackageKind → Result LockError SeenKinds
note_kind seen r none = err (unmapped_package r)
note_kind seen r (some kind) = do
  guard (not (is_seen (seen_at seen kind))) (duplicate_kind kind)
  ok ((kind, r) ∷ seen)

-- The loop over the packages.
unfoldable pub note_packages : SeenKinds → List LockedPackage → Result LockError SeenKinds
note_packages seen [] = ok seen
note_packages seen (p ∷ packages) = do
  guard (is_locked p) (bad_package p.ref)
  next ← note_kind seen p.ref (managed_package_kind p.ref)
  note_packages next packages

unfoldable pub require_kinds : SeenKinds → List PackageKind → Result LockError (Unit {0})
require_kinds seen [] = ok tt
require_kinds seen (kind ∷ kinds) = do
  guard (is_seen (seen_at seen kind)) (missing_kind kind)
  require_kinds seen kinds

abbrev pub kinds : List PackageKind
kinds = bepinex ∷ vcf ∷ kindred_commands ∷ hook_dots ∷ satisvampory_mod ∷ []

-- `seen["kindred"] == lock.Roots[0] && seen["satisvampory"] == lock.Roots[1]`
abbrev pub has_roots : SeenKinds → List PackageRef → Bool
has_roots seen (first ∷ second ∷ rest) =
    is_ref (seen_at seen kindred_commands) first && is_ref (seen_at seen satisvampory_mod) second
has_roots seen _ = false

-- The map `dependencies`.
abbrev pub locked_dependencies : List LockedPackage → Dependencies
locked_dependencies packages = map (λ (p : LockedPackage). (p.ref, p.dependencies)) packages

-- The last loop; the order has as many references as there are packages.
abbrev pub stands_in_order : List PackageRef → List LockedPackage → Bool
stands_in_order [] packages = true
stands_in_order (r ∷ order) [] = false
stands_in_order (r ∷ order) (p ∷ packages) = p.ref == r && stands_in_order order packages

abbrev pub lift_root : {A : Type 0} → Result RootError A → Result LockError A
lift_root (ok a) = ok a
lift_root (err e) = err (bad_root e)

abbrev pub lift_order : {A : Type 0} → Result OrderError A → Result LockError A
lift_order (ok a) = ok a
lift_order (err e) = err (bad_order e)

-- `packageRefForKind`
unfoldable pub package_ref_for_kind : List LockedPackage → PackageKind → PackageRef
package_ref_for_kind [] kind = record { namespace = []; name = []; version = [] }
package_ref_for_kind (p ∷ packages) kind =
    let later = package_ref_for_kind packages kind in
    elim (managed_package_kind p.ref) [
      | none ↦ later
      | some j ↦ if kind_beq j kind then p.ref else later
    ]

-- The part of `validateManagedPackageLock` on the packages, and that on their order.
unfoldable pub check_packages : PackageLock → Result LockError (Unit {0})
unfolding note_packages require_kinds
check_packages lock = do
  seen ← note_packages [] lock.packages
  require_kinds seen kinds
  guard (has_roots seen lock.roots) roots_differ

unfoldable pub check_order : PackageLock → Result LockError (Unit {0})
check_order lock = do
  order ← lift_order (canonical_package_order lock.roots (locked_dependencies lock.packages))
  guard (stands_in_order order lock.packages) not_canonical

module _ (hash : CanonicalPackageLock → Bytes) where
  -- `validateManagedPackageLock`
  unfoldable pub validate_managed_package_lock : PackageLock → Result LockError (Unit {0})
  unfolding check_packages check_order
  validate_managed_package_lock lock = do
    guard (lock.schema_version == schema_version) unsupported_lock
    guard (not (lock.digest == []) && lock.digest == package_lock_digest hash lock)
        lock_digest_invalid
    lift_root (validate_managed_root_refs lock.roots)
    guard (length lock.packages == 5) wrong_package_count
    check_packages lock
    check_order lock

-- The map of archives, each the locked package that it was checked against; `none` is nil.
abbrev pub Archives : Type 0
Archives = List (PackageRef × Option LockedPackage)

abbrev archive_at : Archives → PackageRef → Option LockedPackage
archive_at [] r = none
archive_at ((key, archive) ∷ archives) r =
    let later = archive_at archives r in if key == r then archive else later

abbrev match_archive : LockedPackage → Option LockedPackage → Result LockError (Unit {0})
match_archive p none = err (archive_missing p.ref)
match_archive p (some archive) = guard (same_locked_package archive p) (archive_differs p.ref)

unfoldable pub match_archives : Archives → List LockedPackage → Result LockError (Unit {0})
match_archives archives [] = ok tt
match_archives archives (p ∷ packages) = do
  match_archive p (archive_at archives p.ref)
  match_archives archives packages

abbrev is_package : List LockedPackage → PackageRef → Bool
is_package packages r = any (λ (p : LockedPackage). p.ref == r) packages

unfoldable pub inside_lock : List LockedPackage → Archives → Result LockError (Unit {0})
inside_lock packages [] = ok tt
inside_lock packages ((key, archive) ∷ archives) = do
  guard (is_package packages key) (archive_outside key)
  inside_lock packages archives

module _ (hash : CanonicalPackageLock → Bytes) where
  -- `validateManagedArchiveSet`
  unfoldable pub validate_managed_archive_set : PackageLock → Archives → Result LockError (Unit {0})
  unfolding validate_managed_package_lock match_archives inside_lock
  validate_managed_archive_set lock archives = do
    validate_managed_package_lock hash lock
    guard (length archives == length lock.packages) wrong_archive_count
    match_archives archives lock.packages
    inside_lock lock.packages archives

-- ===== src/Graph/Resolver.antt =====
-- thunderstore.go: `Resolve` and `graphResolver.visit`, which loads the metadata of every package
-- that the roots need. The metadata that the service returns is a parameter; it may have no end, so
-- the depth of the calls is fuel, and Resolver.Finite shows how much is enough.
pub mod Walk
pub mod Visit
pub mod Finite
pub mod Resolved
use docker_vrising.Prelude.{
  ℕ, zero, suc, Bool, true, false, ◌&&◌, ◌||◌, not, Option, none, some, List, [], ◌∷◌, ◌++◌, ◌==◌,
  any, map, bytes_eq, Bytes, codes, if◌then◌else◌,
}
use docker_vrising.Prelude.Result.{Result, ok, err, ◌>>=◌, ◌>>◌, guard}
use docker_vrising.State.{ℤ, pos, PackageRef, package_ref_eq}
use docker_vrising.Config.{Environment, lookup, assign, semantic_version}
use docker_vrising.Graph.Refs.{sort_package_refs}
use docker_vrising.Graph.Roots.{RootError, RootSelection, validate_root_selections}
use docker_vrising.Graph.Metadata.{
  PackageMetadata, MetadataError, validate_metadata, parse_dependencies, package_full_name,
  package_version_full_name,
}
use docker_vrising.Graph.Canonical.{OrderError, Dependencies, canonical_package_order}

pub record ResolvedPackage : Type 0 where
  pub ref : PackageRef
  pub full_name : Bytes
  pub download_url : Bytes
  pub file_size : ℤ
  pub is_active : Bool
  pub dependencies : List PackageRef

pub record ResolvedGraph : Type 0 where
  pub roots : List PackageRef
  pub packages : List ResolvedPackage

pub data ResolveError : Type 0 where
  bad_roots : RootError → ResolveError
  bad_metadata : MetadataError → ResolveError
  bad_order : OrderError → ResolveError
  root_mismatch latest_mismatch : ResolveError
  conflicting dependency_cycle : PackageRef → ResolveError
  out_of_fuel : ResolveError

-- `graphResolver`: `packages` is the map by reference, its last entry first.
pub record Resolver : Type 0 where
  pub visiting : PackageRef → Bool
  pub visited : PackageRef → Bool
  pub versions : Environment
  pub packages : List ResolvedPackage

abbrev pub set_flag : PackageRef → Bool → (PackageRef → Bool) → PackageRef → Bool
set_flag r b flags q = if r == q then b else flags q

-- The key of `versions`.
abbrev pub version_key : PackageRef → Bytes
version_key r = r.namespace ++ (0 ∷ r.name)

abbrev pub is_conflict : Option Bytes → PackageRef → Bool
is_conflict none r = false
is_conflict (some version) r = not (version == r.version)

abbrev pub lift_metadata : {A : Type 0} → Result MetadataError A → Result ResolveError A
lift_metadata (ok a) = ok a
lift_metadata (err e) = err (bad_metadata e)

abbrev pub resolve_all :
    (PackageRef → Resolver → Result ResolveError Resolver)
    → List PackageRef
    → Resolver
    → Result ResolveError Resolver
resolve_all visit_one [] s = ok s
resolve_all visit_one (r ∷ rest) s = visit_one r s >>= resolve_all visit_one rest

abbrev pub resolved_package : PackageRef → PackageMetadata → List PackageRef → ResolvedPackage
resolved_package r m dependencies = record {
  ref = r;
  full_name = m.full_name;
  download_url = m.download_url;
  file_size = m.file_size;
  is_active = m.is_active;
  dependencies = dependencies;
}

abbrev pub leave_package : PackageRef → PackageMetadata → List PackageRef → Resolver → Resolver
leave_package r m dependencies s = record s {
  visiting = set_flag r false s.visiting;
  visited = set_flag r true s.visited;
  packages = resolved_package r m dependencies ∷ s.packages;
}

abbrev pub enter_package : PackageRef → Resolver → Resolver
enter_package r s = record s { visiting = set_flag r true s.visiting }

abbrev pub note_version : PackageRef → Resolver → Resolver
note_version r s = record s { versions = assign (version_key r) r.version s.versions }

module _ (is_https_url : Bytes → Bool)
    (load_metadata : PackageRef → Result MetadataError PackageMetadata) where
  -- What a package needs, from its validated metadata.
  unfoldable pub load_package : PackageRef → Result ResolveError (PackageMetadata × List PackageRef)
  load_package r = do
    m ← lift_metadata (load_metadata r)
    lift_metadata (validate_metadata is_https_url r m)
    refs ← lift_metadata (parse_dependencies m.dependencies.values)
    ok (m, sort_package_refs refs)

  abbrev pub expand_package :
      (PackageRef → Resolver → Result ResolveError Resolver)
      → PackageRef
      → Resolver
      → Result ResolveError Resolver
  expand_package visit_one r s = do
    loaded ← load_package r
    t ← resolve_all visit_one loaded.1 (enter_package r s)
    ok (leave_package r loaded.0 loaded.1 t)

  abbrev pub visit_noted :
      (PackageRef → Resolver → Result ResolveError Resolver)
      → PackageRef
      → Resolver
      → Bool
      → Bool
      → Result ResolveError Resolver
  visit_noted visit_one r s true is_visited = err (dependency_cycle r)
  visit_noted visit_one r s false true = ok s
  visit_noted visit_one r s false false = expand_package visit_one r s

  abbrev pub visit_checked :
      (PackageRef → Resolver → Result ResolveError Resolver)
      → PackageRef
      → Resolver
      → Bool
      → Result ResolveError Resolver
  visit_checked visit_one r s true = err (conflicting r)
  visit_checked visit_one r s false =
      let t = note_version r s in visit_noted visit_one r t (t.visiting r) (t.visited r)

  -- `graphResolver.visit`
  unfoldable pub visit : ℕ → PackageRef → Resolver → Result ResolveError Resolver
  visit zero r s = err out_of_fuel
  visit (suc depth) r s =
      visit_checked (visit depth) r s (is_conflict (lookup s.versions (version_key r)) r)

abbrev pub fresh_resolver : Resolver
fresh_resolver = record {
  visiting = λ r. false;
  visited = λ r. false;
  versions = [];
  packages = [];
}

-- `packages[ref]`
abbrev pub package_at : List ResolvedPackage → PackageRef → Option ResolvedPackage
package_at [] r = none
package_at (p ∷ rest) r = let later = package_at rest r in if p.ref == r then some p else later

abbrev pub no_package : ResolvedPackage
no_package = record {
  ref = record { namespace = []; name = []; version = [] };
  full_name = [];
  download_url = [];
  file_size = pos 0;
  is_active = false;
  dependencies = [];
}

abbrev pub package_or_zero : Option ResolvedPackage → ResolvedPackage
package_or_zero none = no_package
package_or_zero (some p) = p

abbrev pub lift_roots : {A : Type 0} → Result RootError A → Result ResolveError A
lift_roots (ok a) = ok a
lift_roots (err e) = err (bad_roots e)

abbrev pub lift_order : {A : Type 0} → Result OrderError A → Result ResolveError A
lift_order (ok a) = ok a
lift_order (err e) = err (bad_order e)

abbrev pub dependency_map : List ResolvedPackage → Dependencies
dependency_map packages = map (λ (p : ResolvedPackage). (p.ref, p.dependencies)) packages

-- `resolvedPackagesInCanonicalOrder`; the key of a package is its own reference.
unfoldable pub resolved_packages_in_canonical_order :
    List PackageRef → List ResolvedPackage → Result ResolveError (List ResolvedPackage)
resolved_packages_in_canonical_order roots packages = do
  order ← lift_order (canonical_package_order roots (dependency_map packages))
  ok (map (λ r. package_or_zero (package_at packages r)) order)

-- `packageResponse`
pub record PackageResponse : Type 0 where
  pub namespace : Bytes
  pub name : Bytes
  pub full_name : Bytes
  pub latest : PackageMetadata

unfoldable pub latest_ref : RootSelection → PackageResponse → Result ResolveError PackageRef
latest_ref selection response = do
  guard
      (response.namespace == selection.namespace
        && (response.name == selection.name
            && response.full_name == package_full_name selection.namespace selection.name))
      root_mismatch
  let latest : PackageMetadata = response.latest
  let ref : PackageRef = record {
    namespace = selection.namespace;
    name = selection.name;
    version = latest.version;
  }
  guard
      (latest.namespace == selection.namespace
        && (latest.name == selection.name
            && (semantic_version latest.version
                && latest.full_name == package_version_full_name ref)))
      latest_mismatch
  ok ref

module _ (is_https_url : Bytes → Bool)
    (load_metadata : PackageRef → Result MetadataError PackageMetadata) where
  -- `Resolve`, from the resolved roots on.
  unfoldable pub resolve_from : ℕ → List PackageRef → Result ResolveError ResolvedGraph
  resolve_from depth roots = do
    s ← resolve_all (visit is_https_url load_metadata depth) roots fresh_resolver
    packages ← resolved_packages_in_canonical_order roots s.packages
    ok (record { roots = roots; packages = packages })

module _ (is_https_url : Bytes → Bool)
    (load_metadata : PackageRef → Result MetadataError PackageMetadata)
    (load_response : Bytes → Bytes → Result MetadataError PackageResponse) where
  -- `resolveRoot`
  unfoldable pub resolve_root : RootSelection → Result ResolveError PackageRef
  unfolding latest_ref
  resolve_root s =
      if not (s.version == codes "latest")
      then ok (record { namespace = s.namespace; name = s.name; version = s.version })
      else lift_metadata (load_response s.namespace s.name) >>= latest_ref s

  unfoldable pub resolve_roots : List RootSelection → Result ResolveError (List PackageRef)
  resolve_roots [] = ok []
  resolve_roots (s ∷ rest) = do ref ← resolve_root s; refs ← resolve_roots rest; ok (ref ∷ refs)

  -- `Resolve`, with its fuel first.
  unfoldable pub resolve : ℕ → List RootSelection → Result ResolveError ResolvedGraph
  resolve depth selections = do
    ordered ← lift_roots (validate_root_selections selections)
    roots ← resolve_roots ordered
    resolve_from is_https_url load_metadata depth roots

-- ===== src/Graph/Tests.antt =====
-- Runs of the package graph, and the theorems at them.
use docker_vrising.Config.{semantic_version}
use docker_vrising.Prelude.{
  ℕ, suc, ◌≡◌, ◌≢◌, ◌≤◌, ◌<◌, refl, true, false, Option, some, List, [], ◌∷◌, ◌==◌, nat_eq,
  bytes_eq, Bytes, codes, bytes_beq, length, if◌then◌else◌,
}
use docker_vrising.Prelude.Result.{ok, err}
use mathlib.Core.List.{Permᴰ}
use docker_vrising.State.{pos, PackageRef, LockedPackage, PackageLock, package_ref_eq}
use docker_vrising.Order.{sort}
use docker_vrising.Graph.Samples.{commands, factory, framework, graph, graph_order}
use docker_vrising.Graph.Metadata.{
  Response, parse_dependency, package_version_full_name, get_json, is_reference,
}
use docker_vrising.Graph.Metadata.RoundTrip.{parse_dependency-package_version_full_name}
use docker_vrising.Graph.Metadata.Requests.{get_json-IsRetried, IsRetried}
use docker_vrising.Graph.Canonical.{Dependencies, canonical_package_order, out_of_fuel, cycle}
use docker_vrising.Graph.Canonical.Ordered.{IsCanonical, canonical_package_order-IsCanonical}
use docker_vrising.Graph.Canonical.Total.{canonical_package_order-ends}
use docker_vrising.Graph.Digest.{
  CanonicalPackageLock, package_lock_digest, package_lock_digest-IsSameGraph,
}

graph_order_lem : canonical_package_order (commands ∷ factory ∷ []) graph ≡ ok graph_order
unfolding canonical_package_order bytes_beq sort
graph_order_lem = refl

canonical_package_order-IsCanonical_example :
    IsCanonical graph (commands ∷ factory ∷ []) graph_order
canonical_package_order-IsCanonical_example =
    canonical_package_order-IsCanonical graph (commands ∷ factory ∷ []) graph_order_lem

abbrev knot : Dependencies
knot = (commands, framework ∷ []) ∷ (framework, commands ∷ []) ∷ []

knot_cycle : canonical_package_order (commands ∷ []) knot ≡ err (cycle commands)
unfolding canonical_package_order bytes_beq sort
knot_cycle = refl

canonical_package_order-ends_example :
    canonical_package_order (commands ∷ []) knot ≢ err out_of_fuel
canonical_package_order-ends_example = canonical_package_order-ends knot (commands ∷ [])

abbrev name_dependency_example : Bytes
name_dependency_example = codes "deca-Core-Kit-3.0.1"

framework_IsReference : is_reference framework.namespace framework.name framework.version ≡ true
unfolding bytes_beq semantic_version
framework_IsReference = refl

framework_parsed : parse_dependency name_dependency_example ≡ ok framework
unfolding parse_dependency bytes_beq semantic_version
framework_parsed = refl

parse_dependency-package_version_full_name_example :
    parse_dependency (package_version_full_name framework) ≡ ok framework
parse_dependency-package_version_full_name_example =
    parse_dependency-package_version_full_name framework framework_IsReference

abbrev lock_of : List PackageRef → List LockedPackage → PackageLock
lock_of roots packages = record {
  schema_version = 1;
  roots = roots;
  packages = packages;
  digest = [];
  resolved_at = 0;
}

abbrev locked : PackageRef → List PackageRef → LockedPackage
locked ref dependencies = record {
  ref = ref;
  full_name = ref.name;
  download_url = [];
  file_size = pos 7;
  sha256 = [];
  dependencies = dependencies;
}

abbrev hash_roots : CanonicalPackageLock → Bytes
hash_roots lock = length lock.roots ∷ length lock.packages ∷ []

package_lock_digest-IsSameGraph_example :
    package_lock_digest hash_roots (
      lock_of
        (commands ∷ factory ∷ [])
        (locked commands (framework ∷ factory ∷ []) ∷ locked framework [] ∷ []))
    ≡ package_lock_digest hash_roots (
        lock_of
          (factory ∷ commands ∷ [])
          (locked framework [] ∷ locked commands (factory ∷ framework ∷ []) ∷ []))
unfolding bytes_beq
package_lock_digest-IsSameGraph_example =
    package_lock_digest-IsSameGraph hash_roots
      (lock_of (commands ∷ factory ∷ [])
        (locked commands (framework ∷ factory ∷ []) ∷ locked framework [] ∷ []))
      (lock_of (factory ∷ commands ∷ [])
        (locked framework [] ∷ locked commands (factory ∷ framework ∷ []) ∷ []))
      ((refl, tt), (tt, tt))
      (record {
        schema_version = refl;
        roots = Permᴰ.swap refl refl;
        between = locked framework [] ∷ locked commands (framework ∷ factory ∷ []) ∷ [];
        packages = Permᴰ.swap refl refl;
        same = (
          record {
            ref = refl;
            full_name = refl;
            download_url = refl;
            file_size = refl;
            sha256 = refl;
            dependencies = Permᴰ.nil;
          },
          (
            record {
              ref = refl;
              full_name = refl;
              download_url = refl;
              file_size = refl;
              sha256 = refl;
              dependencies = Permᴰ.swap refl refl;
            },
            tt,
          ),
        );
      })

abbrev retrying : ℕ → Option (Response Bytes)
retrying attempt = some (record { status = if attempt == 0 then 503 else 200; body = some [] })

get_json-IsRetried_example :
    ((get_json retrying (λ n. false)).1 ≤ 3)
    × ((i : ℕ) → suc i < (get_json retrying (λ n. false)).1 → IsRetried retrying (λ n. false) i)
get_json-IsRetried_example = get_json-IsRetried retrying (λ n. false)

-- ===== src/Graph/Runs.antt =====
-- Runs of the resolver and of the roots, and the theorems at them.
use docker_vrising.Order.{sort}
use docker_vrising.Config.{semantic_version}
use docker_vrising.Prelude.{
  ◌≡◌, ◌⊎◌, ◌<◌, refl, Bool, true, false, List, [], ◌∷◌, ◌==◌, nat_eq, bytes_eq, Bytes, codes,
  bytes_beq, arith, if◌then◌else◌, All, Bool-cases, inl, inr, subst,
}
use docker_vrising.Prelude.Result.{Result, ok, err}
use docker_vrising.State.{pos, PackageRef, package_ref_eq, ref_beq, ref_beq_iff}
use docker_vrising.Graph.Samples.{commands, factory, framework, rank, two_selections}
use docker_vrising.Graph.Roots.{RootSelection, validate_root_selections, kindred, satisvampory}
use docker_vrising.Graph.Roots.Accepted.{validate_root_selections-IsSelection, IsSelection}
use docker_vrising.Graph.Metadata.{
  parse_dependencies, validate_metadata, package_full_name, PackageMetadata, MetadataError,
  request_failed, package_version_full_name,
}
use docker_vrising.Graph.Canonical.{Dependencies, canonical_package_order}
use docker_vrising.Graph.Canonical.Topological.{contains}
use docker_vrising.Graph.Canonical.Ordered.{keys}
use docker_vrising.Graph.Canonical.Acyclic.{IsKnown, IsRanked}
use docker_vrising.Graph.Canonical.Reachable.{
  canonical_package_order-Succeeds, Reaches, root, dependency,
}
use docker_vrising.Graph.Resolver.{
  resolved_packages_in_canonical_order, load_package, resolve_from, resolve_root, resolve_roots,
  ResolvedGraph, PackageResponse, resolve, resolve_all, visit, fresh_resolver, dependency_cycle,
  resolved_package,
}
use docker_vrising.Graph.Resolver.Resolved.{IsGraph, resolve-IsGraph}
use docker_vrising.Graph.Resolver.Finite.{resolve_all-ends, is_out_of_fuel}

abbrev ordered_selections : List RootSelection
ordered_selections =
    record { namespace = commands.namespace; name = commands.name; version = codes "latest" }
    ∷ record { namespace = factory.namespace; name = factory.name; version = codes "0.2.0" }
    ∷ []

two_selections_lem : validate_root_selections two_selections ≡ ok ordered_selections
unfolding validate_root_selections bytes_beq semantic_version
two_selections_lem = refl

validate_root_selections-IsSelection_example :
    (first second : RootSelection) × (ordered_selections ≡ first ∷ second ∷ [])
    × IsSelection kindred first
    × IsSelection satisvampory second
    × ((two_selections ≡ ordered_selections) ⊎ (two_selections ≡ second ∷ first ∷ []))
validate_root_selections-IsSelection_example =
    validate_root_selections-IsSelection two_selections two_selections_lem

abbrev metadata_of : PackageRef → List Bytes → PackageMetadata
metadata_of r dependencies = record {
  namespace = r.namespace;
  name = r.name;
  version = r.version;
  full_name = package_version_full_name r;
  dependencies = record { values = dependencies; present = true; null = false };
  download_url = codes "https://x";
  file_size = pos 7;
  is_active = true;
}

abbrev service : PackageRef → Result MetadataError PackageMetadata
service r =
    if r == commands
    then ok (metadata_of commands (codes "deca-Core-Kit-3.0.1" ∷ []))
    else if r == framework
    then ok (metadata_of framework [])
    else if r == factory
    then ok (metadata_of factory (codes "deca-Core-Kit-3.0.1" ∷ []))
    else err request_failed

abbrev any_url : Bytes → Bool
any_url url = true

abbrev latest : Bytes → Bytes → Result MetadataError PackageResponse
latest namespace name = ok (record {
  namespace = namespace;
  name = name;
  full_name = codes "odjit-KindredCommands";
  latest = metadata_of commands [];
})

abbrev resolved_graph : ResolvedGraph
resolved_graph = record {
  roots = commands ∷ factory ∷ [];
  packages =
      resolved_package framework (metadata_of framework []) []
      ∷ resolved_package commands (metadata_of commands []) (framework ∷ [])
      ∷ resolved_package factory (metadata_of factory []) (framework ∷ [])
      ∷ [];
}

resolved_graph_lem : resolve any_url service latest 4 two_selections ≡ ok resolved_graph
unfolding resolve validate_root_selections bytes_beq semantic_version resolve_roots resolve_root
    package_full_name package_version_full_name resolve_from visit load_package validate_metadata
    parse_dependencies sort resolved_packages_in_canonical_order canonical_package_order
resolved_graph_lem = refl

resolve-IsGraph_example : IsGraph any_url service resolved_graph
resolve-IsGraph_example = resolve-IsGraph any_url service latest 4 two_selections resolved_graph_lem

abbrev knotted : PackageRef → Result MetadataError PackageMetadata
knotted r =
    if r == framework
    then ok (metadata_of framework (codes "deca-Core-Kit-3.0.1" ∷ []))
    else err request_failed

knotted_known :
    (r : PackageRef) (m : PackageMetadata) → knotted r ≡ ok m → contains (framework ∷ []) r ≡ true
knotted_known r m h = elim (Bool-cases (ref_beq framework r)) [
  | inl e ↦ ground (arith, e)
  | inr e ↦ ground (arith, ref_beq_iff framework r, ref_beq_iff r framework)
]

knotted_cycle :
    resolve_all (visit any_url knotted 2) (framework ∷ []) fresh_resolver
    ≡ err (dependency_cycle framework)
unfolding visit load_package bytes_beq validate_metadata parse_dependencies semantic_version sort
knotted_cycle = refl

resolve_all-ends_example : is_out_of_fuel (dependency_cycle framework) ≡ false
resolve_all-ends_example =
    resolve_all-ends any_url knotted (framework ∷ []) knotted_known (framework ∷ [])
      (dependency_cycle framework) knotted_cycle

abbrev chain : Dependencies
chain = (commands, framework ∷ []) ∷ (framework, []) ∷ []

abbrev Below : PackageRef → PackageRef → Type 0
Below q d = IsKnown chain rank d × (rank d < rank q)

chain_commands : All (Below commands) (framework ∷ [])
unfolding bytes_beq
chain_commands = ((([], refl), omega arith), tt)

chain_commands_of : (ds : List PackageRef) → framework ∷ [] ≡ ds → All (Below commands) ds
chain_commands_of ds e = subst (All (Below commands)) e chain_commands

chain_framework : (r : PackageRef) (ds : List PackageRef) → [] ≡ ds → All (Below r) ds
chain_framework r ds e = subst (All (Below r)) e tt

chain_ranked : IsRanked chain rank
chain_ranked r ds h = elim (Bool-cases (ref_beq commands r)) [
  | inl e ↦
      subst (λ q. All (Below q) ds) ((ref_beq_iff commands r).0 e)
        (chain_commands_of ds (ground (arith, h, e)))
  | inr e ↦ elim (Bool-cases (ref_beq framework r)) [
    | inl f ↦ chain_framework r ds (ground (arith, h, e, f))
    | inr f ↦ absurd (ground (arith, h, e, f))
  ]
]

commands_reached : Reaches chain (commands ∷ []) commands
unfolding bytes_beq
commands_reached = root refl

framework_reached : Reaches chain (commands ∷ []) framework
unfolding bytes_beq
framework_reached = dependency {ds = framework ∷ []} commands_reached refl refl

chain_reached : (r : PackageRef) → contains (keys chain) r ≡ true → Reaches chain (commands ∷ []) r
chain_reached r h = elim (Bool-cases (ref_beq commands r)) [
  | inl e ↦ subst (Reaches chain (commands ∷ [])) ((ref_beq_iff commands r).0 e) commands_reached
  | inr e ↦
      subst (Reaches chain (commands ∷ [])) ((ref_beq_iff framework r).0 (ground (arith, h, e)))
        framework_reached
]

canonical_package_order-Succeeds_example :
    (order : List PackageRef) × (canonical_package_order (commands ∷ []) chain ≡ ok order)
unfolding bytes_beq
canonical_package_order-Succeeds_example =
    canonical_package_order-Succeeds chain rank (commands ∷ []) chain_ranked
      ((framework ∷ [], refl), tt) (refl, (refl, tt)) chain_reached

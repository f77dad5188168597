-- ===== src/Graph/Resolver/Resolved.antt =====
-- The graph that `Resolve` returns.
use docker_vrising.Prelude.{
  ℕ, Bool, false, ◌≡◌, refl, sym, some, List, [], ◌∷◌, ◌++◌, map, arith, Bool-cases, inl, inr,
  subst, All, Bytes, ap, ◌∙◌,
}
use docker_vrising.Prelude.Result.{Result, ok, err, ◌>>=◌, >>=-eq-ok}
use docker_vrising.State.{PackageRef, package_ref_eq, ref_beq, ref_beq_iff}
use docker_vrising.Config.{Environment, lookup}
use docker_vrising.Graph.Roots.{RootSelection, validate_root_selections}
use docker_vrising.Graph.Metadata.{PackageMetadata, MetadataError}
use docker_vrising.Graph.Canonical.{dependencies_of, canonical_package_order, OrderError}
use docker_vrising.Graph.Canonical.Topological.{contains, AllIn, IsReady, IsTopological}
use docker_vrising.Graph.Canonical.Ordered.{canonical_package_order-IsCanonical}
use docker_vrising.Graph.Resolver.{
  ResolvedPackage, ResolvedGraph, Resolver, PackageResponse, version_key, dependency_map,
  package_at, package_or_zero, lift_order, lift_roots, load_package, resolved_package,
  resolve_roots, resolve_all, visit, fresh_resolver, resolved_packages_in_canonical_order, resolve,
  resolve_from,
}
use docker_vrising.Graph.Resolver.Walk.{IsResolved, IsConsistent}
use docker_vrising.Graph.Resolver.Visit.{resolved-Went}

record Found (P : ResolvedPackage → Type 0) (packages : List ResolvedPackage) (r : PackageRef)
    (ds : List PackageRef) : Type 0 where
  value : ResolvedPackage
  found : package_at packages r ≡ some value
  ref : value.ref ≡ r
  dependencies : value.dependencies ≡ ds
  holds : P value

Found-lem :
    (P : ResolvedPackage → Type 0) (packages : List ResolvedPackage) (r : PackageRef)
    (ds : List PackageRef)
    → All P packages
    → dependencies_of (dependency_map packages) r ≡ some ds
    → Found P packages r ds
Found-lem P [] r ds a h = cc
Found-lem P (p ∷ packages) r ds a h = elim (Bool-cases (ref_beq p.ref r)) [
  | inl e ↦ record {
    value = p;
    found = ground arith;
    ref = (ref_beq_iff p.ref r).0 e;
    dependencies = ground arith;
    holds = a.0;
  }
  | inr e ↦
      let f = Found-lem P packages r ds a.1 (ground arith) in
      record {
        value = f.value;
        found = ground (arith, f.found);
        ref = f.ref;
        dependencies = f.dependencies;
        holds = f.holds;
      }
]

module _ (is_https_url : Bytes → Bool)
    (load_metadata : PackageRef → Result MetadataError PackageMetadata) where
  -- One package of the graph: it is what its validated metadata says, it comes once and after its
  -- dependencies, and its version is the one that `versions` has for its name.
  pub record IsPlaced (versions : Environment) (before : List PackageRef) (p : ResolvedPackage)
      : Type 0 where
    pub metadata : PackageMetadata
    pub loaded : load_package is_https_url load_metadata p.ref ≡ ok (metadata, p.dependencies)
    pub described : p ≡ resolved_package p.ref metadata p.dependencies
    pub placed : AllIn before p.dependencies
    pub fresh : contains before p.ref ≡ false
    pub noted : lookup versions (version_key p.ref) ≡ some p.ref.version

  abbrev pub ArePlaced : Environment → List PackageRef → List ResolvedPackage → Type 0
  ArePlaced versions before [] = Unit
  ArePlaced versions before (p ∷ packages) =
      IsPlaced versions before p × ArePlaced versions (before ++ (p.ref ∷ [])) packages

  pub record IsGraph (g : ResolvedGraph) : Type 0 where
    pub versions : Environment
    pub placed : ArePlaced versions [] g.packages
    pub rooted : AllIn (map (λ (p : ResolvedPackage). p.ref) g.packages) g.roots

  abbrev at : Resolver → PackageRef → ResolvedPackage
  at s r = package_or_zero (package_at s.packages r)

  module _ (s : Resolver) (consistent : IsConsistent is_https_url load_metadata s) where
    abbrev Resolved : ResolvedPackage → Type 0
    Resolved = IsResolved is_https_url load_metadata s.versions s.packages

    at-IsPlaced :
        (before : List PackageRef) (r : PackageRef)
        → IsReady (dependency_map s.packages) before r
        → IsPlaced s.versions before (at s r) × ((at s r).ref ≡ r)
    at-IsPlaced before r i =
        let f = Found-lem Resolved s.packages r i.dependencies consistent.every i.known in
        let here : IsPlaced s.versions before f.value = record {
          metadata = f.holds.metadata;
          loaded = f.holds.loaded;
          described = f.holds.described;
          placed = subst (AllIn before) (sym f.dependencies) i.placed;
          fresh = subst (λ q. contains before q ≡ false) (sym f.ref) i.fresh;
          noted = f.holds.noted;
        } in
        let same : at s r ≡ f.value = ap package_or_zero f.found in
        (
          subst (IsPlaced s.versions before) (sym same) here,
          ap (λ (p : ResolvedPackage). p.ref) same ∙ f.ref,
        )

    order-ArePlaced :
        (before order : List PackageRef)
        → IsTopological (dependency_map s.packages) before order
        → ArePlaced s.versions before (map (at s) order)
          × (map (λ (p : ResolvedPackage). p.ref) (map (at s) order) ≡ order)
    order-ArePlaced before [] t = (tt, refl)
    order-ArePlaced before (r ∷ order) t =
        let (here, same) = at-IsPlaced before r t.0 in
        let (rest, again) = order-ArePlaced (before ++ (r ∷ [])) order t.1 in
        (
          (
            here,
            subst (λ q. ArePlaced s.versions (before ++ (q ∷ [])) (map (at s) order)) (sym same)
                rest,
          ),
          λ i. same i ∷ again i,
        )

  lift_order-ok : {A : Type 0} (r : Result OrderError A) {a : A} → lift_order r ≡ ok a → r ≡ ok a
  lift_order-ok (ok x) h = ground arith
  lift_order-ok (err e) h = cc

  resolved_packages-ok :
      (roots : List PackageRef) (s : Resolver) {packages : List ResolvedPackage}
      → resolved_packages_in_canonical_order roots s.packages ≡ ok packages
      → (order : List PackageRef) × (canonical_package_order roots (dependency_map s.packages)
          ≡ ok order)
        × (packages ≡ map (at s) order)
  unfolding resolved_packages_in_canonical_order
  resolved_packages-ok roots s h =
      let (order, first, second) =
        >>=-eq-ok (lift_order (canonical_package_order roots (dependency_map s.packages)))
          (λ order. ok (map (at s) order)) h in
      (
        order,
        lift_order-ok (canonical_package_order roots (dependency_map s.packages)) first,
        ground (arith, second),
      )

  resolve_from-IsGraph :
      (depth : ℕ) (roots : List PackageRef) {g : ResolvedGraph}
      → resolve_from is_https_url load_metadata depth roots ≡ ok g
      → IsGraph g
  unfolding resolve_from
  resolve_from-IsGraph depth roots {g = g} h =
      let (s, walked, rest) =
        >>=-eq-ok (resolve_all (visit is_https_url load_metadata depth) roots fresh_resolver)
          (λ s. resolved_packages_in_canonical_order roots s.packages >>= λ packages.
            ok (record { roots = roots; packages = packages }))
          h in
      let (packages, packed, last) =
        >>=-eq-ok (resolved_packages_in_canonical_order roots s.packages)
          (λ packages. ok (record { roots = roots; packages = packages })) rest in
      let (order, ordered, same) = resolved_packages-ok roots s packed in
      let went = resolved-Went is_https_url load_metadata depth roots s walked in
      let c = canonical_package_order-IsCanonical (dependency_map s.packages) roots ordered in
      let (placed, refs) = order-ArePlaced s went.consistent [] order c.topological in
      let whole : IsGraph (record { roots = roots; packages = map (at s) order }) = record {
        versions = s.versions;
        placed = placed;
        rooted = subst (λ l. AllIn l roots) (sym refs) c.rooted;
      } in
      subst IsGraph (ground (arith, same, last)) whole

  -- The packages that `Resolve` returns: each is what its validated metadata says, comes once and
  -- after its dependencies, and no two of the same name have different versions; every root is there.
  pub resolve-IsGraph :
      (load_response : Bytes → Bytes → Result MetadataError PackageResponse) (depth : ℕ)
      (selections : List RootSelection) {g : ResolvedGraph}
      → resolve is_https_url load_metadata load_response depth selections ≡ ok g
      → IsGraph g
  unfolding resolve
  resolve-IsGraph load_response depth selections h =
      let (ordered, first, rest) =
        >>=-eq-ok (lift_roots (validate_root_selections selections))
          (λ ordered. resolve_roots is_https_url load_metadata load_response ordered >>= λ roots.
            resolve_from is_https_url load_metadata depth roots)
          h in
      let (roots, second, last) =
        >>=-eq-ok (resolve_roots is_https_url load_metadata load_response ordered)
          (resolve_from is_https_url load_metadata depth) rest in
      resolve_from-IsGraph depth roots last

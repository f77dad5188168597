-- ===== src/Graph/Resolver/Walk.antt =====
-- What each call of `graphResolver.visit` adds to the resolved packages.
use docker_vrising.Prelude.{
  Bool, true, false, ◌≡◌, refl, some, List, [], ◌∷◌, ◌==◌, any, bytes_eq, bytes_beq_iff, Bytes,
  arith, subst, All, All-map,
}
use docker_vrising.Prelude.Result.{Result, ok, >>=-eq-ok}
use docker_vrising.State.{PackageRef, package_ref_eq, ref_beq_iff}
use docker_vrising.Config.{Environment, lookup}
use docker_vrising.Config.Game.{lookup-assign}
use docker_vrising.Graph.Metadata.{PackageMetadata, MetadataError}
use docker_vrising.Graph.Resolver.{
  ResolvedPackage, ResolveError, Resolver, version_key, is_conflict, resolve_all, resolved_package,
  leave_package, note_version, load_package,
}

abbrev pub has : List ResolvedPackage → PackageRef → Bool
has packages r = any (λ (p : ResolvedPackage). p.ref == r) packages

module _ (is_https_url : Bytes → Bool)
    (load_metadata : PackageRef → Result MetadataError PackageMetadata) where
  -- The package is what its validated metadata says, its dependencies are resolved, and its version
  -- is the one noted for its name.
  pub record IsResolved (versions : Environment) (packages : List ResolvedPackage)
      (p : ResolvedPackage) : Type 0 where
    pub metadata : PackageMetadata
    pub loaded : load_package is_https_url load_metadata p.ref ≡ ok (metadata, p.dependencies)
    pub described : p ≡ resolved_package p.ref metadata p.dependencies
    pub complete : All (λ d. has packages d ≡ true) p.dependencies
    pub noted : lookup versions (version_key p.ref) ≡ some p.ref.version

  pub record IsConsistent (s : Resolver) : Type 0 where
    pub marked : (q : PackageRef) → s.visited q ≡ has s.packages q
    pub every : All (IsResolved s.versions s.packages) s.packages

  pub record Goes (s t : Resolver) : Type 0 where
    pub kept : (q : PackageRef) → has s.packages q ≡ true → has t.packages q ≡ true
    pub noted :
        (key version : Bytes)
        → lookup s.versions key ≡ some version
        → lookup t.versions key ≡ some version

  pub record Went (s : Resolver) (rs : List PackageRef) (t : Resolver) : Type 0 where
    pub consistent : IsConsistent t
    pub goes : Goes s t
    pub reached : All (λ r. has t.packages r ≡ true) rs

  abbrev pub Visits : (PackageRef → Resolver → Result ResolveError Resolver) → Type 0
  Visits visit_one =
      (r : PackageRef) (s t : Resolver) → IsConsistent s → visit_one r s ≡ ok t → Went s (r ∷ []) t

  pub Goes-refl : (s : Resolver) → Goes s s
  Goes-refl s = record { kept = λ q k. k; noted = λ key v k. k }

  pub Goes-trans : (s t u : Resolver) → Goes s t → Goes t u → Goes s u
  Goes-trans s t u a b = record {
    kept = λ q k. b.kept q (a.kept q k);
    noted = λ key v k. b.noted key v (a.noted key v k);
  }

  -- What is resolved stays so as the resolver goes on.
  IsResolved-Goes :
      (s t : Resolver) (p : ResolvedPackage)
      → Goes s t
      → IsResolved s.versions s.packages p
      → IsResolved t.versions t.packages p
  IsResolved-Goes s t p g i = record {
    metadata = i.metadata;
    loaded = i.loaded;
    described = i.described;
    complete = All-map {P = λ d. has s.packages d ≡ true} g.kept p.dependencies i.complete;
    noted = g.noted (version_key p.ref) p.ref.version i.noted;
  }

  pub resolve_all-Went :
      (visit_one : PackageRef → Resolver → Result ResolveError Resolver)
      → Visits visit_one
      → (rs : List PackageRef) (s t : Resolver) → IsConsistent s
      → resolve_all visit_one rs s ≡ ok t
      → Went s rs t
  resolve_all-Went visit_one step [] s t i h =
      subst (Went s []) (ground arith) (record { consistent = i; goes = Goes-refl s; reached = tt })
  resolve_all-Went visit_one step (r ∷ rs) s t i h =
      let (u, first, second) = >>=-eq-ok (visit_one r s) (resolve_all visit_one rs) h in
      let a = step r s u i first in
      let b = resolve_all-Went visit_one step rs u t a.consistent second in
      record {
        consistent = b.consistent;
        goes = Goes-trans s u t a.goes b.goes;
        reached = (b.goes.kept r a.reached.0, b.reached);
      }

  -- A version noted without a conflict changes none that was noted before.
  pub note_version-Goes :
      (r : PackageRef) (s : Resolver)
      → is_conflict (lookup s.versions (version_key r)) r ≡ false
      → Goes s (note_version r s)
  note_version-Goes r s h = record {
    kept = λ q k. k;
    noted = λ key v k. ground (
      arith,
      lookup-assign (version_key r) r.version s.versions key,
      bytes_beq_iff (version_key r) key,
      bytes_beq_iff v r.version,
      k,
      h,
    );
  }

  pub note_version-IsConsistent :
      (r : PackageRef) (s : Resolver)
      → is_conflict (lookup s.versions (version_key r)) r ≡ false
      → IsConsistent s
      → IsConsistent (note_version r s)
  note_version-IsConsistent r s h i = record {
    marked = i.marked;
    every =
        All-map {P = IsResolved s.versions s.packages}
          (λ p. IsResolved-Goes s (note_version r s) p (note_version-Goes r s h)) s.packages
          i.every;
  }

  module _ (r : PackageRef) (m : PackageMetadata) (ds : List PackageRef) (t : Resolver) where
    pub leave_package-Goes : Goes t (leave_package r m ds t)
    leave_package-Goes = record { kept = λ q k. ground arith; noted = λ key v k. k }

    pub leave_package-IsConsistent :
        IsConsistent t
        → load_package is_https_url load_metadata r ≡ ok (m, ds)
        → All (λ d. has t.packages d ≡ true) ds
        → lookup t.versions (version_key r) ≡ some r.version
        → IsConsistent (leave_package r m ds t)
    leave_package-IsConsistent i loaded reached noted = record {
      marked = λ q. ground (arith, i.marked q, ref_beq_iff r q);
      every = (
        record {
          metadata = m;
          loaded = loaded;
          described = refl;
          complete = All-map {P = λ d. has t.packages d ≡ true} leave_package-Goes.kept ds reached;
          noted = noted;
        },
        All-map {P = IsResolved t.versions t.packages}
            (λ p. IsResolved-Goes t (leave_package r m ds t) p leave_package-Goes) t.packages
            i.every,
      );
    }

-- ===== src/Graph/Resolver/Visit.antt =====
-- `graphResolver.visit` by its branches, down to any depth.
use docker_vrising.Prelude.{
  ℕ, zero, suc, Bool, true, false, ◌≡◌, refl, some, List, [], ◌∷◌, bytes_eq, bytes_beq_iff, Bytes,
  arith, subst,
}
use docker_vrising.Prelude.Result.{Result, ok, ◌>>=◌, >>=-eq-ok}
use docker_vrising.State.{PackageRef, package_ref_eq, ref_beq_iff}
use docker_vrising.Config.{lookup}
use docker_vrising.Config.Game.{lookup-assign}
use docker_vrising.Graph.Metadata.{PackageMetadata, MetadataError}
use docker_vrising.Graph.Resolver.{
  ResolveError, Resolver, version_key, is_conflict, resolve_all, leave_package, enter_package,
  note_version, load_package, expand_package, visit_noted, visit_checked, visit, fresh_resolver,
}
use docker_vrising.Graph.Resolver.Walk.{
  IsConsistent, Went, Visits, Goes-refl, Goes-trans, resolve_all-Went, note_version-Goes,
  note_version-IsConsistent, leave_package-Goes, leave_package-IsConsistent,
}

module _ (is_https_url : Bytes → Bool)
    (load_metadata : PackageRef → Result MetadataError PackageMetadata) where
  module _ (visit_one : PackageRef → Resolver → Result ResolveError Resolver)
      (step : Visits is_https_url load_metadata visit_one) where
    expand_package-Went :
        (r : PackageRef) (s t : Resolver)
        → IsConsistent is_https_url load_metadata s
        → lookup s.versions (version_key r) ≡ some r.version
        → expand_package is_https_url load_metadata visit_one r s ≡ ok t
        → Went is_https_url load_metadata s (r ∷ []) t
    expand_package-Went r s t i noted h =
        let (loaded, first, rest) =
          >>=-eq-ok (load_package is_https_url load_metadata r)
            (λ loaded. resolve_all visit_one loaded.1 (enter_package r s) >>= λ t.
              ok (leave_package r loaded.0 loaded.1 t))
            h in
        let (u, second, last) =
          >>=-eq-ok (resolve_all visit_one loaded.1 (enter_package r s))
            (λ t. ok (leave_package r loaded.0 loaded.1 t)) rest in
        let here : IsConsistent is_https_url load_metadata (enter_package r s) = record {
          marked = i.marked;
          every = i.every;
        } in
        let went =
          resolve_all-Went is_https_url load_metadata visit_one step loaded.1 (enter_package r s) u
            here second in
        let v = leave_package r loaded.0 loaded.1 u in
        let onward = leave_package-Goes is_https_url load_metadata r loaded.0 loaded.1 u in
        subst (Went is_https_url load_metadata s (r ∷ [])) (ground arith) (record {
          consistent =
              leave_package-IsConsistent is_https_url load_metadata r loaded.0 loaded.1 u
                went.consistent first went.reached
                (went.goes.noted (version_key r) r.version noted);
          goes = record {
            kept = λ q k. onward.kept q (went.goes.kept q k);
            noted = λ key x k. onward.noted key x (went.goes.noted key x k);
          };
          reached = (ground (arith, ref_beq_iff r r), tt);
        })

    visit_noted-Went :
        (r : PackageRef) (s t : Resolver) (is_visiting is_visited : Bool)
        → s.visited r ≡ is_visited
        → IsConsistent is_https_url load_metadata s
        → lookup s.versions (version_key r) ≡ some r.version
        → visit_noted is_https_url load_metadata visit_one r s is_visiting is_visited ≡ ok t
        → Went is_https_url load_metadata s (r ∷ []) t
    visit_noted-Went r s t true is_visited e i noted h = cc
    visit_noted-Went r s t false true e i noted h =
        subst (Went is_https_url load_metadata s (r ∷ [])) (ground arith) (record {
          consistent = i;
          goes = Goes-refl is_https_url load_metadata s;
          reached = (ground (arith, i.marked r), tt);
        })
    visit_noted-Went r s t false false e i noted h = expand_package-Went r s t i noted h

    visit_checked-Went :
        (r : PackageRef) (s t : Resolver) (b : Bool)
        → is_conflict (lookup s.versions (version_key r)) r ≡ b
        → IsConsistent is_https_url load_metadata s
        → visit_checked is_https_url load_metadata visit_one r s b ≡ ok t
        → Went is_https_url load_metadata s (r ∷ []) t
    visit_checked-Went r s t true e i h = cc
    visit_checked-Went r s t false e i h =
        let u = note_version r s in
        let first = note_version-Goes is_https_url load_metadata r s e in
        let went =
          visit_noted-Went r u t (u.visiting r) (u.visited r) refl
            (note_version-IsConsistent is_https_url load_metadata r s e i)
            (ground (
              arith,
              lookup-assign (version_key r) r.version s.versions (version_key r),
              bytes_beq_iff (version_key r) (version_key r),
            ))
            h in
        record {
          consistent = went.consistent;
          goes = Goes-trans is_https_url load_metadata s u t first went.goes;
          reached = went.reached;
        }

  visit-Visits :
      (depth : ℕ) → Visits is_https_url load_metadata (visit is_https_url load_metadata depth)
  unfolding visit
  visit-Visits zero r s t i h = cc
  visit-Visits (suc depth) r s t i h =
      visit_checked-Went (visit is_https_url load_metadata depth) (visit-Visits depth) r s t
        (is_conflict (lookup s.versions (version_key r)) r) refl i h

  pub fresh_resolver-IsConsistent : IsConsistent is_https_url load_metadata fresh_resolver
  fresh_resolver-IsConsistent = record { marked = λ q. refl; every = tt }

  pub resolved-Went :
      (depth : ℕ) (roots : List PackageRef) (s : Resolver)
      → resolve_all (visit is_https_url load_metadata depth) roots fresh_resolver ≡ ok s
      → Went is_https_url load_metadata fresh_resolver roots s
  resolved-Went depth roots s h =
      resolve_all-Went is_https_url load_metadata (visit is_https_url load_metadata depth)
        (visit-Visits depth) roots fresh_resolver s fresh_resolver-IsConsistent h

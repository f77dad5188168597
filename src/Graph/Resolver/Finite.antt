-- ===== src/Graph/Resolver/Finite.antt =====
-- `graphResolver.visit` ends on a service that has metadata of finitely many packages, whether their
-- graph has a cycle or not.
use docker_vrising.Prelude.{
  ℕ, zero, suc, Bool, true, false, ◌≡◌, ◌≤◌, ◌<◌, ◌+◌, refl, List, [], ◌∷◌, ◌&&◌, not, length,
  if◌then◌else◌, arith, subst, Bytes,
}
use docker_vrising.Prelude.Result.{Result, ok, err, ◌>>=◌, ◌>>◌}
use docker_vrising.State.{PackageRef, package_ref_eq, ref_beq_iff}
use docker_vrising.Config.{lookup}
use docker_vrising.Graph.Metadata.{
  PackageMetadata, MetadataError, validate_metadata, parse_dependencies,
}
use docker_vrising.Graph.Refs.{sort_package_refs}
use docker_vrising.Graph.Canonical.Topological.{contains}
use docker_vrising.Graph.Resolver.{
  ResolveError, Resolver, version_key, is_conflict, resolve_all, lift_metadata, leave_package,
  enter_package, note_version, load_package, visit_noted, visit_checked, visit, fresh_resolver,
  out_of_fuel,
}

abbrev pub is_out_of_fuel : ResolveError → Bool
is_out_of_fuel out_of_fuel = true
is_out_of_fuel _ = false

abbrev is_new : Resolver → PackageRef → Bool
is_new s q = not (s.visiting q) && not (s.visited q)

abbrev Keeps : Resolver → Resolver → Type 0
Keeps s t = (q : PackageRef) → is_new t q ≡ true → is_new s q ≡ true

count_new : List PackageRef → Resolver → ℕ
count_new [] s = 0
count_new (r ∷ refs) s = (if is_new s r then 1 else 0) + count_new refs s

count_new-le-length : (refs : List PackageRef) (s : Resolver) → count_new refs s ≤ length refs
unfolding count_new
count_new-le-length [] s = omega arith
count_new-le-length (r ∷ refs) s = ground (arith, count_new-le-length refs s)

count_new-Keeps :
    (refs : List PackageRef) (s t : Resolver) → Keeps s t → count_new refs t ≤ count_new refs s
unfolding count_new
count_new-Keeps [] s t k = omega arith
count_new-Keeps (r ∷ refs) s t k = ground (arith, count_new-Keeps refs s t k, k r)

Keeps-enter_package : (r : PackageRef) (s : Resolver) → Keeps s (enter_package r s)
Keeps-enter_package r s q h = ground arith

count_new-enter_package :
    (refs : List PackageRef) (r : PackageRef) (s : Resolver)
    → contains refs r ≡ true
    → is_new s r ≡ true
    → count_new refs (enter_package r s) < count_new refs s
unfolding count_new
count_new-enter_package [] r s h k = cc
count_new-enter_package (x ∷ refs) r s h k = ground (
  arith,
  count_new-enter_package refs r s,
  count_new-Keeps refs s (enter_package r s) (Keeps-enter_package r s),
  ref_beq_iff x r,
  ref_beq_iff r x,
)

-- The call did not run out of fuel, and it made no package new again.
abbrev pub Settled : Resolver → Result ResolveError Resolver → Type 0
Settled s (ok t) = Keeps s t
Settled s (err e) = is_out_of_fuel e ≡ false

Settled-trans :
    (s t : Resolver) (r : Result ResolveError Resolver) → Keeps s t → Settled t r → Settled s r
Settled-trans s t (ok u) k h = λ q m. k q (h q m)
Settled-trans s t (err e) k h = h

Settled-bind :
    (s : Resolver) (m : Result ResolveError Resolver)
    (next : Resolver → Result ResolveError Resolver)
    → Settled s m
    → ((t : Resolver) → Keeps s t → Settled t (next t))
    → Settled s (m >>= next)
Settled-bind s (ok t) next h n = Settled-trans s t (next t) h (n t h)
Settled-bind s (err e) next h n = h

module _ (is_https_url : Bytes → Bool)
    (load_metadata : PackageRef → Result MetadataError PackageMetadata) (known : List PackageRef)
    (finite : (r : PackageRef) (m : PackageMetadata)
      → load_metadata r ≡ ok m
      → contains known r ≡ true) where
  -- Loading meets no lack of fuel, and succeeds on known packages only.
  abbrev Loads : PackageRef → Result ResolveError (PackageMetadata × List PackageRef) → Type 0
  Loads r (ok loaded) = contains known r ≡ true
  Loads r (err e) = is_out_of_fuel e ≡ false

  lift_metadata-Loads :
      {A : Type 0} (r : PackageRef) (m : Result MetadataError A)
      (next : A → Result ResolveError (PackageMetadata × List PackageRef))
      → ((a : A) → m ≡ ok a → Loads r (next a))
      → Loads r (lift_metadata m >>= next)
  lift_metadata-Loads r (ok a) next h = h a refl
  lift_metadata-Loads r (err e) next h = refl

  load_package-Loads : (r : PackageRef) → Loads r (load_package is_https_url load_metadata r)
  unfolding load_package
  load_package-Loads r =
      lift_metadata-Loads r (load_metadata r)
        (λ m.
          lift_metadata (validate_metadata is_https_url r m)
          >> (lift_metadata (parse_dependencies m.dependencies.values) >>= λ refs.
              ok (m, sort_package_refs refs)))
        (λ m e.
          lift_metadata-Loads r (validate_metadata is_https_url r m)
            (λ done. lift_metadata (parse_dependencies m.dependencies.values) >>= λ refs.
              ok (m, sort_package_refs refs))
            (λ done f.
              lift_metadata-Loads r (parse_dependencies m.dependencies.values)
                (λ refs. ok (m, sort_package_refs refs)) (λ refs g. finite r m e)))

  abbrev SettlesBelow : ℕ → (PackageRef → Resolver → Result ResolveError Resolver) → Type 0
  SettlesBelow n visit_one =
      (r : PackageRef) (s : Resolver) → count_new known s < n → Settled s (visit_one r s)

  module _ (n : ℕ) (visit_one : PackageRef → Resolver → Result ResolveError Resolver)
      (settles : SettlesBelow n visit_one) where
    resolve_all-Settled :
        (rs : List PackageRef) (s : Resolver)
        → count_new known s < n
        → Settled s (resolve_all visit_one rs s)
    resolve_all-Settled [] s h = λ q k. k
    resolve_all-Settled (r ∷ rs) s h =
        Settled-bind s (visit_one r s) (resolve_all visit_one rs) (settles r s h)
          (λ t k. resolve_all-Settled rs t (omega (arith, h, count_new-Keeps known s t k)))

    expand_loaded-Settled :
        (r : PackageRef) (s : Resolver)
        (m : Result ResolveError (PackageMetadata × List PackageRef))
        → Loads r m
        → is_new s r ≡ true
        → count_new known s < suc n
        → Settled s (
            m >>= λ loaded. resolve_all visit_one loaded.1 (enter_package r s) >>= λ t.
            ok (leave_package r loaded.0 loaded.1 t))
    expand_loaded-Settled r s (err e) l new h = l
    expand_loaded-Settled r s (ok loaded) l new h =
        let u = enter_package r s in
        Settled-trans s u
          (resolve_all visit_one loaded.1 u >>= λ t. ok (leave_package r loaded.0 loaded.1 t))
          (Keeps-enter_package r s)
          (Settled-bind u (resolve_all visit_one loaded.1 u)
            (λ t. ok (leave_package r loaded.0 loaded.1 t))
            (resolve_all-Settled loaded.1 u
              (omega (arith, h, count_new-enter_package known r s l new)))
            (λ t k q m. ground arith))

    visit_noted-Settled :
        (r : PackageRef) (s : Resolver) (is_visiting is_visited : Bool)
        → s.visiting r ≡ is_visiting
        → s.visited r ≡ is_visited
        → count_new known s < suc n
        → Settled s (visit_noted is_https_url load_metadata visit_one r s is_visiting is_visited)
    visit_noted-Settled r s true is_visited e f h = refl
    visit_noted-Settled r s false true e f h = λ q k. k
    visit_noted-Settled r s false false e f h =
        expand_loaded-Settled r s (load_package is_https_url load_metadata r) (load_package-Loads r)
          (ground (arith, e, f)) h

    visit_checked-Settled :
        (r : PackageRef) (s : Resolver) (b : Bool)
        → count_new known s < suc n
        → Settled s (visit_checked is_https_url load_metadata visit_one r s b)
    visit_checked-Settled r s true h = refl
    visit_checked-Settled r s false h =
        let t = note_version r s in
        let k : Keeps s t = λ q m. m in
        Settled-trans s t
          (visit_noted is_https_url load_metadata visit_one r t (t.visiting r) (t.visited r)) k
          (visit_noted-Settled r t (t.visiting r) (t.visited r) refl refl
            (omega (arith, h, count_new-Keeps known s t k)))

  visit-SettlesBelow : (depth : ℕ) → SettlesBelow depth (visit is_https_url load_metadata depth)
  unfolding visit
  visit-SettlesBelow zero r s h = absurd (omega (arith, h))
  visit-SettlesBelow (suc depth) r s h =
      visit_checked-Settled depth (visit is_https_url load_metadata depth)
        (visit-SettlesBelow depth) r s (is_conflict (lookup s.versions (version_key r)) r) h

  -- On a service that has metadata of the `known` packages only, a depth of one more than their
  -- number is enough: the walk from any roots ends with a graph or with an error of its own.
  pub resolve_all-ends :
      (roots : List PackageRef) (e : ResolveError)
      → resolve_all (visit is_https_url load_metadata (suc (length known))) roots fresh_resolver
        ≡ err e
      → is_out_of_fuel e ≡ false
  resolve_all-ends roots e h =
      let settled =
        resolve_all-Settled (suc (length known))
          (visit is_https_url load_metadata (suc (length known)))
          (visit-SettlesBelow (suc (length known))) roots fresh_resolver
          (omega (arith, count_new-le-length known fresh_resolver)) in
      subst (Settled fresh_resolver) h settled

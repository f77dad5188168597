-- ===== src/Graph/Canonical/Ordered.antt =====
-- The order that `canonicalPackageOrder` returns.
use docker_vrising.Prelude.{
  suc, true, false, ◌≡◌, ◌≤◌, ◌<◌, refl, some, List, [], ◌∷◌, ◌++◌, ◌==◌, nat_eq, length,
  if◌then◌else◌, arith, Bool-cases, inl, inr, subst,
}
use docker_vrising.Prelude.Result.{ok, ◌>>◌, guard, >>=-eq-ok}
use docker_vrising.State.{PackageRef, package_ref_eq, ref_beq_iff}
use docker_vrising.Graph.Canonical.{
  Dependencies, dependencies_of, visit, visit_all, fresh_walk, outside_roots,
  canonical_package_order,
}
use docker_vrising.Graph.Canonical.Topological.{
  contains, contains-append, AllIn, IsTopological, visit_all-Went, visit-Went, fresh_walk-IsWalk,
}

-- Pigeons: a list without repetitions is no longer than one that has all its elements.
pub remove : PackageRef → List PackageRef → List PackageRef
remove r [] = []
remove r (x ∷ xs) = let rest = remove r xs in if x == r then rest else x ∷ rest

pub length-remove :
    (r : PackageRef) (xs : List PackageRef)
    → (length (remove r xs) ≤ length xs) × (contains xs r ≡ true → length (remove r xs) < length xs)
unfolding remove
length-remove r [] = (omega arith, λ h. cc)
length-remove r (x ∷ xs) = (
  ground (arith, (length-remove r xs).0),
  λ h. ground (arith, (length-remove r xs).0, (length-remove r xs).1),
)

pub contains-remove :
    (r q : PackageRef) (xs : List PackageRef)
    → contains (remove r xs) q ≡ (if r == q then false else contains xs q)
unfolding remove
contains-remove r q [] = ground arith
contains-remove r q (x ∷ xs) =
    ground (arith, contains-remove r q xs, ref_beq_iff x r, ref_beq_iff x q, ref_beq_iff r q)

abbrev pub keys : Dependencies → List PackageRef
keys [] = []
keys ((key, ds) ∷ rest) = key ∷ keys rest

pub length-keys : (packages : Dependencies) → length (keys packages) ≡ length packages
length-keys [] = refl
length-keys (p ∷ rest) = omega (arith, length-keys rest)

pub keys-known :
    (packages : Dependencies) (r : PackageRef) (ds : List PackageRef)
    → dependencies_of packages r ≡ some ds
    → contains (keys packages) r ≡ true
keys-known [] r ds h = cc
keys-known ((key, es) ∷ rest) r ds h = ground (arith, keys-known rest r ds)

module _ (packages : Dependencies) where
  -- What stands before is not met again.
  topological-fresh :
      (before refs : List PackageRef) (q : PackageRef)
      → IsTopological packages before refs
      → contains before q ≡ true
      → contains refs q ≡ false
  topological-fresh before [] q t h = refl
  topological-fresh before (x ∷ refs) q t h = ground (
    arith,
    topological-fresh (before ++ (x ∷ [])) refs q t.1,
    contains-append before (x ∷ []) q,
    ref_beq_iff x q,
    t.0.fresh,
  )

  pub length-topological :
      (before refs room : List PackageRef)
      → IsTopological packages before refs
      → ((q : PackageRef) → contains refs q ≡ true → contains room q ≡ true)
      → length refs ≤ length room
  length-topological before [] room t h = omega arith
  length-topological before (r ∷ refs) room t h =
      let rest = length-topological (before ++ (r ∷ [])) refs (remove r room) t.1 (λ q k. ground (
        arith,
        h q,
        contains-remove r q room,
        topological-fresh (before ++ (r ∷ [])) refs q t.1,
        contains-append before (r ∷ []) q,
        ref_beq_iff r q,
      )) in
      ground (arith, rest, h r, ref_beq_iff r r, (length-remove r room).1)

  -- The order of a package graph: each package comes once, after its dependencies, the roots are
  -- among them, and no package of the graph is left out.
  pub record IsCanonical (roots order : List PackageRef) : Type 0 where
    pub topological : IsTopological packages [] order
    pub rooted : AllIn order roots
    pub whole :
        (r : PackageRef) (ds : List PackageRef)
        → dependencies_of packages r ≡ some ds
        → contains order r ≡ true

  pub ready-known :
      (before order : List PackageRef) (q : PackageRef)
      → IsTopological packages before order
      → contains order q ≡ true
      → contains (keys packages) q ≡ true
  ready-known before [] q t h = cc
  ready-known before (x ∷ order) q t h = ground (
    arith,
    ready-known (before ++ (x ∷ [])) order q t.1,
    keys-known packages x t.0.dependencies t.0.known,
    ref_beq_iff x q,
  )

  topological-whole :
      (order : List PackageRef)
      → IsTopological packages [] order
      → length order ≡ length packages
      → (r : PackageRef) (ds : List PackageRef) → dependencies_of packages r ≡ some ds
      → contains order r ≡ true
  topological-whole order t same r ds h = elim (Bool-cases (contains order r)) [
    | inl k ↦ k
    | inr k ↦
        let fits = length-topological [] order (remove r (keys packages)) t (λ q m. ground (
          arith,
          contains-remove r q (keys packages),
          ready-known [] order q t m,
          ref_beq_iff r q,
        )) in
        ground (
          arith,
          fits,
          same,
          length-keys packages,
          (length-remove r (keys packages)).1,
          keys-known packages r ds h,
        )
  ]

  -- An order that `canonicalPackageOrder` returns has every package of the graph, the roots among
  -- them, once and after its dependencies.
  pub canonical_package_order-IsCanonical :
      (roots : List PackageRef) {order : List PackageRef}
      → canonical_package_order roots packages ≡ ok order
      → IsCanonical roots order
  unfolding canonical_package_order
  canonical_package_order-IsCanonical roots {order = order} h =
      let visit_one = visit packages (suc (length packages)) in
      let (w, first, second) =
        >>=-eq-ok (visit_all visit_one roots fresh_walk)
          (λ w. guard (length w.ordered == length packages) outside_roots >> ok w.ordered) h in
      let went =
        visit_all-Went packages visit_one (visit-Went packages (suc (length packages))) roots
          fresh_walk w (fresh_walk-IsWalk packages) first in
      let same : w.ordered ≡ order = ground (arith, second) in
      let long : length w.ordered ≡ length packages = ground (arith, second) in
      subst (IsCanonical roots) same (record {
        topological = went.walk.topological;
        rooted = went.reached;
        whole = topological-whole w.ordered went.walk.topological long;
      })

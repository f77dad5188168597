-- ===== src/Graph/Canonical/Reachable.antt =====
-- `canonicalPackageOrder` succeeds on a graph without cycles that the roots reach.
use docker_vrising.Prelude.{
  ℕ, suc, true, false, ◌≡◌, ◌≤◌, some, List, [], ◌∷◌, ◌++◌, nat_eq, length, arith, subst, All,
  All-map, ap, inl, inr, Bool-cases,
}
use docker_vrising.Prelude.Result.{ok}
use mathlib.Core.List.{append_assoc}
use docker_vrising.State.{PackageRef, package_ref_eq, ref_beq, ref_beq_iff}
use docker_vrising.Graph.Canonical.{
  Dependencies, dependencies_of, visit, fresh_walk, canonical_package_order,
}
use docker_vrising.Graph.Canonical.Topological.{
  contains, contains-append, AllIn, IsTopological, visit_all-Went, visit-Went, fresh_walk-IsWalk,
}
use docker_vrising.Graph.Canonical.Ordered.{
  remove, length-remove, contains-remove, keys, length-keys, length-topological, ready-known,
}
use docker_vrising.Graph.Canonical.Acyclic.{IsKnown, IsRanked, walk-ok}

-- The keys of a Go map.
abbrev pub IsDistinct : List PackageRef → Type 0
IsDistinct [] = Unit
IsDistinct (r ∷ refs) = (contains refs r ≡ false) × IsDistinct refs

length-distinct :
    (refs room : List PackageRef)
    → IsDistinct refs
    → ((q : PackageRef) → contains refs q ≡ true → contains room q ≡ true)
    → length refs ≤ length room
length-distinct [] room t h = omega arith
length-distinct (r ∷ refs) room t h =
    let rest =
      length-distinct refs (remove r room) t.1
        (λ q k. ground (arith, h q, contains-remove r q room, t.0, ref_beq_iff r q)) in
    ground (arith, rest, h r, ref_beq_iff r r, (length-remove r room).1)

contains-AllIn :
    (refs ds : List PackageRef) (d : PackageRef)
    → AllIn refs ds
    → contains ds d ≡ true
    → contains refs d ≡ true
contains-AllIn refs [] d a h = cc
contains-AllIn refs (x ∷ ds) d a h =
    ground (arith, contains-AllIn refs ds d a.1, ref_beq_iff x d, a.0)

module _ (packages : Dependencies) where
  -- A package that is a root, or a dependency of one that the roots reach.
  pub data Reaches (roots : List PackageRef) : PackageRef → Type 0 where
    root : {r : PackageRef} → contains roots r ≡ true → Reaches roots r
    dependency :
        {r d : PackageRef} {ds : List PackageRef}
        → Reaches roots r
        → dependencies_of packages r ≡ some ds
        → contains ds d ≡ true
        → Reaches roots d

  topological-closed :
      (before order : List PackageRef) (r : PackageRef) (ds : List PackageRef)
      → IsTopological packages before order
      → contains order r ≡ true
      → dependencies_of packages r ≡ some ds
      → AllIn (before ++ order) ds
  topological-closed before [] r ds t h known = cc
  topological-closed before (x ∷ order) r ds t h known = elim (Bool-cases (ref_beq x r)) [
    | inl e ↦
        let same : t.0.dependencies ≡ ds =
          ground (arith, t.0.known, known, ap (dependencies_of packages) ((ref_beq_iff x r).0 e)) in
        All-map {P = λ d. contains before d ≡ true}
          (λ d a. ground (arith, contains-append before (x ∷ order) d, a)) ds
          (subst (AllIn before) same t.0.placed)
    | inr e ↦
        subst (λ l. AllIn l ds) (append_assoc before (x ∷ []) order)
          (topological-closed (before ++ (x ∷ [])) order r ds t.1 (ground arith) known)
  ]

  Reaches-contains :
      (roots order : List PackageRef)
      → IsTopological packages [] order
      → AllIn order roots
      → (r : PackageRef) → Reaches roots r
      → contains order r ≡ true
  Reaches-contains roots order t a r (root h) = contains-AllIn order roots r a h
  Reaches-contains roots order t a r (dependency {r = q} {ds = ds} p known h) =
      contains-AllIn order ds r
        (topological-closed [] order q ds t (Reaches-contains roots order t a q p) known) h

  -- A graph whose packages the roots reach, in which every dependency is a package of the graph and
  -- ranks below those that have it, has an order.
  pub canonical_package_order-Succeeds :
      (rank : PackageRef → ℕ) (roots : List PackageRef)
      → IsRanked packages rank
      → All (IsKnown packages rank) roots
      → IsDistinct (keys packages)
      → ((r : PackageRef) → contains (keys packages) r ≡ true → Reaches roots r)
      → (order : List PackageRef) × (canonical_package_order roots packages ≡ ok order)
  unfolding canonical_package_order
  canonical_package_order-Succeeds rank roots ranked known distinct reached =
      let visit_one = visit packages (suc (length packages)) in
      let (w, walked) = walk-ok packages rank ranked roots known in
      let went =
        visit_all-Went packages visit_one (visit-Went packages (suc (length packages))) roots
          fresh_walk w (fresh_walk-IsWalk packages) walked in
      let low =
        length-topological packages [] w.ordered (keys packages) went.walk.topological
          (λ q h. ready-known packages [] w.ordered q went.walk.topological h) in
      let high = length-distinct (keys packages) w.ordered distinct (λ q h.
        Reaches-contains roots w.ordered went.walk.topological went.reached q (reached q h)) in
      (w.ordered, ground (arith, walked, low, high, length-keys packages))

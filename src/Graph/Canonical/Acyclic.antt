-- ===== src/Graph/Canonical/Acyclic.antt =====
-- `canonicalPackageOrder` orders every graph that has no cycle and no gap.
use docker_vrising.Prelude.{
  ℕ, zero, suc, ◌≡◌, ◌≤◌, ◌<◌, refl, some, List, [], ◌∷◌, nat_eq, length, arith, Bool-cases, inl,
  inr, subst, All, All-map,
}
use docker_vrising.Prelude.Result.{Result, ok, err, ◌>>=◌}
use mathlib.Core.List.Permᴰ
use docker_vrising.Order.Laws.{sort-Permᴰ, All-perm}
use docker_vrising.State.{PackageRef, package_ref_eq, ref_beq, ref_beq_iff}
use docker_vrising.Graph.Refs.{sort_package_refs, ref_before}
use docker_vrising.Graph.Canonical.{
  Dependencies, dependencies_of, Walk, Mark, unseen, visiting, visited, OrderError, cycle, missing,
  outside_roots, out_of_fuel, visit, visit_all, expand, enter, leave, set_mark, fresh_walk,
}
use docker_vrising.Graph.Canonical.Total.{walk-Settled, Settled}

-- What is being visited after a call was so before it, and the call met no error but lack of fuel.
abbrev Fine : Walk → Result OrderError Walk → Type 0
Fine w (ok v) = (q : PackageRef) → v.states q ≡ visiting → w.states q ≡ visiting
Fine w (err out_of_fuel) = Unit
Fine w (err _) = ⊥

abbrev Closes : Walk → Walk → Type 0
Closes w v = (q : PackageRef) → v.states q ≡ visiting → w.states q ≡ visiting

Fine-bind :
    (w : Walk) (m : Result OrderError Walk) (next : Walk → Result OrderError Walk)
    → Fine w m
    → ((v : Walk) → Closes w v → Fine w (next v))
    → Fine w (m >>= next)
Fine-bind w (ok v) next s n = n v s
Fine-bind w (err out_of_fuel) next s n = tt
Fine-bind w (err (cycle r)) next s n = absurd s
Fine-bind w (err (missing r)) next s n = absurd s
Fine-bind w (err outside_roots) next s n = absurd s

Fine-trans : (w v : Walk) (r : Result OrderError Walk) → Closes w v → Fine v r → Fine w r
Fine-trans w v (ok u) k s = λ q h. k q (s q h)
Fine-trans w v (err out_of_fuel) k s = tt
Fine-trans w v (err (cycle r)) k s = s
Fine-trans w v (err (missing r)) k s = s
Fine-trans w v (err outside_roots) k s = s

leave-Fine :
    (r : PackageRef) (w : Walk) (m : Result OrderError Walk)
    → Fine (set_mark r visiting w) m
    → Fine w (m >>= λ v. ok (leave r v))
leave-Fine r w (ok v) f = λ q h. ground (arith, f q)
leave-Fine r w (err out_of_fuel) f = tt
leave-Fine r w (err (cycle q)) f = f
leave-Fine r w (err (missing q)) f = f
leave-Fine r w (err outside_roots) f = f

module _ (packages : Dependencies) (rank : PackageRef → ℕ) where
  abbrev pub IsKnown : PackageRef → Type 0
  IsKnown r = (ds : List PackageRef) × (dependencies_of packages r ≡ some ds)

  -- Each dependency is a package of the graph, and ranks below the package that has it.
  abbrev pub IsRanked : Type 0
  IsRanked =
      (r : PackageRef) (ds : List PackageRef)
      → dependencies_of packages r ≡ some ds
      → All (λ d. IsKnown d × (rank d < rank r)) ds

  abbrev IsBelow : PackageRef → Walk → Type 0
  IsBelow r w = (q : PackageRef) → w.states q ≡ visiting → rank r < rank q

  abbrev Works : (PackageRef → Walk → Result OrderError Walk) → Type 0
  Works visit_one = (r : PackageRef) (w : Walk) → IsKnown r → IsBelow r w → Fine w (visit_one r w)

  set_mark-below :
      (r : PackageRef) (w : Walk)
      → IsBelow r w
      → (q : PackageRef) → (set_mark r visiting w).states q ≡ visiting
      → rank r ≤ rank q
  set_mark-below r w below q h = elim (Bool-cases (ref_beq r q)) [
    | inl e ↦ subst (λ x. rank r ≤ rank x) ((ref_beq_iff r q).0 e) (omega arith)
    | inr e ↦ ground (arith, below q)
  ]

  module _ (ranked : IsRanked) (visit_one : PackageRef → Walk → Result OrderError Walk)
      (works : Works visit_one) where
    visit_all-Fine :
        (rs : List PackageRef) (w : Walk)
        → All (λ r. IsKnown r × IsBelow r w) rs
        → Fine w (visit_all visit_one rs w)
    visit_all-Fine [] w h = λ q k. k
    visit_all-Fine (r ∷ rs) w h =
        Fine-bind w (visit_one r w) (visit_all visit_one rs) (works r w h.0.0 h.0.1) (λ v k.
          Fine-trans w v (visit_all visit_one rs v) k (
            visit_all-Fine rs v (
              All-map {P = λ r. IsKnown r × IsBelow r w} (λ r a. (a.0, λ q m. a.1 q (k q m))) rs
                h.1)))

    enter-Fine :
        (r : PackageRef) (w : Walk) (m : Mark)
        → w.states r ≡ m
        → IsKnown r
        → IsBelow r w
        → Fine w (enter packages visit_one r w m)
    enter-Fine r w visiting e known below = omega (arith, below r e)
    enter-Fine r w visited e known below = λ q k. k
    enter-Fine r w unseen e (ds, known) below =
        rw (known, expand)
          (leave-Fine r w (visit_all visit_one (sort_package_refs ds) (set_mark r visiting w)) (
            visit_all-Fine (sort_package_refs ds) (set_mark r visiting w) (
              All-map {P = λ d. IsKnown d × (rank d < rank r)}
                (λ d a. (a.0, λ q h. omega (arith, a.1, set_mark-below r w below q h)))
                (sort_package_refs ds)
                (All-perm (λ d. IsKnown d × (rank d < rank r))
                  (Permᴰ.symm (sort-Permᴰ ref_before ds)) (ranked r ds known)))))

  visit-Works : IsRanked → (depth : ℕ) → Works (visit packages depth)
  unfolding visit
  visit-Works ranked zero r w known below = tt
  visit-Works ranked (suc depth) r w known below =
      enter-Fine ranked (visit packages depth) (visit-Works ranked depth) r w (w.states r) refl
        known below

  -- With enough fuel and no error, the walk returns.
  Fine-ok :
      (m : Result OrderError Walk)
      → Settled fresh_walk m
      → Fine fresh_walk m
      → (w : Walk) × (m ≡ ok w)
  Fine-ok (ok w) s f = (w, refl)
  Fine-ok (err out_of_fuel) s f = absurd s
  Fine-ok (err (cycle r)) s f = absurd f
  Fine-ok (err (missing r)) s f = absurd f
  Fine-ok (err outside_roots) s f = absurd f

  pub walk-ok :
      IsRanked
      → (roots : List PackageRef) → All IsKnown roots
      → (w : Walk) × (visit_all (visit packages (suc (length packages))) roots fresh_walk ≡ ok w)
  walk-ok ranked roots known =
      let visit_one = visit packages (suc (length packages)) in
      Fine-ok (visit_all visit_one roots fresh_walk) (walk-Settled packages roots) (
        visit_all-Fine ranked visit_one (visit-Works ranked (suc (length packages))) roots
          fresh_walk (All-map {P = IsKnown} (λ r k. (k, λ q h. cc)) roots known))

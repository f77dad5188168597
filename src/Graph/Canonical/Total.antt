-- ===== src/Graph/Canonical/Total.antt =====
-- `canonicalPackageOrder` ends: its calls go no deeper than there are packages to mark.
use docker_vrising.Prelude.{
  ℕ, zero, suc, Bool, true, false, ◌≡◌, ◌≤◌, ◌<◌, ◌+◌, ◌≢◌, refl, some, List, [], ◌∷◌, ◌==◌, nat_eq,
  length, if◌then◌else◌, arith, Option-cases, inl, inr,
}
use docker_vrising.Prelude.Result.{Result, ok, err, ◌>>=◌, ◌>>◌, guard}
use docker_vrising.State.{PackageRef, package_ref_eq, ref_beq_iff}
use docker_vrising.Graph.Refs.{sort_package_refs}
use docker_vrising.Graph.Canonical.{
  Dependencies, dependencies_of, Walk, Mark, unseen, visiting, visited, OrderError, cycle, missing,
  outside_roots, out_of_fuel, visit, visit_all, expand, enter, leave, set_mark, fresh_walk,
  canonical_package_order,
}

abbrev pub is_seen : Mark → Bool
is_seen unseen = false
is_seen _ = true

abbrev pub Keeps : Walk → Walk → Type 0
Keeps w v = (q : PackageRef) → is_seen (w.states q) ≡ true → is_seen (v.states q) ≡ true

count_unseen : Dependencies → (PackageRef → Mark) → ℕ
count_unseen [] states = 0
count_unseen ((key, ds) ∷ rest) states =
    (if is_seen (states key) then 0 else 1) + count_unseen rest states

count_unseen-le-length :
    (packages : Dependencies) (states : PackageRef → Mark)
    → count_unseen packages states ≤ length packages
unfolding count_unseen
count_unseen-le-length [] states = omega arith
count_unseen-le-length ((key, ds) ∷ rest) states =
    ground (arith, count_unseen-le-length rest states)

count_unseen-Keeps :
    (packages : Dependencies) (w v : Walk)
    → Keeps w v
    → count_unseen packages v.states ≤ count_unseen packages w.states
unfolding count_unseen
count_unseen-Keeps [] w v k = omega arith
count_unseen-Keeps ((key, ds) ∷ rest) w v k = ground (arith, count_unseen-Keeps rest w v k, k key)

Keeps-set_mark : (r : PackageRef) (w : Walk) → Keeps w (set_mark r visiting w)
Keeps-set_mark r w q h = ground arith

-- Marking a package leaves fewer to mark.
count_unseen-set_mark :
    (packages : Dependencies) (r : PackageRef) (w : Walk) (ds : List PackageRef)
    → dependencies_of packages r ≡ some ds
    → w.states r ≡ unseen
    → count_unseen packages (set_mark r visiting w).states < count_unseen packages w.states
unfolding count_unseen
count_unseen-set_mark [] r w ds h k = cc
count_unseen-set_mark ((key, es) ∷ rest) r w ds h k = ground (
  arith,
  count_unseen-set_mark rest r w ds,
  count_unseen-Keeps rest w (set_mark r visiting w) (Keeps-set_mark r w),
  ref_beq_iff key r,
  ref_beq_iff r key,
)

-- The call did not run out of fuel, and unmarked nothing.
abbrev pub Settled : Walk → Result OrderError Walk → Type 0
Settled w (ok v) = Keeps w v
Settled w (err out_of_fuel) = ⊥
Settled w (err _) = Unit

Settled-trans : (w v : Walk) (r : Result OrderError Walk) → Keeps w v → Settled v r → Settled w r
Settled-trans w v (ok u) k s = λ q h. s q (k q h)
Settled-trans w v (err out_of_fuel) k s = s
Settled-trans w v (err (cycle r)) k s = tt
Settled-trans w v (err (missing r)) k s = tt
Settled-trans w v (err outside_roots) k s = tt

Settled-bind :
    (w : Walk) (m : Result OrderError Walk) (next : Walk → Result OrderError Walk)
    → Settled w m
    → ((v : Walk) → Keeps w v → Settled v (next v))
    → Settled w (m >>= next)
Settled-bind w (ok v) next s n = Settled-trans w v (next v) s (n v s)
Settled-bind w (err out_of_fuel) next s n = s
Settled-bind w (err (cycle r)) next s n = tt
Settled-bind w (err (missing r)) next s n = tt
Settled-bind w (err outside_roots) next s n = tt

Settled-ends :
    (w : Walk) (m : Result OrderError Walk) (n : ℕ)
    → Settled w m
    → (m >>= λ v. guard (length v.ordered == n) outside_roots >> ok v.ordered) ≢ err out_of_fuel
Settled-ends w (ok v) n s = ground arith
Settled-ends w (err out_of_fuel) n s = absurd s
Settled-ends w (err (cycle r)) n s = ground arith
Settled-ends w (err (missing r)) n s = ground arith
Settled-ends w (err outside_roots) n s = ground arith

module _ (packages : Dependencies) where
  abbrev SettlesBelow : ℕ → (PackageRef → Walk → Result OrderError Walk) → Type 0
  SettlesBelow n visit_one =
      (r : PackageRef) (w : Walk) → count_unseen packages w.states < n → Settled w (visit_one r w)

  module _ (n : ℕ) (visit_one : PackageRef → Walk → Result OrderError Walk)
      (settles : SettlesBelow n visit_one) where
    visit_all-Settled :
        (rs : List PackageRef) (w : Walk)
        → count_unseen packages w.states < n
        → Settled w (visit_all visit_one rs w)
    visit_all-Settled [] w h = λ q k. k
    visit_all-Settled (r ∷ rs) w h =
        Settled-bind w (visit_one r w) (visit_all visit_one rs) (settles r w h)
          (λ v k. visit_all-Settled rs v (omega (arith, h, count_unseen-Keeps packages w v k)))

    leave-Settled : (r : PackageRef) (v : Walk) → Settled v (ok (leave r v))
    leave-Settled r v q h = ground arith

    enter-Settled :
        (r : PackageRef) (w : Walk) (m : Mark)
        → w.states r ≡ m
        → count_unseen packages w.states < suc n
        → Settled w (enter packages visit_one r w m)
    enter-Settled r w visiting e h = tt
    enter-Settled r w visited e h = λ q k. k
    enter-Settled r w unseen e h = elim (Option-cases (dependencies_of packages r)) [
      | inl absent ↦ rw (absent, expand, Settled) tt
      | inr (ds, known) ↦
          rw (known, expand)
            (Settled-trans w (set_mark r visiting w)
              (visit_all visit_one (sort_package_refs ds) (set_mark r visiting w) >>= λ v.
                ok (leave r v))
              (Keeps-set_mark r w)
              (Settled-bind (set_mark r visiting w)
                (visit_all visit_one (sort_package_refs ds) (set_mark r visiting w))
                (λ v. ok (leave r v))
                (visit_all-Settled (sort_package_refs ds) (set_mark r visiting w)
                  (omega (arith, h, count_unseen-set_mark packages r w ds known e)))
                (λ v k. leave-Settled r v)))
    ]

  visit-SettlesBelow : (depth : ℕ) → SettlesBelow depth (visit packages depth)
  unfolding visit
  visit-SettlesBelow zero r w h = absurd (omega (arith, h))
  visit-SettlesBelow (suc depth) r w h =
      enter-Settled depth (visit packages depth) (visit-SettlesBelow depth) r w (w.states r) refl h

  pub walk-Settled :
      (roots : List PackageRef)
      → Settled fresh_walk (visit_all (visit packages (suc (length packages))) roots fresh_walk)
  walk-Settled roots =
      visit_all-Settled (suc (length packages)) (visit packages (suc (length packages)))
        (visit-SettlesBelow (suc (length packages))) roots fresh_walk
        (omega (arith, count_unseen-le-length packages fresh_walk.states))

  -- Whatever the graph, cycles included, the depth of the calls stays within its fuel.
  pub canonical_package_order-ends :
      (roots : List PackageRef) → canonical_package_order roots packages ≢ err out_of_fuel
  unfolding canonical_package_order
  canonical_package_order-ends roots =
      Settled-ends fresh_walk (visit_all (visit packages (suc (length packages))) roots fresh_walk)
        (length packages) (walk-Settled roots)

-- ===== src/Graph/Canonical/Topological.antt =====
-- What each call of `visit` adds to the order: packages after their dependencies.
use docker_vrising.Prelude.{
  ℕ, zero, suc, Bool, true, false, ◌≡◌, refl, sym, none, some, List, [], ◌∷◌, ◌++◌, ◌==◌, ◌||◌, ◌⊎◌,
  nat_eq, any, arith, Option-cases, inl, inr, subst, All,
}
use docker_vrising.Prelude.Result.{Result, ok, >>=-eq-ok}
use mathlib.Core.List.{append-nil, append_assoc}
use docker_vrising.Order.Laws.{sort-Permᴰ, All-perm}
use docker_vrising.State.{PackageRef, package_ref_eq, ref_beq_iff}
use docker_vrising.Graph.Refs.{sort_package_refs, ref_before}
use docker_vrising.Graph.Canonical.{
  Dependencies, dependencies_of, Walk, Mark, unseen, visiting, visited, OrderError, visit,
  visit_all, enter, leave, set_mark, fresh_walk,
}

abbrev pub contains : List PackageRef → PackageRef → Bool
contains refs r = any (λ x. x == r) refs

pub contains-append :
    (xs ys : List PackageRef) (r : PackageRef)
    → contains (xs ++ ys) r ≡ contains xs r || contains ys r
contains-append [] ys r = refl
contains-append (x ∷ xs) ys r = ground (arith, contains-append xs ys r)

abbrev is_visited : Mark → Bool
is_visited visited = true
is_visited _ = false

abbrev pub AllIn : List PackageRef → List PackageRef → Type 0
AllIn refs ds = All (λ d. contains refs d ≡ true) ds

module _ (packages : Dependencies) where
  -- Each element is a package of the graph, comes after its dependencies, and comes once.
  pub record IsReady (before : List PackageRef) (r : PackageRef) : Type 0 where
    pub dependencies : List PackageRef
    pub known : dependencies_of packages r ≡ some dependencies
    pub placed : AllIn before dependencies
    pub fresh : contains before r ≡ false

  abbrev pub IsTopological : List PackageRef → List PackageRef → Type 0
  IsTopological before [] = Unit
  IsTopological before (r ∷ rest) = IsReady before r × IsTopological (before ++ (r ∷ [])) rest

  IsTopological-snoc :
      (before refs : List PackageRef) (r : PackageRef)
      → IsTopological before refs
      → IsReady (before ++ refs) r
      → IsTopological before (refs ++ (r ∷ []))
  IsTopological-snoc before [] r t h = (subst (λ l. IsReady l r) (append-nil before) h, tt)
  IsTopological-snoc before (x ∷ refs) r t h = (
    t.0,
    IsTopological-snoc (before ++ (x ∷ [])) refs r t.1
        (subst (λ l. IsReady l r) (sym (append_assoc before (x ∷ []) refs)) h),
  )

  pub record IsWalk (w : Walk) : Type 0 where
    pub marked : (q : PackageRef) → contains w.ordered q ≡ is_visited (w.states q)
    pub topological : IsTopological [] w.ordered

  pub record Goes (w v : Walk) : Type 0 where
    pub kept : (q : PackageRef) → contains w.ordered q ≡ true → contains v.ordered q ≡ true
    pub held : (q : PackageRef) → w.states q ≡ visiting → v.states q ≡ visiting

  pub record Went (w : Walk) (rs : List PackageRef) (v : Walk) : Type 0 where
    pub walk : IsWalk v
    pub goes : Goes w v
    pub reached : AllIn v.ordered rs

  abbrev pub Visits : (PackageRef → Walk → Result OrderError Walk) → Type 0
  Visits visit_one =
      (r : PackageRef) (w v : Walk) → IsWalk w → visit_one r w ≡ ok v → Went w (r ∷ []) v

  pub visit_all-Went :
      (visit_one : PackageRef → Walk → Result OrderError Walk)
      → Visits visit_one
      → (rs : List PackageRef) (w v : Walk) → IsWalk w
      → visit_all visit_one rs w ≡ ok v
      → Went w rs v
  visit_all-Went visit_one step [] w v i h =
      subst (Went w []) (ground arith)
        (record { walk = i; goes = record { kept = λ q k. k; held = λ q k. k }; reached = tt })
  visit_all-Went visit_one step (r ∷ rs) w v i h =
      let (u, first, second) = >>=-eq-ok (visit_one r w) (visit_all visit_one rs) h in
      let a = step r w u i first in
      let b = visit_all-Went visit_one step rs u v a.walk second in
      record {
        walk = b.walk;
        goes = record {
          kept = λ q k. b.goes.kept q (a.goes.kept q k);
          held = λ q k. b.goes.held q (a.goes.held q k);
        };
        reached = (b.goes.kept r a.reached.0, b.reached);
      }

  module _ (r : PackageRef) (w : Walk) (i : IsWalk w) (unmarked : w.states r ≡ unseen) where
    set_mark-IsWalk : IsWalk (set_mark r visiting w)
    set_mark-IsWalk = record {
      marked = λ q. ground (arith, i.marked q, i.marked r, ref_beq_iff r q);
      topological = i.topological;
    }

    module _ (ds : List PackageRef) (known : dependencies_of packages r ≡ some ds) (v : Walk)
        (went : Went (set_mark r visiting w) (sort_package_refs ds) v) where
      held_here : v.states r ≡ visiting
      held_here = went.goes.held r (ground (arith, ref_beq_iff r r))

      leave-IsWalk : IsWalk (leave r v)
      leave-IsWalk = record {
        marked = λ q.
            ground
              (arith, contains-append v.ordered (r ∷ []) q, went.walk.marked q, ref_beq_iff r q);
        topological = IsTopological-snoc [] v.ordered r went.walk.topological (record {
          dependencies = ds;
          known = known;
          placed =
              All-perm (λ d. contains v.ordered d ≡ true) (sort-Permᴰ ref_before ds) went.reached;
          fresh = ground (arith, went.walk.marked r, held_here);
        });
      }

      leave-Went : Went w (r ∷ []) (leave r v)
      leave-Went = record {
        walk = leave-IsWalk;
        goes = record {
          kept = λ q k. ground (arith, contains-append v.ordered (r ∷ []) q, went.goes.kept q);
          held = λ q k. ground (arith, went.goes.held q, ref_beq_iff r q);
        };
        reached = (ground (arith, contains-append v.ordered (r ∷ []) r, ref_beq_iff r r), tt);
      }

  enter-Went :
      (visit_one : PackageRef → Walk → Result OrderError Walk)
      → Visits visit_one
      → (r : PackageRef) (w v : Walk) → IsWalk w
      → enter packages visit_one r w (w.states r) ≡ ok v
      → Went w (r ∷ []) v
  enter-Went visit_one step r w v i h =
      from (w.states r) refl (Option-cases (dependencies_of packages r)) h
    where
      from :
          (m : Mark)
          → w.states r ≡ m
          → (dependencies_of packages r ≡ none)
            ⊎ ((ds : List PackageRef) × (dependencies_of packages r ≡ some ds))
          → enter packages visit_one r w m ≡ ok v
          → Went w (r ∷ []) v
      from visiting e o k = cc
      from visited e o k = subst (Went w (r ∷ [])) (ground arith) (record {
        walk = i;
        goes = record { kept = λ q k. k; held = λ q k. k };
        reached = (ground (arith, i.marked r), tt);
      })
      from unseen e (inl n) k = cc
      from unseen e (inr (ds, n)) k =
          let (u, first, second) =
            >>=-eq-ok (visit_all visit_one (sort_package_refs ds) (set_mark r visiting w))
              (λ u. ok (leave r u)) {b = v} (ground arith) in
          let went =
            visit_all-Went visit_one step (sort_package_refs ds) (set_mark r visiting w) u
              (set_mark-IsWalk r w i e) first in
          subst (Went w (r ∷ [])) (ground arith) (leave-Went r w i e ds n u went)

  pub visit-Went : (depth : ℕ) → Visits (visit packages depth)
  unfolding visit
  visit-Went zero r w v i h = cc
  visit-Went (suc depth) r w v i h = enter-Went (visit packages depth) (visit-Went depth) r w v i h

  pub fresh_walk-IsWalk : IsWalk fresh_walk
  fresh_walk-IsWalk = record { marked = λ q. refl; topological = tt }

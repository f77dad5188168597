-- ===== src/Graph/Canonical.antt =====
-- thunderstore.go: `canonicalPackageOrder`, the depth-first walk that puts each package after its
-- dependencies. A Go map is a list of keys and values without repeated keys. The depth of the calls
-- is the fuel: each call that goes deeper has marked one more package.
pub mod Topological
pub mod Ordered
pub mod Total
pub mod Acyclic
pub mod Reachable
use docker_vrising.Prelude.{
  ℕ, zero, suc, Bool, true, false, Option, none, some, List, [], ◌∷◌, ◌++◌, ◌==◌, nat_eq, length,
  any, if◌then◌else◌,
}
use docker_vrising.Prelude.Result.{Result, ok, err, ◌>>=◌, ◌>>◌, guard}
use docker_vrising.State.{PackageRef, package_ref_eq}
use docker_vrising.Graph.Refs.{sort_package_refs}

pub data OrderError : Type 0 where
  cycle missing : PackageRef → OrderError
  outside_roots out_of_fuel : OrderError

pub data Mark : Type 0 where
  unseen visiting visited : Mark

abbrev pub Dependencies : Type 0
Dependencies = List (PackageRef × List PackageRef)

-- `packages[ref]`
abbrev pub dependencies_of : Dependencies → PackageRef → Option (List PackageRef)
dependencies_of [] r = none
dependencies_of ((key, ds) ∷ rest) r =
    let later = dependencies_of rest r in if key == r then some ds else later

-- The variables that `visit` shares: `states` and `ordered`.
pub record Walk : Type 0 where
  pub states : PackageRef → Mark
  pub ordered : List PackageRef

abbrev pub set_mark : PackageRef → Mark → Walk → Walk
set_mark r m w = record w { states = λ q. if r == q then m else w.states q }

-- The loop over the dependencies, and over the roots.
abbrev pub visit_all :
    (PackageRef → Walk → Result OrderError Walk) → List PackageRef → Walk → Result OrderError Walk
visit_all visit_one [] w = ok w
visit_all visit_one (r ∷ rest) w = visit_one r w >>= visit_all visit_one rest

abbrev pub leave : PackageRef → Walk → Walk
leave r w = let v = set_mark r visited w in record v { ordered = v.ordered ++ (r ∷ []) }

module _ (packages : Dependencies) where
  abbrev pub expand :
      (PackageRef → Walk → Result OrderError Walk)
      → PackageRef
      → Walk
      → Option (List PackageRef)
      → Result OrderError Walk
  expand visit_one r w none = err (missing r)
  expand visit_one r w (some ds) = do
    v ← visit_all visit_one (sort_package_refs ds) (set_mark r visiting w)
    ok (leave r v)

  abbrev pub enter :
      (PackageRef → Walk → Result OrderError Walk)
      → PackageRef
      → Walk
      → Mark
      → Result OrderError Walk
  enter visit_one r w unseen = expand visit_one r w (dependencies_of packages r)
  enter visit_one r w visiting = err (cycle r)
  enter visit_one r w visited = ok w

  -- `visit`
  unfoldable pub visit : ℕ → PackageRef → Walk → Result OrderError Walk
  visit zero r w = err out_of_fuel
  visit (suc depth) r w = enter (visit depth) r w (w.states r)

abbrev pub fresh_walk : Walk
fresh_walk = record { states = λ r. unseen; ordered = [] }

unfoldable pub canonical_package_order :
    List PackageRef → Dependencies → Result OrderError (List PackageRef)
unfolding visit
canonical_package_order roots packages = do
  w ← visit_all (visit packages (suc (length packages))) roots fresh_walk
  guard (length w.ordered == length packages) outside_roots
  ok w.ordered

-- ===== src/Startup/Stage/Quiet.antt =====
-- The staging of a candidate starts nothing and changes nothing of the game.
use docker_vrising.Prelude.{
  Bool, true, false, ◌≡◌, refl, arith, ◌==◌, bytes_eq, Bytes, List, [], ◌∷◌, any, subst, sym,
}
use docker_vrising.Prelude.Result.{Result, ok, err}
use docker_vrising.State.{PackageRef, LockedPackage, PackageLock, package_ref_eq}
use docker_vrising.Graph.Roots.{validate_managed_root_refs}
use docker_vrising.Graph.Resolver.{ResolvedPackage, ResolvedGraph}
use docker_vrising.Startup.Host.{Application, Host, StagedGeneration, staged, Action}
use docker_vrising.Startup.Trace.{is_early}
use docker_vrising.Startup.Stage.{
  Archives, after_fetch, unless_duplicate, fetch_archives, fail_closing, locked_or,
  no_locked_package, lock_of, finish_stage, stage_fetched, stage_rooted, root_selections,
  stage_resolved, lift_roots, stage_candidate,
}

module _ (app : Application) where
  abbrev IsIdle : {A : Type 0} → Action Bytes A → Type 0
  IsIdle m = (h : Host) → (m h).1 ≡ h

  after_fetch-IsIdle :
      (archives : Archives) (r : Result Bytes LockedPackage)
      (next : LockedPackage → Action Bytes Archives)
      → ((a : LockedPackage) → IsIdle (next a))
      → IsIdle (after_fetch app archives r next)
  unfolding fail_closing
  after_fetch-IsIdle archives (ok a) next i h = i a h
  after_fetch-IsIdle archives (err e) next i h = refl

  unless_duplicate-IsIdle :
      (b : Bool) (archives : Archives) (next : Action Bytes Archives)
      → IsIdle next
      → IsIdle (unless_duplicate app b archives next)
  unfolding fail_closing
  unless_duplicate-IsIdle true archives next i h = refl
  unless_duplicate-IsIdle false archives next i h = i h

  fetch_archives-IsIdle :
      (prior : List LockedPackage) (packages : List ResolvedPackage) (archives : Archives)
      → IsIdle (fetch_archives app prior packages archives)
  unfolding fetch_archives
  fetch_archives-IsIdle prior [] archives h = refl
  fetch_archives-IsIdle prior (p ∷ packages) archives h =
      unless_duplicate-IsIdle (any (λ (a : PackageRef × LockedPackage). a.0 == p.ref) archives)
        archives
        (λ h.
          after_fetch app archives (app.fetch p (locked_or no_locked_package prior p.ref) h)
            (λ a. fetch_archives app prior packages ((p.ref, a) ∷ archives)) h)
        (λ h.
          after_fetch-IsIdle archives (app.fetch p (locked_or no_locked_package prior p.ref) h)
            (λ a. fetch_archives app prior packages ((p.ref, a) ∷ archives))
            (λ a. fetch_archives-IsIdle prior packages ((p.ref, a) ∷ archives)) h)
        h

  abbrev IsEarly : Host → Type 0
  IsEarly h = is_early h.calls ≡ true

  finish_stage-IsEarly :
      (lock : PackageLock) (archives : Archives) (r : Result Bytes StagedGeneration) (h : Host)
      → IsEarly h
      → IsEarly (finish_stage app lock archives (r, h)).1
  finish_stage-IsEarly lock archives (err e) h early = early
  finish_stage-IsEarly lock archives (ok s) h early = ground (arith, early)

  stage_fetched-IsEarly :
      (graph : ResolvedGraph) (r : Result Bytes Archives) (h : Host)
      → IsEarly h
      → IsEarly (stage_fetched app graph (r, h)).1
  stage_fetched-IsEarly graph (err e) h early = early
  stage_fetched-IsEarly graph (ok archives) h early =
      let lock = lock_of app graph archives h in
      let (r, document) = app.stage lock archives h in
      finish_stage-IsEarly lock archives r
        (record { document = document; calls = staged ∷ h.calls }) early

  stage_rooted-IsEarly :
      (active : StagedGeneration) (graph : ResolvedGraph) (r : Result Bytes (Unit {0})) (h : Host)
      → IsEarly h
      → IsEarly (stage_rooted app active graph r h).1
  stage_rooted-IsEarly active graph (err e) h early = early
  stage_rooted-IsEarly active graph (ok done) h early =
      let fetched = fetch_archives app active.lock.packages graph.packages [] h in
      stage_fetched-IsEarly graph fetched.0 fetched.1
        (subst IsEarly (sym (fetch_archives-IsIdle active.lock.packages graph.packages [] h)) early)

  stage_resolved-IsEarly :
      (active : StagedGeneration) (r : Result Bytes ResolvedGraph) (h : Host)
      → IsEarly h
      → IsEarly (stage_resolved app active r h).1
  stage_resolved-IsEarly active (err e) h early = early
  stage_resolved-IsEarly active (ok graph) h early =
      stage_rooted-IsEarly active graph (lift_roots app (validate_managed_root_refs graph.roots)) h
        early

  pub stage_candidate-early :
      (active : StagedGeneration) (h : Host)
      → is_early h.calls ≡ true
      → is_early (stage_candidate app active h).1.calls ≡ true
  unfolding stage_candidate
  stage_candidate-early active h early =
      stage_resolved-IsEarly active (app.resolve (root_selections app) h) h early

-- ===== src/Startup/Stage.antt =====
-- run.go: `loadActiveGeneration` and `stageCandidate`, which resolves the mods, fetches their archives
-- and stages a generation from them. A fetched archive stands for its `LockedPackage`.
pub mod Quiet
use docker_vrising.Prelude.{
  ℕ, Bool, true, false, Option, none, some, List, [], ◌∷◌, ◌++◌, ◌==◌, nat_eq, bytes_eq, Bytes,
  codes, any, if◌then◌else◌, map,
}
use docker_vrising.Prelude.Result.{Result, ok, err}
use docker_vrising.State.{
  State, PackageRef, LockedPackage, PackageLock, package_ref_eq, schema_version, pos,
}
use docker_vrising.Graph.Roots.{RootError, RootSelection, validate_managed_root_refs}
use docker_vrising.Graph.Resolver.{ResolvedPackage, ResolvedGraph}
use docker_vrising.Startup.Host.{
  Application, Host, Action, StagedGeneration, Call, staged, no_staged, ask, perform, fail, pure,
  handle, wrap, message, join, branch,
}

abbrev pub Archives : Type 0
Archives = List (PackageRef × LockedPackage)

abbrev no_locked_package : LockedPackage
no_locked_package = record {
  ref = record { namespace = []; name = []; version = [] };
  full_name = [];
  download_url = [];
  file_size = pos 0;
  sha256 = [];
  dependencies = [];
}

-- `prior[pkg.Ref]`: of several packages of one reference the last one, and the zero value of none.
abbrev locked_or : LockedPackage → List LockedPackage → PackageRef → LockedPackage
locked_or found [] r = found
locked_or found (p ∷ packages) r = locked_or (if p.ref == r then p else found) packages r

abbrev archive_of : Archives → PackageRef → LockedPackage
archive_of [] r = no_locked_package
archive_of ((key, p) ∷ archives) r =
    let later = archive_of archives r in if key == r then p else later

-- The error of one close, and those of the others.
abbrev joined : Result Bytes (Unit {0}) → Option Bytes → Option Bytes
joined (ok done) rest = rest
joined (err e) none = some e
joined (err e) (some rest) = some (join e rest)

module _ (app : Application) where
  -- `loadActiveGeneration`
  unfoldable pub load_active_generation : State → Action Bytes StagedGeneration
  load_active_generation s h = elim s.active [
    | none ↦ fail (message "active generation record is missing") h
    | some active ↦
        handle (ask app.load_package_lock) (λ e. fail (wrap "load active package lock" e))
          (λ lock.
            handle (ask (app.validate_active active lock))
              (λ e. fail (wrap "validate active generation" e)) pure)
          h
  ]

  -- `closeValidatedArchives`: every archive is closed, and the errors are joined.
  close_validated_archives : Archives → Host → Option Bytes
  close_validated_archives [] h = none
  close_validated_archives ((key, p) ∷ archives) h =
      joined (app.close_archive key h) (close_validated_archives archives h)

  join_close : Bytes → Archives → Host → Bytes
  unfolding close_validated_archives
  join_close e archives h = elim (close_validated_archives archives h) [
    | none ↦ e
    | some close_error ↦ join e close_error
  ]

  fail_closing : {A : Type 0} → Bytes → Archives → Action Bytes A
  unfolding join_close
  fail_closing e archives h = fail (join_close e archives h) h

  abbrev after_fetch :
      Archives
      → Result Bytes LockedPackage
      → (LockedPackage → Action Bytes Archives)
      → Action Bytes Archives
  after_fetch archives (err e) next = fail_closing (wrap "fetch mod archive" e) archives
  after_fetch archives (ok a) next = next a

  abbrev unless_duplicate : Bool → Archives → Action Bytes Archives → Action Bytes Archives
  unless_duplicate true archives next =
      fail_closing (message "resolved package graph contains a duplicate") archives
  unless_duplicate false archives next = next

  -- The loop over the packages of the graph.
  fetch_archives : List LockedPackage → List ResolvedPackage → Archives → Action Bytes Archives
  fetch_archives prior [] archives h = pure archives h
  fetch_archives prior (p ∷ packages) archives h =
      unless_duplicate (any (λ (a : PackageRef × LockedPackage). a.0 == p.ref) archives) archives
        (λ h.
          after_fetch archives (app.fetch p (locked_or no_locked_package prior p.ref) h)
            (λ a. fetch_archives prior packages ((p.ref, a) ∷ archives)) h)
        h

  abbrev lift_roots : Result RootError (Unit {0}) → Result Bytes (Unit {0})
  lift_roots (ok done) = ok tt
  lift_roots (err e) = err (message "managed roots are not the expected ordered exact roots")

  unfoldable pub lock_of : ResolvedGraph → Archives → Host → PackageLock
  lock_of graph archives h =
      let lock : PackageLock = record {
        schema_version = schema_version;
        roots = graph.roots;
        packages = map (λ (p : ResolvedPackage). archive_of archives p.ref) graph.packages;
        digest = [];
        resolved_at = app.now h;
      } in
      record lock { digest = app.package_lock_digest lock }

  -- What a run makes of the staged generation: the lock that it has staged.
  abbrev with_lock : PackageLock → StagedGeneration → StagedGeneration
  with_lock lock s = record s {
    generation = record s.generation { lock_digest = lock.digest };
    lock = lock;
  }

  abbrev after_stage :
      PackageLock → Archives → StagedGeneration → Host → (StagedGeneration × Option Bytes) × Host
  after_stage lock archives s h =
      if s.generation.id == []
      then (
        (
          no_staged,
          some (join_close (message "stage candidate returned an empty generation ID") archives h),
        ),
        h,
      )
      else ((with_lock lock s, close_validated_archives archives h), h)

  abbrev finish_stage :
      PackageLock
      → Archives
      → Result Bytes StagedGeneration × Host
      → (StagedGeneration × Option Bytes) × Host
  finish_stage lock archives (err e, h) = ((no_staged, some (join_close e archives h)), h)
  finish_stage lock archives (ok s, h) = after_stage lock archives s h

  abbrev stage_fetched :
      ResolvedGraph → Result Bytes Archives × Host → (StagedGeneration × Option Bytes) × Host
  stage_fetched graph (err e, h) = ((no_staged, some e), h)
  stage_fetched graph (ok archives, h) =
      let lock = lock_of graph archives h in
      finish_stage lock archives (perform (λ r. staged) (app.stage lock archives) h)

  abbrev stage_rooted :
      StagedGeneration
      → ResolvedGraph
      → Result Bytes (Unit {0})
      → Host
      → (StagedGeneration × Option Bytes) × Host
  stage_rooted active graph (err e) h = ((no_staged, some (wrap "validate resolved roots" e)), h)
  stage_rooted active graph (ok done) h =
      stage_fetched graph (fetch_archives active.lock.packages graph.packages [] h)

  abbrev stage_resolved :
      StagedGeneration
      → Result Bytes ResolvedGraph
      → Host
      → (StagedGeneration × Option Bytes) × Host
  stage_resolved active (err e) h = ((no_staged, some (wrap "resolve mod package graph" e)), h)
  stage_resolved active (ok graph) h =
      stage_rooted active graph (lift_roots (validate_managed_root_refs graph.roots)) h

  -- The two roots in the versions that the configuration selects.
  abbrev root_selections : List RootSelection
  root_selections =
      record {
        namespace = codes "odjit";
        name = codes "KindredCommands";
        version = app.config.kindred_version;
      }
      ∷ record {
        namespace = codes "Team_GreenEye";
        name = codes "Satisvampory";
        version = app.config.satisvampory_version;
      }
      ∷ []

  -- `stageCandidate`: the staged generation, empty where there is none, and the error beside it.
  unfoldable pub stage_candidate :
      StagedGeneration → Host → (StagedGeneration × Option Bytes) × Host
  unfolding lock_of join_close close_validated_archives fetch_archives fail_closing
  stage_candidate active h = stage_resolved active (app.resolve root_selections h) h

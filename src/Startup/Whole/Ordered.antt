-- ===== src/Startup/Whole/Ordered.antt =====
-- The order of the calls of a whole run.
use docker_vrising.Prelude.{
  ℕ, Bool, true, false, ◌≡◌, refl, arith, nat_eq, bytes_eq, if◌then◌else◌, Bytes, [], Option, some,
  none, Bool-cases, inl, inr,
}
use docker_vrising.Prelude.Result.{Result, ok, err}
use docker_vrising.State.{State}
use docker_vrising.Steam.{SteamBuild}
use docker_vrising.Startup.Host.{
  Application, Host, StagedGeneration, no_staged, RunError, applied, handle, ask, perform, pure,
  fail, Action, wrap, join, exit_failure, exit_preflight, exit_mod_update, load_state,
}
use docker_vrising.Startup.Trace.{is_orderly, Calm, Ends, Ends-handle, Ends-Steps, Calm-handle}
use docker_vrising.Startup.Fallback.{
  fence_prior_process, clear_degraded_runtime, record_fallback, build_of, prepare_steam,
}
use docker_vrising.Startup.Fallback.Known.{record_fallback-Calm, validate_known_good_steam-host}
use docker_vrising.Startup.Fallback.Backup.{prepare_steam-Steps}
use docker_vrising.Startup.Fallback.Fence.{fence_prior_process-Calm, clear_degraded_runtime-Calm}
use docker_vrising.Startup.Stage.Quiet.{stage_candidate-early}
use docker_vrising.Startup.Stage.{load_active_generation, stage_candidate}
use docker_vrising.Startup.Launch.{rollback_candidate, launch}
use docker_vrising.Startup.Launch.Promotion.{launch-Ends, rollback_candidate-Ends}
use docker_vrising.Startup.Whole.{
  discard_staged, discarding, recover_state, fenced_state, start_selected, without_candidate_built,
  run_without_candidate, apply_candidate, candidate_built, run_with_candidate, fallback_or_failure,
  after_staging, run_updating, run_frozen, run_fenced, run_locked, releasing_lock, run, active_of,
  is_staged, state_or_initial,
}

module _ (app : Application) where
  exit_failure-Ends : (code : ℕ) (e : Bytes) → Ends (exit_failure {A = Unit {0}} code e)
  exit_failure-Ends code e h early = ground (arith, early)

  pub fenced_state-Calm : Calm (fenced_state app)
  unfolding fenced_state
  fenced_state-Calm =
      Calm-handle (load_state app)
        (λ e. exit_failure {A = State} exit_preflight (wrap "load runtime state" e))
        (λ loaded.
          handle (fence_prior_process app (state_or_initial app loaded))
            (exit_failure exit_preflight) pure)
        (λ h early. ground (arith, early)) (λ e h early. early)
        (λ loaded.
          Calm-handle (fence_prior_process app (state_or_initial app loaded))
            (exit_failure {A = State} exit_preflight) pure
            (fence_prior_process-Calm app (state_or_initial app loaded)) (λ e h early. early)
            (λ t h early. early))

  pub recover_state-Calm : Calm (recover_state app)
  unfolding recover_state
  recover_state-Calm h early = ground (arith, early)

  start_selected-Ends :
      (selected : StagedGeneration) (build : SteamBuild) (candidate : Bool)
      → Ends (start_selected app selected build candidate)
  unfolding start_selected
  start_selected-Ends selected build candidate =
      Ends-handle (clear_degraded_runtime app)
        (λ e. if candidate then rollback_candidate app e else exit_failure exit_preflight e)
        (λ cleared. launch app selected build candidate) (clear_degraded_runtime-Calm app)
        (λ e h early. ground (arith, early, rollback_candidate-Ends app e h early))
        (λ cleared. launch-Ends app selected build candidate)

  -- A discard changes the order of nothing.
  discarding-Keeps :
      (staged : StagedGeneration) (m : Action RunError (Unit {0})) (h : Host)
      → is_orderly (m h).1.calls ≡ true
      → is_orderly (discarding app staged m h).1.calls ≡ true
  unfolding discarding
  discarding-Keeps staged m h o = ground (arith, o)

  discard_staged-Calm : (staged : StagedGeneration) → Calm (discard_staged app staged)
  discard_staged-Calm staged h early = ground (arith, early)

  module _ (s : State) (installed : Result Bytes SteamBuild) (active : StagedGeneration) where
    without_candidate_built-Ends :
        (selected : StagedGeneration) (p : SteamBuild × Bool)
        → Ends (without_candidate_built app s installed active selected p)
    without_candidate_built-Ends selected (build, true) =
        launch-Ends app active (build_of app installed) false
    without_candidate_built-Ends selected (build, false) = start_selected-Ends selected build false

    run_without_candidate-Ends :
        (selected : StagedGeneration) → Ends (run_without_candidate app s installed active selected)
    unfolding run_without_candidate
    run_without_candidate-Ends selected =
        Ends-Steps (prepare_steam app s installed active) fail
          (without_candidate_built app s installed active selected)
          (prepare_steam-Steps app s installed active) (λ e h o. o)
          (without_candidate_built-Ends selected)

    apply_candidate-Ends :
        (candidate : StagedGeneration) (build : SteamBuild)
        → Ends (apply_candidate app s installed active candidate build)
    unfolding apply_candidate
    apply_candidate-Ends candidate build =
        Ends-handle (perform (λ r. applied) (app.apply candidate))
          (λ e. discarding app candidate (rollback_candidate app (wrap "apply candidate mods" e)))
          (λ done. start_selected app candidate build true) (λ h early. ground (arith, early))
          (λ e h early.
            discarding-Keeps candidate (rollback_candidate app (wrap "apply candidate mods" e)) h
              (rollback_candidate-Ends app (wrap "apply candidate mods" e) h early))
          (λ done. start_selected-Ends candidate build true)

    candidate_built-Ends :
        (candidate : StagedGeneration) (p : SteamBuild × Bool)
        → Ends (candidate_built app s installed active candidate p)
    candidate_built-Ends candidate (build, false) = apply_candidate-Ends candidate build
    candidate_built-Ends candidate (build, true) =
        Ends-handle (discard_staged app candidate)
          (λ e. exit_failure exit_mod_update (wrap "discard unreferenced staged generation" e))
          (λ done. launch app active (build_of app installed) false) (discard_staged-Calm candidate)
          (λ e. exit_failure-Ends exit_mod_update (wrap "discard unreferenced staged generation" e))
          (λ done. launch-Ends app active (build_of app installed) false)

    run_with_candidate-Ends :
        (candidate : StagedGeneration) → Ends (run_with_candidate app s installed active candidate)
    unfolding run_with_candidate
    run_with_candidate-Ends candidate =
        Ends-Steps (prepare_steam app s installed active) (λ e. discarding app candidate (fail e))
          (candidate_built app s installed active candidate)
          (prepare_steam-Steps app s installed active)
          (λ e h o. discarding-Keeps candidate (fail e) h o) (candidate_built-Ends candidate)

    fallback_or_failure-Ends :
        (code : ℕ) (cause : Bytes) → Ends (fallback_or_failure app s installed active code cause)
    unfolding fallback_or_failure
    fallback_or_failure-Ends code cause =
        Ends-handle (record_fallback app s installed active cause)
          (λ e. exit_failure code (join cause e))
          (λ done. launch app active (build_of app installed) false)
          (record_fallback-Calm app s installed active cause)
          (λ e. exit_failure-Ends code (join cause e))
          (λ done. launch-Ends app active (build_of app installed) false)

    after_staging-Ends :
        (p : StagedGeneration × Option Bytes) → Ends (after_staging app s installed active p)
    after_staging-Ends (candidate, none) = run_with_candidate-Ends candidate
    after_staging-Ends (candidate, some e) = elim (Bool-cases (is_staged candidate)) [
      | inr k ↦ rw (k, after_staging, if◌then◌else◌) (fallback_or_failure-Ends exit_mod_update e)
      | inl k ↦
          rw (k, after_staging, if◌then◌else◌)
            (Ends-handle (discard_staged app candidate)
              (λ f. exit_failure exit_mod_update (join e f))
              (λ done. fallback_or_failure app s installed active exit_mod_update e)
              (discard_staged-Calm candidate) (λ f. exit_failure-Ends exit_mod_update (join e f))
              (λ done. fallback_or_failure-Ends exit_mod_update e))
    ]

    run_updating-Ends : Ends (run_updating app s installed active)
    unfolding run_updating
    run_updating-Ends h early =
        let r = stage_candidate app active h in
        after_staging-Ends r.0 r.1 (stage_candidate-early app active h early)

    run_frozen-Ends :
        (r : Result Bytes StagedGeneration) → Ends (run_frozen app s installed active r)
    unfolding run_frozen
    run_frozen-Ends (err e) h early =
        exit_failure-Ends exit_mod_update
          (wrap "UPDATE_MODS=false requires a valid active generation" e) h early
    run_frozen-Ends (ok frozen) h early = ground (
      arith,
      early,
      validate_known_good_steam-host app s installed h,
      run_without_candidate-Ends active h early,
    )

  run_fenced-Ends : (s : State) → Ends (run_fenced app s)
  unfolding run_fenced
  run_fenced-Ends s h early =
      let installed = app.installed_build h in
      let loaded = (load_active_generation app s h).0 in
      ground (
        arith,
        run_without_candidate-Ends s installed no_staged no_staged h early,
        run_updating-Ends s installed (active_of app loaded) h early,
        run_frozen-Ends s installed (active_of app loaded) loaded h early,
      )

  run_locked-Ends : Ends (run_locked app)
  unfolding run_locked
  run_locked-Ends =
      Ends-handle (ask app.prepare_runtime) (exit_failure {A = Unit {0}} exit_preflight)
        (λ prepared.
          handle (recover_state app) fail (λ done. handle (fenced_state app) fail (run_fenced app)))
        (λ h early. early) (exit_failure-Ends exit_preflight)
        (λ prepared.
          Ends-handle (recover_state app) fail
            (λ done. handle (fenced_state app) fail (run_fenced app)) recover_state-Calm
            (λ e h early. ground (arith, early))
            (λ done.
              Ends-handle (fenced_state app) fail (run_fenced app) fenced_state-Calm
                (λ e h early. ground (arith, early)) run_fenced-Ends))

  releasing_lock-Ends : (m : Action RunError (Unit {0})) → Ends m → Ends (releasing_lock app m)
  unfolding releasing_lock
  releasing_lock-Ends m i h early = i h early

  -- In a whole run, the server is started at most once, and not after an update that failed once it
  -- had begun to change the game; and no candidate is rolled back after its promotion was done or
  -- left to be completed by the next run.
  pub run-is_orderly :
      (d : Option State) → is_orderly (run app (record { document = d; calls = [] })).1.calls ≡ true
  unfolding run
  run-is_orderly d =
      let h : Host = record { document = d; calls = [] } in
      ground (arith, releasing_lock-Ends (run_locked app) run_locked-Ends h refl)

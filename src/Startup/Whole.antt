-- ===== src/Startup/Whole.antt =====
-- run.go: `Application.Run`, from the checks of the dependencies to the end of the server. A failed
-- close of the lifetime lock, and a failed discard of a staged generation that was not applied, are
-- joined to the error of the run.
pub mod Fenced
pub mod Ordered
use docker_vrising.Prelude.{
  ℕ, Bool, true, false, ◌&&◌, ◌||◌, not, Option, none, some, List, [], ◌∷◌, ◌==◌, bytes_eq, Bytes,
  if◌then◌else◌,
}
use docker_vrising.Prelude.Result.{Result, ok, err}
use docker_vrising.State.{State, initial_state}
use docker_vrising.Steam.{SteamBuild}
use docker_vrising.Startup.Host.{
  Application, Host, Action, Answer, StagedGeneration, no_staged, RunError, RecoverError,
  pending_generation, recover_failed, PromotionOutcome, committed, not_committed, recovery_required,
  Call, recovered, promotion_recovered, applied, discarded, ask, perform, fail, pure, handle,
  branch, ◌>>=◌, ◌>>◌, wrap, message, join, exit_failure, exit_preflight, exit_mod_update,
  exit_steam, load_state,
}
use docker_vrising.Startup.Fallback.{
  fence_prior_process, clear_degraded_runtime, validate_known_good_steam, record_fallback, build_of,
  prepare_steam,
}
use docker_vrising.Startup.Stage.{load_active_generation, stage_candidate}
use docker_vrising.Startup.Launch.{rollback_candidate, launch}

-- `errors.Join` of what a run returns and what its deferred call returns.
abbrev join_run : Result RunError (Unit {0}) → RunError → Result RunError (Unit {0})
join_run (ok done) e = err e
join_run (err first) e = err (record { code = first.code; text = join first.text e.text })

abbrev join_answer :
    Result RunError (Unit {0}) → ℕ → Result Bytes (Unit {0}) → Result RunError (Unit {0})
join_answer r code (ok done) = r
join_answer r code (err e) = join_run r (record { code = code; text = e })

abbrev is_staged : StagedGeneration → Bool
is_staged s = not (s.generation.id == [])

module _ (app : Application) where
  -- `dependenciesReady`
  unfoldable pub dependencies_ready : Bool
  dependencies_ready =
      app.has.store
      && (app.has.steam
          && (app.has.supervisor
              && ((not app.config.update_game || app.has.backups)
                  && (not app.config.mods_enabled
                      || (app.has.mods
                          && (not app.config.update_mods
                              || (app.has.resolver && app.has.archives)))))))

  abbrev discard_staged : StagedGeneration → Action Bytes (Unit {0})
  discard_staged s = perform (λ r. discarded) (app.discard s)

  -- The deferred discard of a staged generation that was not applied.
  unfoldable pub discarding :
      StagedGeneration → Action RunError (Unit {0}) → Action RunError (Unit {0})
  discarding s m h =
      let (r, h1) = m h in
      let (d, h2) = discard_staged s h1 in (join_answer r exit_mod_update d, h2)

  abbrev after_recover_promotion :
      (PromotionOutcome × Option Bytes) × Option State → Host → Result RunError (Unit {0}) × Host
  after_recover_promotion ((committed, none), document) h =
      handle
        (perform (λ (r : Result RecoverError (Unit {0})). recovered)
          app.recover_interrupted_transaction)
        (λ e. exit_failure exit_preflight (message "resume transaction recovery after promotion"))
        pure (record { document = document; calls = promotion_recovered ∷ h.calls })
  after_recover_promotion (answer, document) h =
      exit_failure exit_preflight (message "recover pending promotion")
        (record { document = document; calls = promotion_recovered ∷ h.calls })

  abbrev after_recovery : RecoverError → Action RunError (Unit {0})
  after_recovery (recover_failed e) h =
      exit_failure exit_preflight (wrap "recover interrupted transaction" e) h
  after_recovery (pending_generation id) h =
      if not app.has.mods
      then exit_failure exit_preflight (wrap "recover interrupted transaction" id) h
      else after_recover_promotion (app.recover_promotion h) h

  -- The recovery of what an earlier run left, and of its pending promotion.
  unfoldable pub recover_state : Action RunError (Unit {0})
  recover_state =
      handle
        (perform (λ (r : Result RecoverError (Unit {0})). recovered)
          app.recover_interrupted_transaction)
        after_recovery pure

  abbrev state_or_initial : Option State → State
  state_or_initial none = initial_state
  state_or_initial (some s) = s

  -- The state of a run, with no process of an earlier run left in it.
  unfoldable pub fenced_state : Action RunError State
  fenced_state =
      handle (load_state app) (λ e. exit_failure exit_preflight (wrap "load runtime state" e))
        (λ loaded.
          handle (fence_prior_process app (state_or_initial loaded)) (exit_failure exit_preflight)
            pure)

  -- From the chosen build to the start of the server.
  unfoldable pub start_selected : StagedGeneration → SteamBuild → Bool → Action RunError (Unit {0})
  start_selected selected build candidate =
      handle (clear_degraded_runtime app)
        (λ e. if candidate then rollback_candidate app e else exit_failure exit_preflight e)
        (λ cleared. launch app selected build candidate)

  abbrev active_of : Result Bytes StagedGeneration → StagedGeneration
  active_of (ok s) = s
  active_of (err e) = no_staged

  module _ (s : State) (installed : Result Bytes SteamBuild) (active : StagedGeneration) where
    abbrev without_candidate_built :
        StagedGeneration → SteamBuild × Bool → Action RunError (Unit {0})
    without_candidate_built selected (build, fallback) =
        if fallback
        then launch app active (build_of app installed) false
        else start_selected selected build false

    unfoldable pub run_without_candidate : StagedGeneration → Action RunError (Unit {0})
    run_without_candidate selected =
        handle (prepare_steam app s installed active) fail (without_candidate_built selected)

    unfoldable pub apply_candidate : StagedGeneration → SteamBuild → Action RunError (Unit {0})
    apply_candidate candidate build =
        handle (perform (λ r. applied) (app.apply candidate))
          (λ e. discarding candidate (rollback_candidate app (wrap "apply candidate mods" e)))
          (λ done. start_selected candidate build true)

    abbrev candidate_built : StagedGeneration → SteamBuild × Bool → Action RunError (Unit {0})
    candidate_built candidate (build, fallback) =
        if fallback
        then handle (discard_staged candidate)
            (λ e. exit_failure exit_mod_update (wrap "discard unreferenced staged generation" e))
            (λ done. launch app active (build_of app installed) false)
        else apply_candidate candidate build

    unfoldable pub run_with_candidate : StagedGeneration → Action RunError (Unit {0})
    run_with_candidate candidate =
        handle (prepare_steam app s installed active) (λ e. discarding candidate (fail e))
          (candidate_built candidate)

    -- `fallbackOrFailure`
    unfoldable pub fallback_or_failure : ℕ → Bytes → Action RunError (Unit {0})
    fallback_or_failure code cause =
        handle (record_fallback app s installed active cause)
          (λ e. exit_failure code (join cause e))
          (λ done. launch app active (build_of app installed) false)

    abbrev after_staging : StagedGeneration × Option Bytes → Action RunError (Unit {0})
    after_staging (candidate, none) = run_with_candidate candidate
    after_staging (candidate, some e) =
        if is_staged candidate
        then handle (discard_staged candidate) (λ f. exit_failure exit_mod_update (join e f))
            (λ done. fallback_or_failure exit_mod_update e)
        else fallback_or_failure exit_mod_update e

    unfoldable pub run_updating : Action RunError (Unit {0})
    run_updating h =
        let (outcome, after) = stage_candidate app active h in after_staging outcome after

    -- `UPDATE_MODS=false`: the active generation as it is installed.
    unfoldable pub run_frozen : Result Bytes StagedGeneration → Action RunError (Unit {0})
    run_frozen (err e) =
        exit_failure exit_mod_update (wrap "UPDATE_MODS=false requires a valid active generation" e)
    run_frozen (ok frozen) =
        handle (ask (app.verify_installed active.manifest))
          (λ e. exit_failure exit_mod_update (wrap "validate frozen mod installation" e))
          (λ verified.
            handle (validate_known_good_steam app s installed)
              (λ e.
                exit_failure exit_steam
                  (wrap "UPDATE_MODS=false requires a valid recorded Steam runtime" e))
              (λ known. run_without_candidate active))

  -- From the fenced state on.
  unfoldable pub run_fenced : State → Action RunError (Unit {0})
  run_fenced s h =
      let installed = app.installed_build h in
      (if not app.config.mods_enabled
          then run_without_candidate s installed no_staged no_staged
          else handle (λ h. (ok (load_active_generation app s h).0, h)) fail
              (λ loaded.
                if app.config.update_mods
                then run_updating s installed (active_of loaded)
                else run_frozen s installed (active_of loaded) loaded))
        h

  -- What a run does while it holds the lifetime lock.
  unfoldable pub run_locked : Action RunError (Unit {0})
  run_locked =
      handle (ask app.prepare_runtime) (exit_failure exit_preflight)
        (λ prepared. recover_state >> (fenced_state >>= run_fenced))

  unfoldable pub releasing_lock : Action RunError (Unit {0}) → Action RunError (Unit {0})
  releasing_lock m h =
      let (r, after) = m h in (join_answer r exit_preflight (app.close_lifetime_lock after), after)

  -- `Run`
  unfoldable pub run : Action RunError (Unit {0})
  run =
      if not dependencies_ready
      then exit_failure exit_preflight (message "dependencies are required")
      else handle (ask app.validate_mounts)
          (λ e. exit_failure exit_preflight (wrap "validate runtime mounts" e))
          (λ mounted.
            handle (ask app.open_lifetime_lock)
              (λ e. exit_failure exit_preflight (wrap "acquire lifetime lock" e))
              (λ locked. releasing_lock run_locked))

-- ===== src/Startup/Fallback.antt =====
-- run.go: the fence of a prior server process, the known-good runtime that a run falls back to, and
-- `prepareSteam`, which brings the game to its newest build or falls back.
pub mod Fence
pub mod Known
pub mod Update
pub mod Backup
use docker_vrising.Prelude.{
  ℕ, zero, suc, Bool, true, false, ◌&&◌, ◌||◌, not, Option, none, some, List, [], ◌∷◌, ◌++◌, ◌==◌,
  nat_eq, bytes_eq, Bytes, codes, if◌then◌else◌, leb, length,
}
use docker_vrising.Prelude.Result.{Result, ok, err}
use docker_vrising.State.{
  ℤ, State, ProcessIdentity, RuntimeState, no_process, no_runtime, int_beq, is_non_positive,
  matches,
}
use docker_vrising.Console.{trim_space}
use docker_vrising.Steam.{SteamBuild, UpdateError, pre_mutation, post_mutation}
use docker_vrising.Startup.Host.{
  Application, Host, Action, StagedGeneration, ProcError, no_such_process, proc_failed, RunError,
  BackupRequest, Call, backup_created, backups_pruned, steam_updated, no_build, ask, perform, fail,
  pure, handle, ◌>>=◌, ◌>>◌, wrap, message, join, exit_failure, exit_steam, exit_backup, load_state,
  save_state, branch, wrapping, Answer,
}

abbrev ready_phase : Bytes
ready_phase = codes "ready"

-- `==` of `ProcessIdentity` and of `SteamBuild`.
abbrev pub identity_beq : ProcessIdentity → ProcessIdentity → Bool
identity_beq a b = int_beq a.pid b.pid && a.start_ticks == b.start_ticks

abbrev pub build_beq : SteamBuild → SteamBuild → Bool
build_beq a b =
    a.build_id == b.build_id && (a.depot_manifest == b.depot_manifest && a.branch == b.branch)

abbrev pub is_error : {E A : Type 0} → Result E A → Bool
is_error (ok a) = false
is_error (err e) = true

module _ (app : Application) where
  stopped : State → Host → State
  stopped s h = record s {
    runtime = record s.runtime {
      server = no_process;
      ready = false;
      phase = codes "stopped";
      updated_at = app.now h;
    };
  }

  clear_server : State → Action Bytes State
  unfolding stopped
  clear_server s h =
      handle (save_state app (stopped s h))
        (λ e. fail (wrap "clear stale server process identity" e)) (λ done. pure (stopped s h)) h

  -- What the inspector says of the process that the state records.
  abbrev fence_by : State → Result ProcError ProcessIdentity → Action Bytes State
  fence_by s (err no_such_process) = clear_server s
  fence_by s (err (proc_failed e)) = fail (wrap "inspect recorded server process" e)
  fence_by s (ok live) =
      if not (int_beq live.pid s.runtime.server.pid) || live.start_ticks == 0
      then fail (message "process inspector returned an invalid identity")
      else if matches s.runtime.server live
      then fail (message "recorded server process is still running")
      else clear_server s

  -- `fencePriorProcess`
  unfoldable pub fence_prior_process : State → Action Bytes State
  unfolding clear_server
  fence_prior_process s h =
      let recorded = s.runtime.server in
      (if identity_beq recorded no_process
          then if s.runtime.ready
            then fail (message "recorded ready runtime has no process identity")
            else pure s
          else if is_non_positive recorded.pid || recorded.start_ticks == 0
          then fail (message "recorded runtime process identity is incomplete")
          else if not app.has.proc
          then fail (message "process inspector is unavailable")
          else fence_by s (app.identity recorded.pid h))
        h

  -- `clearDegradedRuntime`
  abbrev clear_loaded : Option State → Action Bytes (Unit {0})
  clear_loaded none h = pure tt h
  clear_loaded (some s) h =
      (if not s.runtime.degraded && s.runtime.reason == []
          then pure tt
          else handle
              (save_state app (record s {
                runtime = record s.runtime {
                  degraded = false;
                  reason = [];
                  updated_at = app.now h;
                };
              }))
              (λ e. fail (wrap "clear degraded runtime before normal launch" e)) pure)
        h

  unfoldable pub clear_degraded_runtime : Action Bytes (Unit {0})
  clear_degraded_runtime =
      handle (load_state app) (λ e. fail (wrap "load runtime state before normal launch" e))
        clear_loaded

  abbrev pub build_of : Result Bytes SteamBuild → SteamBuild
  build_of (ok b) = b
  build_of (err e) = no_build

  -- `validateKnownGoodSteam`
  unfoldable pub validate_known_good_steam :
      State → Result Bytes SteamBuild → Action Bytes (Unit {0})
  validate_known_good_steam s installed h =
      let b = build_of installed in
      (if is_error installed || b.build_id == []
          then fail (message "known-good executable is unavailable")
          else if s.steam_build == [] || not (s.steam_build == b.build_id)
          then fail (message "installed Steam build does not match recorded known-good build")
          else handle (ask (app.validate_installed b))
              (λ e. fail (wrap "validate known-good Steam runtime" e))
              (λ validated.
                if build_beq validated b
                then pure tt
                else fail (message "validated Steam runtime does not match installed build")))
        h

  abbrev take : ℕ → Bytes → Bytes
  take zero s = []
  take (suc n) [] = []
  take (suc n) (c ∷ s) = c ∷ take n s

  -- `shortLogReason`, of logs.go
  short_log_reason : Bytes → Bytes
  short_log_reason line =
      let text = trim_space line in
      if leb (length text) 160 then text else take 160 text ++ codes "..."

  -- The runtime that a fallback records.
  unfoldable pub degraded_runtime : Bytes → Bytes → Bytes → Host → RuntimeState
  unfolding short_log_reason
  degraded_runtime reason generation build h = record {
    phase = codes "degraded";
    ready = false;
    degraded = true;
    reason = short_log_reason reason;
    server = no_process;
    generation = generation;
    steam_build = build;
    updated_at = app.now h;
  }

  module _ (s : State) (installed : Result Bytes SteamBuild) (active : StagedGeneration) where
    abbrev pub degraded_state : Bytes → Host → State
    degraded_state cause h = record s {
      runtime = degraded_runtime cause active.generation.id (build_of installed).build_id h;
    }

    -- `recordFallback`
    unfoldable pub record_fallback : Bytes → Action Bytes (Unit {0})
    record_fallback cause h =
        (if active.generation.id == []
            then fail (message "known-good active generation is unavailable")
            else handle (ask (app.verify_installed active.manifest))
                (λ e. fail (wrap "validate known-good mod installation" e))
                (λ verified. handle (validate_known_good_steam s installed) fail (λ known.
                  handle (save_state app (degraded_state cause h))
                    (λ e. fail (wrap "record degraded runtime state" e)) pure)))
          h

    -- A fallback, or the error that it meets joined to its cause.
    unfoldable pub fall_back : ℕ → Bytes → Action RunError (SteamBuild × Bool)
    fall_back code cause =
        handle (record_fallback cause) (λ e. exit_failure code (join cause e))
          (λ done. pure (build_of installed, true))

    abbrev validated_build : Action RunError (SteamBuild × Bool)
    validated_build =
        handle (ask (app.validate_installed (build_of installed))) (λ e. exit_failure exit_steam e)
          (λ validated. pure (validated, false))

    abbrev keep_installed : Result Bytes SteamBuild → Action RunError (SteamBuild × Bool)
    keep_installed (err e) = exit_failure exit_steam (wrap "validate installed Steam build" e)
    keep_installed (ok b) = validated_build

    abbrev log_update : SteamBuild → Result UpdateError SteamBuild → Call
    log_update target (ok b) = steam_updated target none
    log_update target (err e) = steam_updated target (some e)

    abbrev after_update : UpdateError → Action RunError (SteamBuild × Bool)
    after_update (pre_mutation e) =
        fall_back exit_steam
          (wrap "update Steam before mutation" (app.update_message (pre_mutation e)))
    after_update (post_mutation e) =
        exit_failure exit_steam
          (wrap "update and validate Steam" (app.update_message (post_mutation e)))

    unfoldable pub update_build : SteamBuild → Action RunError (SteamBuild × Bool)
    update_build target =
        handle (perform (log_update target) (λ h. (app.update_steam target h, h.document)))
          after_update (λ updated. pure (updated, false))

    abbrev log_create : Result Bytes (Unit {0}) → Call
    log_create r = backup_created (not (is_error r))

    abbrev log_prune : Result Bytes (Unit {0}) → Call
    log_prune r = backups_pruned (not (is_error r))

    -- The backup of the installed build, and the removal of old ones.
    unfoldable pub back_up : SteamBuild → Action Bytes (Unit {0})
    back_up target =
        handle
          (perform log_create (λ h. (
            app.create_backup
                (record {
                  installed_build = (build_of installed).build_id;
                  target_build = target.build_id;
                  package_digest = active.lock.digest;
                })
                h,
            h.document,
          )))
          fail
          (λ done.
            perform log_prune (λ h. (app.prune_backups app.config.backup_retention h, h.document)))

    unfoldable pub replace_build : SteamBuild → Action RunError (SteamBuild × Bool)
    replace_build target =
        if not (is_error installed) && not ((build_of installed).build_id == [])
        then handle (back_up target) (λ e. fall_back exit_backup (wrap "back up current server" e))
            (λ done. update_build target)
        else update_build target

    -- `prepareSteam`: the build to run, and whether it is a fallback.
    unfoldable pub prepare_steam : Action RunError (SteamBuild × Bool)
    prepare_steam =
        if not app.config.update_game
        then keep_installed installed
        else handle (ask app.remote_build)
            (λ e. fall_back exit_steam (wrap "query remote Steam build" e))
            (λ target.
              if not (is_error installed) && build_beq (build_of installed) target
              then validated_build
              else replace_build target)

-- ===== src/Startup/Fallback/Update.antt =====
-- `prepareSteam`: the backup comes before the update, and only an update that changed nothing falls back.
use docker_vrising.Prelude.{
  ℕ, Bool, true, false, ◌≡◌, refl, arith, not, ◌&&◌, ◌==◌, bytes_eq, if◌then◌else◌, Bytes, [], ◌∷◌,
  any, some, none, Bool-cases, inl, inr, subst,
}
use docker_vrising.Prelude.Result.{Result, ok, err}
use docker_vrising.State.{State}
use docker_vrising.Steam.{SteamBuild, UpdateError, pre_mutation, post_mutation}
use docker_vrising.Startup.Host.{
  Application, Host, Call, StagedGeneration, RunError, steam_updated, branch, pure, wrap,
  exit_steam, exit_backup, exit_failure,
}
use docker_vrising.Startup.Fallback.{
  prepare_steam, validated_build, keep_installed, replace_build, update_build, after_update,
  log_update, back_up, fall_back, record_fallback, build_of, build_beq, is_error,
}
use docker_vrising.Startup.Fallback.Known.{IsRecorded, record_fallback-IsRecorded}

-- The call changed the game, or may have.
abbrev pub changes_game : Call → Bool
changes_game (steam_updated target none) = true
changes_game (steam_updated target (some (post_mutation e))) = true
changes_game _ = false

module _ (app : Application) (s : State) (installed : Result Bytes SteamBuild)
    (active : StagedGeneration) where
  -- A fallback: the build is the installed one, the calls since `h` have not changed the game, and
  -- the last of them recorded a degraded run of a known-good runtime.
  pub record IsFallback (h after : Host) (b : SteamBuild) : Type 0 where
    pub build : b ≡ build_of app installed
    pub untouched : any changes_game after.calls ≡ any changes_game h.calls
    pub cause : Bytes
    pub before : Host
    pub recorded : IsRecorded app s installed active cause before after

  abbrev Falls : Host → (Result RunError (SteamBuild × Bool)) × Host → Type 0
  Falls h (ok (b, fallback), after) = fallback ≡ true → IsFallback h after b
  Falls h (err e, after) = Unit {0}

  fall_back-Falls :
      (code : ℕ) (cause : Bytes) (h before : Host)
      → any changes_game before.calls ≡ any changes_game h.calls
      → Falls h (fall_back app s installed active code cause before)
  unfolding fall_back
  fall_back-Falls code cause h before same =
      from (record_fallback app s installed active cause before).0 refl
    where
      from :
          (r : Result Bytes (Unit {0}))
          → (record_fallback app s installed active cause before).0 ≡ r
          → Falls h (fall_back app s installed active code cause before)
      from (err e) f = rw f tt
      from (ok done) f =
          let i = record_fallback-IsRecorded app s installed active cause before f in
          rw f (λ yes. record {
            build = refl;
            untouched = ground (arith, same, i.calls);
            cause = cause;
            before = before;
            recorded = i;
          })

  after_update-Falls :
      (target : SteamBuild) (r : Result UpdateError SteamBuild) (h before : Host)
      → any changes_game before.calls ≡ any changes_game h.calls
      → Falls h (
          branch r
            (after_update app s installed active)
            (λ updated. pure (updated, false))
            (record before { calls = log_update app s installed active target r ∷ before.calls }))
  after_update-Falls target (ok b) h before same = λ no. cc
  after_update-Falls target (err (post_mutation e)) h before same = tt
  after_update-Falls target (err (pre_mutation e)) h before same =
      fall_back-Falls exit_steam
        (wrap "update Steam before mutation" (app.update_message (pre_mutation e))) h
        (record before { calls = steam_updated target (some (pre_mutation e)) ∷ before.calls }) same

  update_build-Falls :
      (target : SteamBuild) (h before : Host)
      → any changes_game before.calls ≡ any changes_game h.calls
      → Falls h (update_build app s installed active target before)
  unfolding update_build
  update_build-Falls target h before same =
      after_update-Falls target (app.update_steam target before) h before same

  back_up-untouched :
      (target : SteamBuild) (h : Host)
      → any changes_game (back_up app s installed active target h).1.calls
        ≡ any changes_game h.calls
  unfolding back_up
  back_up-untouched target h = ground arith

  backed_up-Falls :
      (target : SteamBuild) (h : Host) (r : Result Bytes (Unit {0})) (before : Host)
      → any changes_game before.calls ≡ any changes_game h.calls
      → Falls h (
          branch r
            (λ e. fall_back app s installed active exit_backup (wrap "back up current server" e))
            (λ done. update_build app s installed active target)
            before)
  backed_up-Falls target h (ok done) before same = update_build-Falls target h before same
  backed_up-Falls target h (err e) before same =
      fall_back-Falls exit_backup (wrap "back up current server" e) h before same

  replace_build-Falls :
      (target : SteamBuild) (h : Host) → Falls h (replace_build app s installed active target h)
  unfolding replace_build
  replace_build-Falls target h =
      elim (Bool-cases
        (not (is_error installed) && not ((build_of app installed).build_id == []))) [
          | inl e ↦
              rw (e, if◌then◌else◌)
                (backed_up-Falls target h (back_up app s installed active target h).0
                  (back_up app s installed active target h).1 (back_up-untouched target h))
          | inr e ↦ rw (e, if◌then◌else◌) (update_build-Falls target h h refl)
        ]

  validated_build-Falls :
      (h : Host) (r : Result Bytes SteamBuild)
      → Falls h (
          branch r
            (λ e. exit_failure {A = SteamBuild × Bool} exit_steam e)
            (λ validated. pure (validated, false))
            h)
  validated_build-Falls h (ok b) = λ no. cc
  validated_build-Falls h (err e) = tt

  remote_build-Falls :
      (h : Host) (r : Result Bytes SteamBuild)
      → Falls h (
          branch r
            (λ e. fall_back app s installed active exit_steam (wrap "query remote Steam build" e))
            (λ target.
              if not (is_error installed) && build_beq (build_of app installed) target
              then validated_build app s installed active
              else replace_build app s installed active target)
            h)
  remote_build-Falls h (err e) =
      fall_back-Falls exit_steam (wrap "query remote Steam build" e) h h refl
  remote_build-Falls h (ok target) =
      elim (Bool-cases (not (is_error installed) && build_beq (build_of app installed) target)) [
        | inl e ↦
            rw (e, if◌then◌else◌)
              (validated_build-Falls h (app.validate_installed (build_of app installed) h))
        | inr e ↦ rw (e, if◌then◌else◌) (replace_build-Falls target h)
      ]

  keep_installed-Falls :
      (h : Host) (r : Result Bytes SteamBuild) → Falls h (keep_installed app s installed active r h)
  keep_installed-Falls h (err e) = tt
  keep_installed-Falls h (ok b) =
      validated_build-Falls h (app.validate_installed (build_of app installed) h)

  prepare_steam-Falls : (h : Host) → Falls h (prepare_steam app s installed active h)
  unfolding prepare_steam
  prepare_steam-Falls h = elim (Bool-cases (not app.config.update_game)) [
    | inl e ↦ rw (e, if◌then◌else◌) (keep_installed-Falls h installed)
    | inr e ↦ rw (e, if◌then◌else◌) (remote_build-Falls h (app.remote_build h))
  ]

  Falls-IsFallback :
      (h : Host) (r : Result RunError (SteamBuild × Bool) × Host) {b : SteamBuild}
      → Falls h r
      → r.0 ≡ ok (b, true)
      → IsFallback h r.1 b
  Falls-IsFallback h (ok (c, f), after) {b = b} i e =
      subst (IsFallback h after) (ground (arith, e)) (i (ground (arith, e)))
  Falls-IsFallback h (err x, after) i e = cc

  -- If the preparation of the game falls back, it has made no update that changed the game, the
  -- build to run is the installed one, which is known to be good, with the active generation
  -- installed, and the state that was saved last says that the run is degraded.
  pub prepare_steam-IsFallback :
      (h : Host) {b : SteamBuild}
      → (prepare_steam app s installed active h).0 ≡ ok (b, true)
      → IsFallback h (prepare_steam app s installed active h).1 b
  prepare_steam-IsFallback h e =
      Falls-IsFallback h (prepare_steam app s installed active h) (prepare_steam-Falls h) e

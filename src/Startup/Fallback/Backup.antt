-- ===== src/Startup/Fallback/Backup.antt =====
-- `prepareSteam`: an installed build is backed up before it is replaced.
use docker_vrising.Prelude.{
  ℕ, Bool, true, false, ◌≡◌, refl, arith, not, ◌&&◌, ◌==◌, bytes_eq, if◌then◌else◌, Bytes, List, [],
  ◌∷◌, some, Bool-cases, inl, inr,
}
use docker_vrising.Prelude.Result.{Result, ok, err}
use docker_vrising.State.{State}
use docker_vrising.Steam.{SteamBuild, UpdateError, pre_mutation, post_mutation}
use docker_vrising.Startup.Host.{
  Application, Host, Call, StagedGeneration, RunError, steam_updated, backup_created,
  backups_pruned, branch, pure, wrap, exit_steam, exit_backup, exit_failure, no_build,
}
use docker_vrising.Startup.Trace.{is_early, Calm, Steps, Settles}
use docker_vrising.Startup.Fallback.{
  prepare_steam, after_update, log_update, validated_build, keep_installed, replace_build,
  update_build, back_up, fall_back, record_fallback, build_of, build_beq, is_error,
}
use docker_vrising.Startup.Fallback.Known.{validate_known_good_steam-host, record_fallback-Calm}

-- The two calls before an update, the last one first, are a backup that was made and old ones pruned.
abbrev pub follows_backup : List Call → Bool
follows_backup (backups_pruned true ∷ backup_created true ∷ calls) = true
follows_backup _ = false

abbrev pub is_backed_up : List Call → Bool
is_backed_up [] = true
is_backed_up (steam_updated target e ∷ calls) = follows_backup calls && is_backed_up calls
is_backed_up (c ∷ calls) = is_backed_up calls

module _ (app : Application) (s : State) (installed : Result Bytes SteamBuild)
    (active : StagedGeneration) where
  record_fallback-backed :
      (cause : Bytes) (h : Host)
      → is_backed_up h.calls ≡ true
      → is_backed_up (record_fallback app s installed active cause h).1.calls ≡ true
  unfolding record_fallback
  record_fallback-backed cause h b =
      ground (arith, validate_known_good_steam-host app s installed h)

  fall_back-backed :
      (code : ℕ) (cause : Bytes) (h : Host)
      → is_backed_up h.calls ≡ true
      → is_backed_up (fall_back app s installed active code cause h).1.calls ≡ true
  unfolding fall_back
  fall_back-backed code cause h b = ground (arith, record_fallback-backed cause h b)

  fall_back-Steps : (code : ℕ) (cause : Bytes) → Steps (fall_back app s installed active code cause)
  unfolding fall_back
  fall_back-Steps code cause h early =
      ground (arith, record_fallback-Calm app s installed active cause h early)

  module _ (target : SteamBuild) where
    abbrev updated :
        Result UpdateError SteamBuild → Host → Result RunError (SteamBuild × Bool) × Host
    updated r before =
        branch r (after_update app s installed active) (λ updated. pure (updated, false))
          (record before { calls = log_update app s installed active target r ∷ before.calls })

    after_update-backed :
        (r : Result UpdateError SteamBuild) (before : Host)
        → is_backed_up before.calls ≡ true
        → follows_backup before.calls ≡ true
        → is_backed_up (updated r before).1.calls ≡ true
    after_update-backed (ok b) before h k = ground (arith, h, k)
    after_update-backed (err (post_mutation e)) before h k = ground (arith, h, k)
    after_update-backed (err (pre_mutation e)) before h k =
        fall_back-backed exit_steam
          (wrap "update Steam before mutation" (app.update_message (pre_mutation e)))
          (record before { calls = steam_updated target (some (pre_mutation e)) ∷ before.calls })
          (ground (arith, h, k))

    after_update-Settles :
        (r : Result UpdateError SteamBuild) (before : Host)
        → is_early before.calls ≡ true
        → Settles (updated r before)
    after_update-Settles (ok b) before early = early
    after_update-Settles (err (post_mutation e)) before early = ground (arith, early)
    after_update-Settles (err (pre_mutation e)) before early =
        fall_back-Steps exit_steam
          (wrap "update Steam before mutation" (app.update_message (pre_mutation e)))
          (record before { calls = steam_updated target (some (pre_mutation e)) ∷ before.calls })
          early

    update_build-Steps : Steps (update_build app s installed active target)
    unfolding update_build
    update_build-Steps h early = after_update-Settles (app.update_steam target h) h early

    back_up-ok :
        (h : Host)
        → is_backed_up h.calls ≡ true
        → (is_backed_up (back_up app s installed active target h).1.calls ≡ true)
          × ((back_up app s installed active target h).0 ≡ ok tt
              → follows_backup (back_up app s installed active target h).1.calls ≡ true)
    unfolding back_up
    back_up-ok h b = (ground (arith, b), λ e. ground (arith, e))

    back_up-Calm : Calm (back_up app s installed active target)
    unfolding back_up
    back_up-Calm h early = ground (arith, early)

    abbrev backed_up : Result Bytes (Unit {0}) → Host → Result RunError (SteamBuild × Bool) × Host
    backed_up r before =
        branch r
          (λ e. fall_back app s installed active exit_backup (wrap "back up current server" e))
          (λ done. update_build app s installed active target) before

    backed_up-backed :
        (r : Result Bytes (Unit {0})) (before : Host)
        → is_backed_up before.calls ≡ true
        → (r ≡ ok tt → follows_backup before.calls ≡ true)
        → is_backed_up (backed_up r before).1.calls ≡ true
    unfolding update_build
    backed_up-backed (ok done) before h k =
        after_update-backed (app.update_steam target before) before h (k refl)
    backed_up-backed (err e) before h k =
        fall_back-backed exit_backup (wrap "back up current server" e) before h

    backed_up-Settles :
        (r : Result Bytes (Unit {0})) (before : Host)
        → is_early before.calls ≡ true
        → Settles (backed_up r before)
    backed_up-Settles (ok done) before early = update_build-Steps before early
    backed_up-Settles (err e) before early =
        fall_back-Steps exit_backup (wrap "back up current server" e) before early

    abbrev has_build : Bool
    has_build = not (is_error installed) && not ((build_of app installed).build_id == [])

    replace_build-backed :
        (h : Host)
        → has_build ≡ true
        → is_backed_up h.calls ≡ true
        → is_backed_up (replace_build app s installed active target h).1.calls ≡ true
    unfolding replace_build
    replace_build-backed h e b =
        let k = back_up-ok h b in
        rw (e, if◌then◌else◌)
          (backed_up-backed (back_up app s installed active target h).0
            (back_up app s installed active target h).1 k.0 k.1)

    replace_build-Steps : Steps (replace_build app s installed active target)
    unfolding replace_build
    replace_build-Steps h early = elim (Bool-cases has_build) [
      | inl e ↦
          rw (e, if◌then◌else◌)
            (backed_up-Settles (back_up app s installed active target h).0
              (back_up app s installed active target h).1 (back_up-Calm h early))
      | inr e ↦ rw (e, if◌then◌else◌) (update_build-Steps h early)
    ]

  validated-Settles :
      (r : Result Bytes SteamBuild) (h : Host)
      → is_early h.calls ≡ true
      → Settles (
          branch r
            (λ e. exit_failure {A = SteamBuild × Bool} exit_steam e)
            (λ validated. pure (validated, false))
            h)
  validated-Settles (ok b) h early = early
  validated-Settles (err e) h early = ground (arith, early)

  keep_installed-Settles :
      (r : Result Bytes SteamBuild) (h : Host)
      → is_early h.calls ≡ true
      → Settles (keep_installed app s installed active r h)
  keep_installed-Settles (err e) h early = ground (arith, early)
  keep_installed-Settles (ok b) h early =
      validated-Settles (app.validate_installed (build_of app installed) h) h early

  abbrev remote : Result Bytes SteamBuild → Host → Result RunError (SteamBuild × Bool) × Host
  remote r h =
      branch r
        (λ e. fall_back app s installed active exit_steam (wrap "query remote Steam build" e))
        (λ target.
          if not (is_error installed) && build_beq (build_of app installed) target
          then validated_build app s installed active
          else replace_build app s installed active target)
        h

  remote-Settles :
      (r : Result Bytes SteamBuild) (h : Host) → is_early h.calls ≡ true → Settles (remote r h)
  remote-Settles (err e) h early =
      fall_back-Steps exit_steam (wrap "query remote Steam build" e) h early
  remote-Settles (ok target) h early =
      elim (Bool-cases (not (is_error installed) && build_beq (build_of app installed) target)) [
        | inl e ↦
            rw (e, if◌then◌else◌)
              (validated-Settles (app.validate_installed (build_of app installed) h) h early)
        | inr e ↦ rw (e, if◌then◌else◌) (replace_build-Steps target h early)
      ]

  pub prepare_steam-Steps : Steps (prepare_steam app s installed active)
  unfolding prepare_steam
  prepare_steam-Steps h early = elim (Bool-cases (not app.config.update_game)) [
    | inl e ↦ rw (e, if◌then◌else◌) (keep_installed-Settles installed h early)
    | inr e ↦ rw (e, if◌then◌else◌) (remote-Settles (app.remote_build h) h early)
  ]

  remote-backed :
      (r : Result Bytes SteamBuild) (h : Host)
      → has_build no_build ≡ true
      → is_backed_up h.calls ≡ true
      → is_backed_up (remote r h).1.calls ≡ true
  remote-backed (err e) h has b =
      fall_back-backed exit_steam (wrap "query remote Steam build" e) h b
  remote-backed (ok target) h has b = ground (arith, replace_build-backed target h has b)

  -- If the installed build was read and has a number, every update of the game comes right after a
  -- backup that was made and a removal of old backups that succeeded.
  pub prepare_steam-is_backed_up :
      (h : Host)
      → not (is_error installed) && not ((build_of app installed).build_id == []) ≡ true
      → is_backed_up h.calls ≡ true
      → is_backed_up (prepare_steam app s installed active h).1.calls ≡ true
  unfolding prepare_steam
  prepare_steam-is_backed_up h has b = ground (arith, remote-backed (app.remote_build h) h has b)

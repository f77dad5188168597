-- ===== src/Startup/Tests.antt =====
-- The theorems of a run at the sample application.
use docker_vrising.Startup.Whole.{
  dependencies_ready, releasing_lock, run_locked, fenced_state, run_fenced, run_updating,
  fallback_or_failure,
}
use docker_vrising.Startup.Fallback.{clear_degraded_runtime, degraded_runtime}
use docker_vrising.Startup.Stage.{stage_candidate, load_active_generation}
use docker_vrising.Prelude.{true, false, ◌≡◌, refl, bytes_eq, bytes_beq, some, [], ◌∷◌, any, codes}
use docker_vrising.Prelude.Result.{ok}
use docker_vrising.State.{is_non_positive, int_beq, State, no_process}
use docker_vrising.Startup.Host.{promoted, committed, server_started}
use docker_vrising.Startup.Trace.{is_orderly, is_start}
use docker_vrising.Startup.Samples.{app, unlucky, host, installed, newest, generation, recorded}
use docker_vrising.Startup.Fallback.{
  validate_known_good_steam, record_fallback, fall_back, update_build, back_up, replace_build,
  fence_prior_process, prepare_steam,
}
use docker_vrising.Startup.Fallback.Fence.{IsFenced, fence_prior_process-IsFenced}
use docker_vrising.Startup.Fallback.Update.{IsFallback, prepare_steam-IsFallback}
use docker_vrising.Startup.Fallback.Backup.{is_backed_up, prepare_steam-is_backed_up}
use docker_vrising.Startup.Launch.{supervise_server, end_launch, start_server, launch}
use docker_vrising.Startup.Launch.Promotion.{launch-promoted, request_of}
use docker_vrising.Startup.Whole.{run, recover_state}
use docker_vrising.Startup.Whole.Ordered.{run-is_orderly}
use docker_vrising.Startup.Whole.Fenced.{HasPassed, run-HasPassed}

abbrev cleared : State
cleared = record recorded {
  runtime = record recorded.runtime {
    server = no_process;
    ready = false;
    phase = codes "stopped";
    updated_at = 100;
  };
}

fenced_lem : (fence_prior_process app recorded host).0 ≡ ok cleared
unfolding fence_prior_process int_beq is_non_positive
fenced_lem = refl

fence_prior_process-IsFenced_example : IsFenced app recorded host cleared
fence_prior_process-IsFenced_example = fence_prior_process-IsFenced app recorded host fenced_lem

unlucky_falls_back :
    (prepare_steam unlucky recorded (ok installed) generation host).0 ≡ ok (installed, true)
unfolding prepare_steam bytes_beq replace_build back_up update_build fall_back record_fallback
    validate_known_good_steam
unlucky_falls_back = refl

prepare_steam-IsFallback_example :
    IsFallback unlucky recorded
      (ok installed)
      generation
      host
      (prepare_steam unlucky recorded (ok installed) generation host).1
      installed
prepare_steam-IsFallback_example =
    prepare_steam-IsFallback unlucky recorded (ok installed) generation host unlucky_falls_back

prepare_steam-is_backed_up_example :
    is_backed_up (prepare_steam app recorded (ok installed) generation host).1.calls ≡ true
unfolding bytes_beq
prepare_steam-is_backed_up_example =
    prepare_steam-is_backed_up app recorded (ok installed) generation host refl refl

launched : (launch app generation newest true host).0 ≡ ok tt
unfolding launch start_server end_launch supervise_server
launched = refl

launch-promoted_example :
    (launch app generation newest true host).1.calls
    ≡ promoted committed ∷ server_started (request_of app generation newest) ∷ []
launch-promoted_example = launch-promoted app generation newest host launched

run-is_orderly_example : is_orderly (run app host).1.calls ≡ true
run-is_orderly_example = run-is_orderly app (some recorded)

run_starts : any is_start (run app host).1.calls ≡ true
unfolding run recover_state fence_prior_process launch bytes_beq dependencies_ready releasing_lock
    run_locked fenced_state run_fenced run_updating fallback_or_failure record_fallback
    validate_known_good_steam clear_degraded_runtime degraded_runtime stage_candidate
    load_active_generation int_beq is_non_positive supervise_server start_server end_launch
run_starts = refl

run-HasPassed_example : HasPassed app (recover_state app host).1
run-HasPassed_example = run-HasPassed app (some recorded) run_starts

-- ===== src/Startup/Launch.antt =====
-- run.go: `launch`, which starts the server, and `rollbackCandidate`.
pub mod Promotion
use docker_vrising.Prelude.{
  ℕ, Bool, true, false, ◌&&◌, ◌||◌, not, Option, none, some, List, [], ◌∷◌, ◌==◌, nat_eq, bytes_eq,
  Bytes, if◌then◌else◌,
}
use docker_vrising.Prelude.Result.{Result, ok, err}
use docker_vrising.State.{State}
use docker_vrising.Steam.{SteamBuild}
use docker_vrising.Startup.Host.{
  Application, Host, Action, StagedGeneration, RunError, RunResult, LaunchRequest, Call,
  rolled_back, server_started, promoted, PromotionOutcome, not_committed, committed,
  recovery_required, ask, perform, fail, pure, handle, branch, wrap, message, join, exit_failure,
  exit_preflight, exit_readiness, exit_shutdown,
}

abbrev is_committed : PromotionOutcome → Bool
is_committed committed = true
is_committed _ = false

abbrev must_keep : PromotionOutcome → Bool
must_keep not_committed = false
must_keep _ = true

abbrev join_option : Bytes → Option Bytes → Bytes
join_option e none = e
join_option e (some f) = join e f

readiness_error : RunResult → Bytes
readiness_error result =
    let e = join_option (message "server did not become ready") result.error in
    if result.exit_code == 0
    then e
    else join e (message "server process exited with a status before readiness")

module _ (app : Application) where
  -- `rollbackCandidate`
  unfoldable pub rollback_candidate : {A : Type 0} → Bytes → Action RunError A
  rollback_candidate cause =
      handle (perform (λ r. rolled_back) app.rollback)
        (λ e. exit_failure exit_readiness (join cause (wrap "rollback failed candidate" e)))
        (λ done. exit_failure exit_readiness cause)

  -- An error before the start of the server.
  abbrev fail_launch : {A : Type 0} → Bool → Bytes → Action RunError A
  fail_launch candidate e =
      if candidate then rollback_candidate e else exit_failure exit_preflight e

  -- What the server's end means, given what became of the promotion.
  unfoldable pub end_launch : Bool → PromotionOutcome → RunResult → Action RunError (Unit {0})
  unfolding readiness_error
  end_launch candidate outcome result =
      if not result.ready
      then (let e = readiness_error result in
          if candidate && not (must_keep outcome)
          then rollback_candidate e
          else exit_failure exit_readiness e)
      else if candidate && not (is_committed outcome)
      then exit_failure exit_readiness
          (message "server became ready without a committed candidate promotion")
      else elim result.error [
        | some e ↦ exit_failure exit_shutdown (wrap "supervise server shutdown" e)
        | none ↦
            if result.exit_code == 0
            then pure tt
            else exit_failure result.exit_code (message "server exited with a status")
      ]

  abbrev after_promotion :
      LaunchRequest
      → (PromotionOutcome × Option Bytes) × Option State
      → Host
      → (PromotionOutcome × RunResult) × Host
  after_promotion request ((outcome, e), document) h =
      let h1 : Host = record { document = document; calls = promoted outcome ∷ h.calls } in
      let (result, after) = app.supervise request (some e) h1 in
      ((outcome, result), record h1 { document = after })

  -- `Supervisor.Run` with its `OnReady`, which a candidate has.
  unfoldable pub supervise_server :
      StagedGeneration → Bool → LaunchRequest → Host → (PromotionOutcome × RunResult) × Host
  supervise_server selected candidate request h =
      let started : Host = record h { calls = server_started request ∷ h.calls } in
      if candidate && app.reaches_ready request started
      then after_promotion request (app.commit_promotion selected started) started
      else (let (result, after) = app.supervise request none started in
          ((not_committed, result), record started { document = after }))

  unfoldable pub start_server : StagedGeneration → SteamBuild → Bool → Action RunError (Unit {0})
  start_server selected build candidate h =
      let request : LaunchRequest = record {
        package_lock = selected.lock;
        generation = selected.generation.id;
        steam_build = build.build_id;
      } in
      let ((outcome, result), after) = supervise_server selected candidate request h in
      end_launch candidate outcome result after

  -- `launch`
  unfoldable pub launch : StagedGeneration → SteamBuild → Bool → Action RunError (Unit {0})
  launch selected build candidate =
      handle (ask app.seed_server_settings) (fail_launch candidate) (λ seeded.
        handle (ask (λ h. app.prune_server_logs app.config.log_days (app.now h) h))
          (λ e. fail_launch candidate (wrap "prune server logs" e))
          (λ pruned. start_server selected build candidate))

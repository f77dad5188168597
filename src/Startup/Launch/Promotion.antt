-- ===== src/Startup/Launch/Promotion.antt =====
-- The start of the server and the promotion of the candidate: what may be rolled back, and what a
-- clean end means.
use docker_vrising.Prelude.{
  Bool, true, false, ◌≡◌, refl, arith, ◌&&◌, ◌==◌, nat_eq, bytes_eq, if◌then◌else◌, Bytes, ◌∷◌, any,
  Option, Bool-cases, inl, inr, ap, ◌∙◌,
}
use docker_vrising.Prelude.Result.{ok}
use docker_vrising.State.{State}
use docker_vrising.Steam.{SteamBuild}
use docker_vrising.Startup.Host.{
  Application, Host, StagedGeneration, RunResult, LaunchRequest, PromotionOutcome, not_committed,
  committed, recovery_required, server_started, promoted, handle, ask, wrap,
}
use docker_vrising.Startup.Trace.{is_kept_promotion, is_orderly, is_early, Ends, Ends-handle}
use docker_vrising.Startup.Launch.{
  rollback_candidate, fail_launch, end_launch, after_promotion, supervise_server, start_server,
  launch, must_keep, is_committed, readiness_error,
}

module _ (app : Application) where
  pub rollback_candidate-Ends : (cause : Bytes) → Ends (rollback_candidate app {A = Unit {0}} cause)
  unfolding rollback_candidate
  rollback_candidate-Ends cause h early = ground (arith, early)

  -- Nothing that must be kept, if the outcome says that it may be rolled back.
  rollback_candidate-orderly :
      (cause : Bytes) (h : Host)
      → is_orderly h.calls ≡ true
      → any is_kept_promotion h.calls ≡ false
      → is_orderly (rollback_candidate app {A = Unit {0}} cause h).1.calls ≡ true
  unfolding rollback_candidate
  rollback_candidate-orderly cause h o k = ground (arith, o, k)

  fail_launch-Ends :
      (candidate : Bool) (e : Bytes) → Ends (fail_launch app {A = Unit {0}} candidate e)
  fail_launch-Ends true e = rollback_candidate-Ends e
  fail_launch-Ends false e = λ h early. ground (arith, early)

  -- The calls after the supervisor has returned: the promotion, if any, is the last one.
  record IsSupervised (outcome : PromotionOutcome) (h : Host) : Type 0 where
    orderly : is_orderly h.calls ≡ true
    kept : any is_kept_promotion h.calls ≡ must_keep outcome

  after_promotion-IsSupervised :
      (request : LaunchRequest) (answer : (PromotionOutcome × Option Bytes) × Option State)
      (h : Host)
      → is_orderly h.calls ≡ true
      → any is_kept_promotion h.calls ≡ false
      → IsSupervised
          (after_promotion app request answer h).0.0
          (after_promotion app request answer h).1
  after_promotion-IsSupervised request ((not_committed, e), d) h o k = record {
    orderly = ground (arith, o);
    kept = ground (arith, k);
  }
  after_promotion-IsSupervised request ((committed, e), d) h o k = record {
    orderly = ground (arith, o);
    kept = ground (arith, k);
  }
  after_promotion-IsSupervised request ((recovery_required, e), d) h o k = record {
    orderly = ground (arith, o);
    kept = ground (arith, k);
  }

  supervise_server-IsSupervised :
      (selected : StagedGeneration) (candidate : Bool) (request : LaunchRequest) (h : Host)
      → is_early h.calls ≡ true
      → IsSupervised
          (supervise_server app selected candidate request h).0.0
          (supervise_server app selected candidate request h).1
  unfolding supervise_server
  supervise_server-IsSupervised selected candidate request h early =
      let started : Host = record h { calls = server_started request ∷ h.calls } in
      elim (Bool-cases (candidate && app.reaches_ready request started)) [
        | inl e ↦
            rw (e, if◌then◌else◌)
              (after_promotion-IsSupervised request (app.commit_promotion selected started) started
                (ground (arith, early)) (ground (arith, early)))
        | inr e ↦
            rw (e, if◌then◌else◌)
              (record { orderly = ground (arith, early); kept = ground (arith, early) })
      ]

  end_launch-orderly :
      (candidate : Bool) (outcome : PromotionOutcome) (result : RunResult) (h : Host)
      → IsSupervised outcome h
      → is_orderly (end_launch app candidate outcome result h).1.calls ≡ true
  unfolding end_launch
  end_launch-orderly candidate outcome result h i =
      ground
        (arith, i.orderly, i.kept, rollback_candidate-orderly (readiness_error result) h i.orderly)

  start_server-Ends :
      (selected : StagedGeneration) (build : SteamBuild) (candidate : Bool)
      → Ends (start_server app selected build candidate)
  unfolding start_server
  start_server-Ends selected build candidate h early =
      let request : LaunchRequest = record {
        package_lock = selected.lock;
        generation = selected.generation.id;
        steam_build = build.build_id;
      } in
      let s = supervise_server app selected candidate request h in
      end_launch-orderly candidate s.0.0 s.0.1 s.1
        (supervise_server-IsSupervised selected candidate request h early)

  pub launch-Ends :
      (selected : StagedGeneration) (build : SteamBuild) (candidate : Bool)
      → Ends (launch app selected build candidate)
  unfolding launch
  launch-Ends selected build candidate =
      Ends-handle (ask app.seed_server_settings) (fail_launch app candidate)
        (λ seeded.
          handle (ask (λ h. app.prune_server_logs app.config.log_days (app.now h) h))
            (λ e. fail_launch app candidate (wrap "prune server logs" e))
            (λ pruned. start_server app selected build candidate))
        (λ h early. early) (fail_launch-Ends candidate)
        (λ seeded.
          Ends-handle (ask (λ h. app.prune_server_logs app.config.log_days (app.now h) h))
            (λ e. fail_launch app candidate (wrap "prune server logs" e))
            (λ pruned. start_server app selected build candidate) (λ h early. early)
            (λ e. fail_launch-Ends candidate (wrap "prune server logs" e))
            (λ pruned. start_server-Ends selected build candidate))

  abbrev pub request_of : StagedGeneration → SteamBuild → LaunchRequest
  request_of selected build = record {
    package_lock = selected.lock;
    generation = selected.generation.id;
    steam_build = build.build_id;
  }

  after_promotion-calls :
      (request : LaunchRequest) (answer : (PromotionOutcome × Option Bytes) × Option State)
      (h : Host)
      → is_committed (after_promotion app request answer h).0.0 ≡ true
      → (after_promotion app request answer h).1.calls ≡ promoted committed ∷ h.calls
  after_promotion-calls request ((not_committed, e), d) h c = cc
  after_promotion-calls request ((committed, e), d) h c = refl
  after_promotion-calls request ((recovery_required, e), d) h c = cc

  supervise_server-calls :
      (selected : StagedGeneration) (request : LaunchRequest) (h : Host)
      → is_committed (supervise_server app selected true request h).0.0 ≡ true
      → (supervise_server app selected true request h).1.calls
        ≡ promoted committed ∷ server_started request ∷ h.calls
  unfolding supervise_server
  supervise_server-calls selected request h c =
      let started : Host = record h { calls = server_started request ∷ h.calls } in
      elim (Bool-cases (app.reaches_ready request started)) [
        | inl e ↦
            rw (e, if◌then◌else◌)
              (after_promotion-calls request (app.commit_promotion selected started) started
                (ground (arith, c, e)))
        | inr e ↦ absurd (ground (arith, c, e))
      ]

  -- What a candidate's server that ended with no error has done.
  record IsClean (outcome : PromotionOutcome) (result : RunResult) (h after : Host) : Type 0 where
    committed_lem : is_committed outcome ≡ true
    ready : result.ready ≡ true
    exited : result.exit_code == 0 ≡ true
    same : after ≡ h

  end_launch-IsClean :
      (outcome : PromotionOutcome) (result : RunResult) (h : Host)
      → (end_launch app true outcome result h).0 ≡ ok tt
      → IsClean outcome result h (end_launch app true outcome result h).1
  unfolding end_launch rollback_candidate
  end_launch-IsClean outcome result h e = record {
    committed_lem = ground (arith, e);
    ready = ground (arith, e);
    exited = ground (arith, e);
    same = ground (arith, e);
  }

  start_server-promoted :
      (selected : StagedGeneration) (build : SteamBuild) (h : Host)
      → (start_server app selected build true h).0 ≡ ok tt
      → (start_server app selected build true h).1.calls
        ≡ promoted committed ∷ server_started (request_of selected build) ∷ h.calls
  unfolding start_server
  start_server-promoted selected build h e =
      let request = request_of selected build in
      let s = supervise_server app selected true request h in
      let c = end_launch-IsClean s.0.0 s.0.1 s.1 e in
      ap (λ (k : Host). k.calls) c.same ∙ supervise_server-calls selected request h c.committed_lem

  -- A run of a candidate ends with no error only if the server was started with the candidate's
  -- generation and the chosen build, and then the candidate was promoted, with no other call.
  pub launch-promoted :
      (selected : StagedGeneration) (build : SteamBuild) (h : Host)
      → (launch app selected build true h).0 ≡ ok tt
      → (launch app selected build true h).1.calls
        ≡ promoted committed ∷ server_started (request_of selected build) ∷ h.calls
  unfolding launch rollback_candidate
  launch-promoted selected build h e = ground (arith, e, start_server-promoted selected build h)

-- ===== src/Startup/Whole/Fenced.antt =====
-- No server is started beside one that an earlier run has left.
use docker_vrising.Prelude.{true, ◌≡◌, refl, arith, Bytes, [], any, Option, some, none, subst, ap}
use docker_vrising.Prelude.Result.{Result, ok, err}
use docker_vrising.State.{State}
use docker_vrising.Startup.Host.{
  Application, Host, RunError, branch, handle, pure, fail, exit_failure, exit_preflight,
}
use docker_vrising.Startup.Trace.{is_start, is_early}
use docker_vrising.Startup.Fallback.{fence_prior_process}
use docker_vrising.Startup.Fallback.Fence.{IsFenced, fence_prior_process-IsFenced}
use docker_vrising.Startup.Whole.{
  recover_state, fenced_state, run_fenced, run_locked, releasing_lock, run, state_or_initial,
}
use docker_vrising.Startup.Whole.Ordered.{recover_state-Calm, fenced_state-Calm}

module _ (app : Application) where
  -- The state document at this point of the run passes the fence.
  pub record HasPassed (h : Host) : Type 0 where
    pub after : State
    pub fenced : IsFenced app (state_or_initial app h.document) h after

  fence_loaded-HasPassed :
      (s : State) (h : Host) {t : State}
      → s ≡ state_or_initial app h.document
      → (handle (fence_prior_process app s) (exit_failure {A = State} exit_preflight) pure h).0
        ≡ ok t
      → HasPassed h
  fence_loaded-HasPassed s h {t = t} e k = record {
    after = t;
    fenced =
        subst (λ u. IsFenced app u h t) e
          (fence_prior_process-IsFenced app s h (ground (arith, k)));
  }

  fenced_state-HasPassed : (h : Host) {t : State} → (fenced_state app h).0 ≡ ok t → HasPassed h
  unfolding fenced_state
  fenced_state-HasPassed h {t = t} e = from (app.load_failure h) refl
    where
      from : (o : Option Bytes) → app.load_failure h ≡ o → HasPassed h
      from (some x) f = absurd (ground (arith, e, f))
      from none f =
          fence_loaded-HasPassed (state_or_initial app h.document) h {t = t} refl
            (ground (arith, e, f))

  abbrev HasStarted : Host → Type 0
  HasStarted h = any is_start h.calls ≡ true

  fenced-HasPassed :
      (h : Host) (r : Result RunError State × Host)
      → fenced_state app h ≡ r
      → is_early h.calls ≡ true
      → HasStarted (branch r.0 (λ e. fail {A = Unit {0}} e) (run_fenced app) r.1).1
      → HasPassed h
  fenced-HasPassed h (ok t, after) e early started =
      fenced_state-HasPassed h (ap (λ (p : Result RunError State × Host). p.0) e)
  fenced-HasPassed h (err x, after) e early started =
      absurd (ground (arith, started, fenced_state-Calm app h early, e))

  recovered-HasPassed :
      (h : Host) (r : Result RunError (Unit {0})) (after : Host)
      → is_early after.calls ≡ true
      → HasStarted
          (branch r
            (λ e. fail {A = Unit {0}} e)
            (λ done. handle (fenced_state app) fail (run_fenced app))
            after).1
      → HasPassed after
  recovered-HasPassed h (ok done) after early started =
      fenced-HasPassed after (fenced_state app after) refl early started
  recovered-HasPassed h (err e) after early started = absurd (ground (arith, started, early))

  run_locked-HasPassed :
      (h : Host)
      → is_early h.calls ≡ true
      → HasStarted (run_locked app h).1
      → HasPassed (recover_state app h).1
  unfolding run_locked
  run_locked-HasPassed h early started =
      let r = recover_state app h in
      recovered-HasPassed h r.0 r.1 (recover_state-Calm app h early)
        (ground (arith, started, early))

  -- If a run starts the server, the state document that the recovery of interrupted work has left
  -- passes the fence at that point: the process that it records is not running.
  pub run-HasPassed :
      (d : Option State)
      → any is_start (run app (record { document = d; calls = [] })).1.calls ≡ true
      → HasPassed (recover_state app (record { document = d; calls = [] })).1
  unfolding run releasing_lock
  run-HasPassed d started =
      run_locked-HasPassed (record { document = d; calls = [] }) refl (ground (arith, started))

-- ===== src/Startup/Fallback/Fence.antt =====
-- No run goes on beside a server process that an earlier run has recorded.
use docker_vrising.Prelude.{true, false, ◌≡◌, ◌⊎◌, inl, inr, refl, arith, nat_eq, Bool-cases, subst}
use docker_vrising.Prelude.Result.{Result, ok, err}
use docker_vrising.State.{State, ProcessIdentity, no_process, int_beq, matches}
use docker_vrising.Startup.Host.{Application, Host, ProcError, no_such_process, proc_failed}
use docker_vrising.Startup.Trace.{Calm}
use docker_vrising.Startup.Fallback.{
  clear_degraded_runtime, fence_prior_process, fence_by, clear_server, identity_beq, stopped,
}

-- The recorded process is none, or the inspector says that it does not exist, or that the process
-- with its number is another one.
abbrev pub IsNotRunning : Application → State → Host → Type 0
IsNotRunning app s h =
    (identity_beq s.runtime.server no_process ≡ true)
    ⊎ ((app.identity s.runtime.server.pid h ≡ err no_such_process)
        ⊎ ((live : ProcessIdentity) × (app.identity s.runtime.server.pid h ≡ ok live)
            × (matches s.runtime.server live ≡ false)))

pub record IsFenced (app : Application) (s : State) (h : Host) (t : State) : Type 0 where
  pub before : IsNotRunning app s h
  pub server : identity_beq t.runtime.server no_process ≡ true
  pub ready : t.runtime.ready ≡ false

module _ (app : Application) (s : State) (h : Host) where
  clear_server-ok :
      (t : State)
      → (clear_server app s h).0 ≡ ok t
      → (identity_beq t.runtime.server no_process ≡ true) × (t.runtime.ready ≡ false)
  unfolding clear_server stopped int_beq
  clear_server-ok t e = (ground (arith, e), ground (arith, e))

  fence_by-IsFenced :
      (r : Result ProcError ProcessIdentity) {t : State}
      → app.identity s.runtime.server.pid h ≡ r
      → (fence_by app s r h).0 ≡ ok t
      → IsFenced app s h t
  fence_by-IsFenced (err no_such_process) {t = t} r_lem e =
      let c = clear_server-ok t e in record { before = inr (inl r_lem); server = c.0; ready = c.1 }
  fence_by-IsFenced (err (proc_failed x)) r_lem e = cc
  fence_by-IsFenced (ok live) {t = t} r_lem e =
      let c = clear_server-ok t (ground (arith, e)) in
      record { before = inr (inr (live, r_lem, ground (arith, e))); server = c.0; ready = c.1 }

  -- The fence lets a run pass only if the recorded server process is not running: none is recorded,
  -- it is gone, or its number is another process's now. The state that it returns records none.
  pub fence_prior_process-IsFenced :
      {t : State} → (fence_prior_process app s h).0 ≡ ok t → IsFenced app s h t
  unfolding fence_prior_process
  fence_prior_process-IsFenced {t = t} e =
      elim (Bool-cases (identity_beq s.runtime.server no_process)) [
        | inl none_recorded ↦
            let same : s ≡ t = ground (arith, e, none_recorded) in
            record {
              before = inl none_recorded;
              server =
                  subst (λ u. identity_beq u.runtime.server no_process ≡ true) same none_recorded;
              ready = subst (λ u. u.runtime.ready ≡ false) same (ground (arith, e, none_recorded));
            }
        | inr recorded ↦
            fence_by-IsFenced (app.identity s.runtime.server.pid h) refl
              (ground (arith, e, recorded))
      ]

pub fence_prior_process-Calm : (app : Application) (s : State) → Calm (fence_prior_process app s)
unfolding fence_prior_process clear_server
fence_prior_process-Calm app s h early = ground (arith, early)

pub clear_degraded_runtime-Calm : (app : Application) → Calm (clear_degraded_runtime app)
unfolding clear_degraded_runtime
clear_degraded_runtime-Calm app h early = ground (arith, early)

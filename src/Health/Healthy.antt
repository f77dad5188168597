-- ===== src/Health/Healthy.antt =====
-- What `CheckHealth` says of the state document and of the processes that are there.
use docker_vrising.Prelude.{
  ℕ, true, false, ◌≡◌, ◌↔◌, refl, sym, ap, ◌∙◌, arith, Option, none, some, ◌==◌, nat_eq, bytes_eq,
  bytes_beq_iff, Bytes, codes, Option-cases, inl, inr,
}
use docker_vrising.Prelude.Result.{Result, ok, err}
use docker_vrising.State.{
  ℤ, pos, negsuc, State, ProcessIdentity, is_non_positive, matches, int_beq_iff, schema_version,
}
use docker_vrising.Startup.Host.{ProcError, no_such_process}
use docker_vrising.Health.{Inspector, check_health, identity}
use docker_vrising.Health.Stat.{Process, stat_line}
use docker_vrising.Health.Identity.{
  IsProcess, is_dead, identity_of, shown_identity, identity-stat_line,
}

-- The processes by their numbers, and the reading of the file of one.
abbrev pub Processes : Type 0
Processes = ℕ → Option Process

abbrev text_of : Option Process → Result ProcError Bytes
text_of none = err no_such_process
text_of (some p) = ok (stat_line p)

abbrev read_stat : Processes → ℤ → Result ProcError Bytes
read_stat processes (pos n) = text_of (processes n)
read_stat processes (negsuc n) = err no_such_process

-- `procFSInspector` on these files.
abbrev pub inspector_of : Processes → Inspector
inspector_of processes pid = identity pid (read_stat processes pid)

abbrev pub AreProcesses : Processes → Type 0
AreProcesses processes = (n : ℕ) (p : Process) → processes n ≡ some p → (p.pid ≡ n) × IsProcess p

-- The document has the schema of the code and says that the server is ready; and there is a process,
-- not a zombie and not dead, with the number and the start time that it records.
pub record IsHealthy (s : State) (processes : Processes) : Type 0 where
  pub schema : s.schema_version ≡ schema_version
  pub ready : s.runtime.ready ≡ true
  pub phase : s.runtime.phase ≡ codes "ready"
  pub process : Process
  pub there : processes process.pid ≡ some process
  pub alive : is_dead process.status ≡ false
  pub recorded : s.runtime.server ≡ identity_of process

-- The tests that the check has passed.
record Passes (s : State) (inspect : Inspector) : Type 0 where
  schema : s.schema_version ≡ schema_version
  ready : s.runtime.ready ≡ true
  phase : s.runtime.phase ≡ codes "ready"
  pid : is_non_positive s.runtime.server.pid ≡ false
  ticks : (s.runtime.server.start_ticks == 0) ≡ false
  live : ProcessIdentity
  found : inspect s.runtime.server.pid ≡ ok live
  same : matches s.runtime.server live ≡ true

module _ (s : State) (inspect : Inspector) where
  check_health-with :
      (r : Result ProcError ProcessIdentity)
      → inspect s.runtime.server.pid ≡ r
      → check_health s (some inspect) ≡ ok tt
      → Passes s inspect
  unfolding check_health
  check_health-with (ok live) f e = record {
    schema = ground (arith, e);
    ready = ground (arith, e);
    phase = ground (arith, e, bytes_beq_iff s.runtime.phase (codes "ready"));
    pid = ground (arith, e);
    ticks = ground (arith, e);
    live = live;
    found = f;
    same = ground (arith, e, f);
  }
  check_health-with (err x) f e = absurd (ground (arith, e, f))

  check_health_sound : check_health s (some inspect) ≡ ok tt → Passes s inspect
  check_health_sound e = check_health-with (inspect s.runtime.server.pid) refl e

  check_health_complete : Passes s inspect → check_health s (some inspect) ≡ ok tt
  unfolding check_health
  check_health_complete h = ground (
    arith,
    h.schema,
    h.ready,
    h.phase,
    h.pid,
    h.ticks,
    h.found,
    h.same,
    bytes_beq_iff s.runtime.phase (codes "ready"),
  )

matches-eq : (a b : ProcessIdentity) → matches a b ≡ true → a ≡ b
unfolding matches
matches-eq a b h =
    let pid : a.pid ≡ b.pid = (int_beq_iff a.pid b.pid).0 (ground arith) in
    let ticks : a.start_ticks ≡ b.start_ticks = ground arith in
    λ i. record { pid = pid i; start_ticks = ticks i }

matches_refl : (a : ProcessIdentity) → matches a a ≡ true
unfolding matches
matches_refl a = ground (arith, int_beq_iff a.pid a.pid)

module _ (processes : Processes) (are_processes : AreProcesses processes) where
  -- The inspector finds what is there.
  inspector_of-some :
      (n : ℕ) (p : Process)
      → processes n ≡ some p
      → inspector_of processes (pos n) ≡ shown_identity p
  inspector_of-some n p e =
      let (number, is_process) = are_processes n p e in
      ap (λ o. identity (pos n) (text_of o)) e
      ∙ ap (λ m. identity (pos m) (ok (stat_line p))) (sym number)
      ∙ identity-stat_line p is_process

  inspector_of-none :
      (n : ℕ) {live : ProcessIdentity}
      → processes n ≡ none
      → inspector_of processes (pos n) ≡ ok live
      → ⊥
  unfolding identity
  inspector_of-none n e h = ground arith

  shown_identity-ok :
      (p : Process) {live : ProcessIdentity}
      → shown_identity p ≡ ok live
      → (is_dead p.status ≡ false) × (identity_of p ≡ live)
  shown_identity-ok p h = ground arith

  module _ (s : State) where
    Passes-IsHealthy : Passes s (inspector_of processes) → IsHealthy s processes
    unfolding is_non_positive
    Passes-IsHealthy h = from s.runtime.server.pid refl
      where
        from : (pid : ℤ) → s.runtime.server.pid ≡ pid → IsHealthy s processes
        from (negsuc n) e = absurd (ground (arith, h.pid))
        from (pos n) e = elim (Option-cases (processes n)) [
          | inl gone ↦
              absurd (inspector_of-none n gone (ap (inspector_of processes) (sym e) ∙ h.found))
          | inr (p, there) ↦
              let (alive, is_live) = shown_identity-ok p (
                sym (inspector_of-some n p there)
                ∙ ap (inspector_of processes) (sym e)
                ∙ h.found) in
              record {
                schema = h.schema;
                ready = h.ready;
                phase = h.phase;
                process = p;
                there = ap processes (are_processes n p there).0 ∙ there;
                alive = alive;
                recorded = matches-eq s.runtime.server h.live h.same ∙ sym is_live;
              }
        ]

    IsHealthy-Passes : IsHealthy s processes → Passes s (inspector_of processes)
    unfolding is_non_positive
    IsHealthy-Passes h =
        let p = h.process in
        let is_process = (are_processes p.pid p h.there).1 in
        record {
          schema = h.schema;
          ready = h.ready;
          phase = h.phase;
          pid =
              ap (λ (i : ProcessIdentity). is_non_positive i.pid) h.recorded
              ∙ ground (arith, is_process.pid);
          ticks =
              ap (λ (i : ProcessIdentity). i.start_ticks == 0) h.recorded
              ∙ ground (arith, is_process.started);
          live = identity_of p;
          found =
              ap (λ (i : ProcessIdentity). inspector_of processes i.pid) h.recorded
              ∙ inspector_of-some p.pid p h.there
              ∙ ground (arith, h.alive);
          same =
              ap (λ (i : ProcessIdentity). matches i (identity_of p)) h.recorded
              ∙ matches_refl (identity_of p);
        }

    -- On the files of the processes, as the kernel writes them, the health check passes exactly when
    -- the document has the schema of the code, its server is ready in the phase that says so, and
    -- there is a process, neither a zombie nor dead, with the number and the start time that the
    -- document records.
    pub check_health-IsHealthy :
        (check_health s (some (inspector_of processes)) ≡ ok tt) ↔ IsHealthy s processes
    check_health-IsHealthy = (
      λ e. Passes-IsHealthy (check_health_sound s (inspector_of processes) e),
      λ h. check_health_complete s (inspector_of processes) (IsHealthy-Passes h),
    )

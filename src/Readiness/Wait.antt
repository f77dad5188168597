-- ===== src/Readiness/Wait.antt =====
-- logs.go: `watch`, the loop of the monitor. `acknowledged` is what the followers hand over in a
-- round (none when the context ends), and `stopped` whether the context ends in the wait after it.
-- The lines on the progress, whose errors the code ignores, are not modelled.
pub mod Shown
pub mod Ready
use docker_vrising.Prelude.{
  ℕ, zero, suc, ◌+◌, Bool, true, false, ◌&&◌, ◌||◌, not, List, [], ◌∷◌, ◌==◌, nat_eq, bytes_eq,
  Bytes, codes, Option, none, some, if◌then◌else◌,
}
use docker_vrising.Prelude.Result.{Result, ok, err, ◌>>=◌, ◌>>◌, guard}
use docker_vrising.Config.{semantic_version}
use docker_vrising.Readiness.{ExpectedReadiness, Evidence}
use docker_vrising.Readiness.Round.{
  LogBatch, ReadinessError, cancelled, server_log_required, bepinex_log_required, kindred_required,
  satisvampory_required, no_follower, Seen, Round, observe_readiness_round,
}

-- The variables of the loop.
pub record Watch : Type 0 where
  pub seen : Seen
  pub quiet_rounds : ℕ
  pub announced : Bool

-- How the loop stands after some rounds: it has returned, or it goes on.
pub data Outcome : Type 0 where
  is_ready : Outcome
  failed : ReadinessError → Outcome
  watching : Watch → Outcome

abbrev pub no_evidence : Evidence
no_evidence = record {
  server_startup = false;
  chainloader = false;
  vcf = false;
  kindred = false;
  satisvampory = false;
}

abbrev pub first_watch : Watch
first_watch = record {
  seen = record { evidence = no_evidence; written = [] };
  quiet_rounds = 0;
  announced = false;
}

abbrev is_exact : Bytes → Bool
is_exact version = not (version == [] || version == codes "latest") && semantic_version version

module _ (expected : ExpectedReadiness) (write_fails : List Bytes → Bytes → Bool)
    (acknowledged : ℕ → Option (List LogBatch)) (stopped : ℕ → Bool) (on_ready : Bool) where
  -- `quietRounds` after a round.
  abbrev pub count_quiet : Round → ℕ → ℕ
  count_quiet r quiet =
      if r.ready && (not r.more && (not r.pending && not r.activity)) then quiet + 1 else 0

  -- The end of the body of the loop: the next round comes at once, or after a wait.
  abbrev pub go_on : ℕ → Round → Watch → Outcome
  go_on round r w =
      if not (r.more && not r.pending) && stopped round then failed cancelled else watching w

  abbrev pub after_round : ℕ → Watch → Result ReadinessError (Round × Seen) → Outcome
  after_round round w (err e) = failed e
  after_round round w (ok (r, s)) =
      let quiet = count_quiet r w.quiet_rounds in
      if quiet == 2 && not w.announced
      then (if on_ready
          then go_on round r (record { seen = s; quiet_rounds = quiet; announced = true })
          else is_ready)
      else go_on round r (record { seen = s; quiet_rounds = quiet; announced = w.announced })

  abbrev pub observe_acknowledged :
      ℕ → Watch → Option (List LogBatch) → Result ReadinessError (Round × Seen)
  observe_acknowledged round w none = err cancelled
  observe_acknowledged round w (some batches) =
      observe_readiness_round write_fails expected (not w.announced) round batches w.seen

  -- The body of the loop.
  unfoldable pub watch_round : ℕ → Watch → Outcome
  unfolding observe_readiness_round
  watch_round round w = after_round round w (observe_acknowledged round w (acknowledged round))

  -- The outcome after the given number of rounds.
  unfoldable pub watch_rounds : ℕ → Outcome
  unfolding watch_round
  watch_rounds zero = watching first_watch
  watch_rounds (suc n) = elim (watch_rounds n) [
    | is_ready ↦ is_ready
    | failed e ↦ failed e
    | watching w ↦ watch_round (suc n) w
  ]

-- `watch`, for some rounds; `open_follower` is `newLogFollower`.
unfoldable pub watch :
    ExpectedReadiness
    → (List Bytes → Bytes → Bool)
    → (ℕ → Option (List LogBatch))
    → (ℕ → Bool)
    → Bool
    → (Bytes → Bool)
    → Bytes
    → Bytes
    → ℕ
    → Result ReadinessError Outcome
unfolding watch_rounds
watch expected write_fails acknowledged stopped on_ready open_follower server_log bepinex_log n = do
  guard (not (server_log == [])) server_log_required
  guard (not expected.require_mods || not (bepinex_log == [])) bepinex_log_required
  guard (not expected.require_mods || is_exact expected.kindred_version) kindred_required
  guard (not expected.require_mods || is_exact expected.satisvampory_version) satisvampory_required
  guard (open_follower server_log) (no_follower server_log)
  guard (not expected.require_mods || open_follower bepinex_log) (no_follower bepinex_log)
  ok (watch_rounds expected write_fails acknowledged stopped on_ready n)

-- ===== src/Startup/Fallback/Known.antt =====
-- `recordFallback`: a run falls back to a runtime that is known to be good, and records that it does.
use docker_vrising.Prelude.{true, false, ◌≡◌, refl, arith, ◌==◌, bytes_eq, Bytes, [], ◌∷◌, some}
use docker_vrising.Prelude.Result.{Result, ok, err}
use docker_vrising.State.{State}
use docker_vrising.Steam.{SteamBuild}
use docker_vrising.Startup.Host.{Application, Host, StagedGeneration, saved}
use docker_vrising.Startup.Trace.{Calm}
use docker_vrising.Startup.Fallback.{
  validate_known_good_steam, record_fallback, degraded_state, build_of, build_beq, is_error,
}

module _ (app : Application) (s : State) (installed : Result Bytes SteamBuild) where
  -- The installed build was read, is the one that the state records, and validates as itself.
  pub record IsKnownGood (h : Host) : Type 0 where
    pub read : is_error installed ≡ false
    pub named : (build_of app installed).build_id == [] ≡ false
    pub agreed : s.steam_build == (build_of app installed).build_id ≡ true
    pub validated : SteamBuild
    pub answer : app.validate_installed (build_of app installed) h ≡ ok validated
    pub same : build_beq validated (build_of app installed) ≡ true

  pub validate_known_good_steam-host :
      (h : Host) → (validate_known_good_steam app s installed h).1 ≡ h
  unfolding validate_known_good_steam
  validate_known_good_steam-host h = ground arith

  validate_known_good_steam-IsKnownGood :
      (h : Host) → (validate_known_good_steam app s installed h).0 ≡ ok tt → IsKnownGood h
  unfolding validate_known_good_steam
  validate_known_good_steam-IsKnownGood h e =
      from (app.validate_installed (build_of app installed) h) refl
    where
      from :
          (r : Result Bytes SteamBuild)
          → app.validate_installed (build_of app installed) h ≡ r
          → IsKnownGood h
      from (ok b) f = record {
        read = ground (arith, e, f);
        named = ground (arith, e, f);
        agreed = ground (arith, e, f);
        validated = b;
        answer = f;
        same = ground (arith, e, f);
      }
      from (err x) f = absurd (ground (arith, e, f))

  module _ (active : StagedGeneration) where
    -- The active generation is installed as its manifest says, the game is known to be good, and the
    -- saved state says that the run is degraded, with which generation and build, and why.
    pub record IsRecorded (cause : Bytes) (h after : Host) : Type 0 where
      pub generation : active.generation.id == [] ≡ false
      pub verified : is_error (app.verify_installed active.manifest h) ≡ false
      pub known : IsKnownGood h
      pub document : after.document ≡ some (degraded_state app s installed active cause h)
      pub calls : after.calls ≡ saved (degraded_state app s installed active cause h) ∷ h.calls

    pub record_fallback-IsRecorded :
        (cause : Bytes) (h : Host)
        → (record_fallback app s installed active cause h).0 ≡ ok tt
        → IsRecorded cause h (record_fallback app s installed active cause h).1
    unfolding record_fallback
    record_fallback-IsRecorded cause h e =
        let same = validate_known_good_steam-host h in
        record {
          generation = ground (arith, e);
          verified = ground (arith, e);
          known = validate_known_good_steam-IsKnownGood h (ground (arith, e));
          document = ground (arith, e, same);
          calls = ground (arith, e, same);
        }

    pub record_fallback-Calm : (cause : Bytes) → Calm (record_fallback app s installed active cause)
    unfolding record_fallback
    record_fallback-Calm cause h early = ground (arith, validate_known_good_steam-host h)

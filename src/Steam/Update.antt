-- ===== src/Steam/Update.antt =====
-- What `Update` tells its caller about the runs of `app_update`.
use docker_vrising.Prelude.{
  ◌≡◌, refl, sym, ◌∙◌, ◌<◌, ◌+◌, ℕ, zero, suc, Bool, true, false, Option, none, some, Bytes, arith,
  bytes_beq_iff, if◌then◌else◌, subst, bytes_eq,
}
use native.Mathlib.Decide.{dec_lt}
use docker_vrising.Prelude.Result.{Result, ok, err, >>=-eq-ok, guard}
use docker_vrising.Steam.{
  SteamBuild, SteamError, Installation, Attempt, SteamClient, UpdateError, pre_mutation,
  post_mutation, command_failed, check_same_build, validate_updated_installation,
  read_installed_build, update_attempts, update, check_update, run_update, after_validation,
  valid_runtime_steam_app_id, missing_executable, unreadable_file, wrong_runtime_app_id, require,
}

-- The installation has an executable, its manifest names the build that was returned, and that is
-- the target.
pub record IsInstalled (target b : SteamBuild) (i : Installation) : Type 0 where
  pub executable : i.executable ≡ true
  pub manifest : Bytes
  pub found : i.manifest ≡ some manifest
  pub read : read_installed_build manifest ≡ ok b
  pub same : b ≡ target

check_same_build-ok :
    (b target : SteamBuild) {c : SteamBuild}
    → check_same_build b target ≡ ok c
    → (c ≡ b) × (b ≡ target)
unfolding check_same_build
check_same_build-ok b target h = ground (
  arith,
  bytes_beq_iff b.branch target.branch,
  bytes_beq_iff b.build_id target.build_id,
  bytes_beq_iff b.depot_manifest target.depot_manifest,
)

guard-ok : {E : Type 0} (b : Bool) (e : E) → guard b e ≡ ok tt → b ≡ true
guard-ok true e h = refl
guard-ok false e h = cc

require-ok : {A : Type 0} (e : SteamError) (o : Option A) {a : A} → require e o ≡ ok a → o ≡ some a
require-ok e none h = cc
require-ok e (some a) h = cc

validate-IsInstalled :
    (target : SteamBuild) (i : Installation) {b : SteamBuild}
    → validate_updated_installation target i ≡ ok b
    → IsInstalled target b i
unfolding validate_updated_installation
validate-IsInstalled target i h =
    let (_, there, h1) = >>=-eq-ok (guard i.executable missing_executable) _ h in
    let (app_id, _, h2) = >>=-eq-ok (require unreadable_file i.runtime_app_id) _ h1 in
    let (_, _, h3) =
      >>=-eq-ok (guard (valid_runtime_steam_app_id app_id) wrong_runtime_app_id) _ h2 in
    let (manifest, found, h4) = >>=-eq-ok (require unreadable_file i.manifest) _ h3 in
    let (installed, read, h5) = >>=-eq-ok (read_installed_build manifest) _ h4 in
    let (same, is_target) = check_same_build-ok installed target h5 in
    record {
      executable = guard-ok i.executable missing_executable there;
      manifest = manifest;
      found = require-ok unreadable_file i.manifest found;
      read = subst (λ x. read_installed_build manifest ≡ ok x) (sym same) read;
      same = same ∙ is_target;
    }

module _ (runner : ℕ → Attempt) (target : SteamBuild) where
  -- `app_update` was run until the run of this number, one of three; those before it failed, and none
  -- of them was cancelled.
  pub record HasRun (last : ℕ) : Type 0 where
    pub bound : last < 3
    pub earlier :
        (n : ℕ) → n < last → ((runner n).succeeded ≡ false) × ((runner n).cancelled ≡ false)

  -- The last run reported success and left the target installed.
  pub record IsUpdated (b : SteamBuild) (last : ℕ) : Type 0 where
    pub succeeded : (runner last).succeeded ≡ true
    pub installed : IsInstalled target b (runner last).leaves

  -- The last run reported success and left something else, or it failed and was cancelled or the third.
  pub data HasFailed (last : ℕ) : Type 0 where
    leaves_other :
        (runner last).succeeded ≡ true
        → (e : SteamError) → validate_updated_installation target (runner last).leaves ≡ err e
        → HasFailed last
    was_cancelled :
        (runner last).succeeded ≡ false → (runner last).cancelled ≡ true → HasFailed last
    was_third : (runner last).succeeded ≡ false → last ≡ 2 → HasFailed last

  -- What each kind of result says of the runs; a pre-mutation error comes without any.
  abbrev pub Reports : Result UpdateError SteamBuild × ℕ → Type 0
  Reports (err (pre_mutation e), runs) = ⊥
  Reports (err (post_mutation e), runs) =
      (last : ℕ) × (runs ≡ suc last) × HasRun last × HasFailed last
  Reports (ok b, runs) = (last : ℕ) × (runs ≡ suc last) × HasRun last × IsUpdated b last

  after_validation-Reports :
      (r : Result SteamError SteamBuild) (runs : ℕ)
      → HasRun runs
      → (runner runs).succeeded ≡ true
      → validate_updated_installation target (runner runs).leaves ≡ r
      → Reports (after_validation r, suc runs)
  after_validation-Reports (err e) runs run ran h = (runs, refl, run, leaves_other ran e h)
  after_validation-Reports (ok b) runs run ran h = (
    runs,
    refl,
    run,
    record { succeeded = ran; installed = validate-IsInstalled target (runner runs).leaves h },
  )

  if-Reports :
      (b : Bool) (m n : Result UpdateError SteamBuild × ℕ)
      → (b ≡ true → Reports m)
      → (b ≡ false → Reports n)
      → Reports (if b then m else n)
  if-Reports true m n h k = h refl
  if-Reports false m n h k = k refl

  -- The runs so far failed, and none was cancelled.
  abbrev AllFailed : ℕ → Type 0
  AllFailed runs =
      (n : ℕ) → n < runs → ((runner n).succeeded ≡ false) × ((runner n).cancelled ≡ false)

  AllFailed-suc :
      (runs : ℕ)
      → AllFailed runs
      → (runner runs).succeeded ≡ false
      → (runner runs).cancelled ≡ false
      → AllFailed (suc runs)
  AllFailed-suc runs all failed kept n below = elim (dec_lt n runs) [
    | yes lt ↦ all n lt
    | no ge ↦
        subst (λ m. ((runner m).succeeded ≡ false) × ((runner m).cancelled ≡ false))
          (omega (arith, ge, below)) (failed, kept)
  ]

  update_attempts-Reports :
      (tries runs : ℕ)
      → tries + runs ≡ 3
      → AllFailed runs
      → Reports (update_attempts tries runs runner target)
  unfolding update_attempts
  update_attempts-Reports zero runs total all = (
    2,
    omega arith,
    record { bound = omega arith; earlier = λ n lt. all n (omega arith) },
    was_third (all 2 (omega arith)).0 refl,
  )
  update_attempts-Reports (suc tries) runs total all =
      let v = validate_updated_installation target (runner runs).leaves in
      let later = update_attempts tries (suc runs) runner target in
      let run : HasRun runs = record { bound = omega arith; earlier = all } in
      if-Reports (runner runs).succeeded (after_validation v, suc runs)
        (if (runner runs).cancelled then (err (post_mutation command_failed), suc runs) else later)
        (λ succeeded. after_validation-Reports v runs run succeeded refl)
        (λ failed.
          if-Reports (runner runs).cancelled (err (post_mutation command_failed), suc runs) later
            (λ cancelled. (runs, refl, run, was_cancelled failed cancelled))
            (λ kept.
              update_attempts-Reports tries (suc runs) (omega arith)
                (AllFailed-suc runs all failed kept)))

-- What an update that checked its target reports.
abbrev pub ChecksAndReports :
    (ℕ → Attempt) → Result SteamError SteamBuild → Result UpdateError SteamBuild × ℕ → Type 0
ChecksAndReports runner (err e) result = result ≡ (err (pre_mutation e), 0)
ChecksAndReports runner (ok target) result = Reports runner target result

run_update-ChecksAndReports :
    (runner : ℕ → Attempt) (checked : Result SteamError SteamBuild)
    → ChecksAndReports runner checked (run_update checked runner)
run_update-ChecksAndReports runner (err e) = refl
run_update-ChecksAndReports runner (ok target) =
    update_attempts-Reports runner target 3 0 refl (λ n none_yet. absurd (omega arith))

-- An update whose check fails runs nothing, and returns the pre-mutation error. Any other runs
-- `app_update` once to three times, and again only after a run that failed and was not cancelled. It
-- returns a build only if the last run reported success and left the target build installed, and
-- otherwise a post-mutation error: the last run left something else, or it failed and was cancelled
-- or the third.
pub update-ChecksAndReports :
    (s : SteamClient) (cancelled : Bool) (runner : ℕ → Attempt) (target : SteamBuild)
    → ChecksAndReports runner (check_update s cancelled target) (update s cancelled runner target)
unfolding update
update-ChecksAndReports s cancelled runner target =
    run_update-ChecksAndReports runner (check_update s cancelled target)

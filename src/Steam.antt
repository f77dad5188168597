-- ===== src/Steam.antt =====
-- steam.go: the builds that SteamCMD reports, the installation that it leaves, and `Update`. What
-- the regular expression of a download line accepts is a parameter.
pub mod Console
pub mod Update
mod Tests
use docker_vrising.Prelude.{
  ℕ, zero, suc, Bool, true, false, ◌&&◌, ◌||◌, not, Option, none, some, List, [], ◌∷◌, ◌++◌, any,
  all, ◌==◌, ltb, leb, ◌+◌, nat_eq, bytes_eq, Bytes, codes, length, if◌then◌else◌,
}
use docker_vrising.Prelude.Result.{Result, ok, err, ◌>>=◌, ◌>>◌, guard}
use Console.{remote_vdf_root_line, validate_steam_wrapper}
use docker_vrising.Vdf.{
  VdfNode, VdfError, value, child_named, child_exact, path_value, equal_fold, parse_vdf_document,
  parse_vdf_prefix,
}

pub record SteamBuild : Type 0 where
  pub build_id : Bytes
  pub depot_manifest : Bytes
  pub branch : Bytes

pub data SteamError : Type 0 where
  bad_vdf : VdfError → SteamError
  wrong_app_id missing_build_id target_build_differs missing_depot_manifest : SteamError
  missing_metadata missing_branch : SteamError
  root_count : ℕ → SteamError
  unrecognized_output : SteamError
  missing_executable unreadable_file wrong_runtime_app_id : SteamError
  branch_mismatch build_mismatch manifest_mismatch : SteamError
  bad_configuration public_misspelled incomplete_target command_failed : SteamError

abbrev steam_app_id : Bytes
steam_app_id = codes "1829350"

abbrev steam_depot_id : Bytes
steam_depot_id = codes "1829351"

abbrev steam_runtime_app_id : Bytes
steam_runtime_app_id = codes "1604030"

abbrev public_branch : Bytes
public_branch = codes "public"

abbrev is_some_branch : Option Bytes → Bytes → Bytes
is_some_branch none fallback = fallback
is_some_branch (some key) fallback = if key == [] then fallback else key

-- `selectedSteamBranch`
unfoldable pub selected_steam_branch : Bytes → Bytes
selected_steam_branch branch = if branch == [] then public_branch else branch

abbrev lift_vdf : {A : Type 0} → Result VdfError A → Result SteamError A
lift_vdf (ok a) = ok a
lift_vdf (err e) = err (bad_vdf e)

abbrev require : {A : Type 0} → SteamError → Option A → Result SteamError A
require e none = err e
require e (some a) = ok a

-- A value that is there and not empty.
abbrev require_text : SteamError → Option Bytes → Result SteamError Bytes
require_text e none = err e
require_text e (some text) = if text == [] then err e else ok text

abbrev path_text : Result VdfError Bytes → Result SteamError Bytes
path_text (err e) = err missing_depot_manifest
path_text (ok text) = if text == [] then err missing_depot_manifest else ok text

abbrev differs : Option Bytes → Bytes → Bool
differs none build = false
differs (some target) build = not (target == []) && not (target == build)

abbrev branch_of : Option VdfNode → Bytes
branch_of none = public_branch
branch_of (some user_config) = is_some_branch (value user_config (codes "BetaKey")) public_branch

-- `readInstalledBuild`, from the bytes of the manifest on.
pub read_installed_build : Bytes → Result SteamError SteamBuild
read_installed_build manifest = do
  root ← lift_vdf (parse_vdf_document manifest (codes "AppState"))
  app_id ← require wrong_app_id (value root (codes "appid"))
  guard (app_id == steam_app_id) wrong_app_id
  build_id ← require_text missing_build_id (value root (codes "buildid"))
  guard (not (differs (value root (codes "TargetBuildID")) build_id)) target_build_differs
  depot_manifest ←
      path_text (path_value (codes "InstalledDepots" ∷ steam_depot_id ∷ codes "manifest" ∷ []) root)
  ok (record {
    build_id = build_id;
    depot_manifest = depot_manifest;
    branch = branch_of (child_named root (codes "UserConfig"));
  })

-- The build of a branch in the metadata that SteamCMD prints.
pub read_remote_build : VdfNode → Bytes → Result SteamError SteamBuild
read_remote_build root branch = do
  depots ← require missing_metadata (child_named root (codes "depots"))
  branches ← require missing_metadata (child_named depots (codes "branches"))
  selected ← require missing_branch (child_exact branches branch)
  build_id ← require_text missing_build_id (value selected (codes "buildid"))
  depot ← require missing_metadata (child_named depots steam_depot_id)
  manifests ← require missing_metadata (child_named depot (codes "manifests"))
  manifest ← require missing_depot_manifest (child_exact manifests branch)
  depot_manifest ← require_text missing_depot_manifest (value manifest (codes "gid"))
  ok (record { build_id = build_id; depot_manifest = depot_manifest; branch = branch })

abbrev drop : ℕ → Bytes → Bytes
drop zero s = s
drop (suc n) [] = []
drop (suc n) (c ∷ s) = drop n s

abbrev take : ℕ → Bytes → Bytes
take zero s = []
take (suc n) [] = []
take (suc n) (c ∷ s) = c ∷ take n s

module _ (is_download_progress : Bytes → Bool) where
  -- `parseRemoteVDF`
  pub parse_remote_vdf : Bytes → Bytes → Result SteamError VdfNode
  parse_remote_vdf output root_name = do
    let found = remote_vdf_root_line output root_name
    guard (found.count == 1) (root_count found.count)
    guard (validate_steam_wrapper is_download_progress true (take found.start output))
        unrecognized_output
    root ← lift_vdf (parse_vdf_prefix (drop found.start output) root_name)
    guard (validate_steam_wrapper is_download_progress false root.1) unrecognized_output
    ok root.0

  -- `parseRemoteBuild`
  pub parse_remote_build : Bytes → Bytes → Result SteamError SteamBuild
  unfolding parse_remote_vdf
  parse_remote_build output branch = do
    root ← parse_remote_vdf output steam_app_id
    read_remote_build root (selected_steam_branch branch)

-- What the validation of an installation reads of the server's directory.
pub record Installation : Type 0 where
  pub executable : Bool
  pub runtime_app_id : Option Bytes
  pub manifest : Option Bytes

-- `validRuntimeSteamAppID`
unfoldable pub valid_runtime_steam_app_id : Bytes → Bool
valid_runtime_steam_app_id content =
    content == steam_runtime_app_id
    || (content == steam_runtime_app_id ++ (10 ∷ [])
        || content == steam_runtime_app_id ++ (13 ∷ 10 ∷ []))

check_same_build : SteamBuild → SteamBuild → Result SteamError SteamBuild
check_same_build installed target = do
  guard (installed.branch == target.branch) branch_mismatch
  guard (installed.build_id == target.build_id) build_mismatch
  guard (installed.depot_manifest == target.depot_manifest) manifest_mismatch
  ok installed

-- `validateUpdatedInstallation`
pub validate_updated_installation : SteamBuild → Installation → Result SteamError SteamBuild
unfolding check_same_build
validate_updated_installation target i = do
  guard i.executable missing_executable
  app_id ← require unreadable_file i.runtime_app_id
  guard (valid_runtime_steam_app_id app_id) wrong_runtime_app_id
  manifest ← require unreadable_file i.manifest
  installed ← read_installed_build manifest
  check_same_build installed target

-- The errors of `Update`: before `app_update` was run, and after.
pub data UpdateError : Type 0 where
  pre_mutation post_mutation : SteamError → UpdateError

-- What one run of `app_update` did: whether it reported success, whether the context was cancelled
-- by its end, and the installation that it left.
pub record Attempt : Type 0 where
  pub succeeded : Bool
  pub cancelled : Bool
  pub leaves : Installation

pub record SteamClient : Type 0 where
  pub runner : Bool
  pub steam_cmd : Bytes
  pub server_dir : Bytes
  pub home_dir : Bytes
  pub branch : Bytes

abbrev after_validation : Result SteamError SteamBuild → Result UpdateError SteamBuild
after_validation (ok b) = ok b
after_validation (err e) = err (post_mutation e)

-- The loop over the tries: the result and the number of runs of `app_update`.
pub update_attempts : ℕ → ℕ → (ℕ → Attempt) → SteamBuild → Result UpdateError SteamBuild × ℕ
update_attempts zero runs runner target = (err (post_mutation command_failed), runs)
update_attempts (suc tries) runs runner target =
    let later = update_attempts tries (suc runs) runner target in
    if (runner runs).succeeded
    then (after_validation (validate_updated_installation target (runner runs).leaves), suc runs)
    else if (runner runs).cancelled
    then (err (post_mutation command_failed), suc runs)
    else later

-- `validateCommandConfiguration`
unfoldable pub is_configured : SteamClient → Bool → Bool
is_configured s cancelled =
    not cancelled
    && (s.runner
        && (not (s.steam_cmd == []) && (not (s.server_dir == []) && not (s.home_dir == []))))

-- The configured branch is `public` in another spelling.
abbrev is_misspelled_public : Bytes → Bool
is_misspelled_public branch = not (branch == public_branch) && equal_fold branch public_branch

pub check_update : SteamClient → Bool → SteamBuild → Result SteamError SteamBuild
check_update s cancelled target = do
  guard (is_configured s cancelled) bad_configuration
  let selected = record target { branch = selected_steam_branch target.branch }
  guard (not (is_misspelled_public s.branch)) public_misspelled
  guard (not (target.build_id == []) && not (target.depot_manifest == [])) incomplete_target
  guard (selected.branch == selected_steam_branch s.branch) branch_mismatch
  ok selected

abbrev run_update : Result SteamError SteamBuild → (ℕ → Attempt) → Result UpdateError SteamBuild × ℕ
run_update (err e) runner = (err (pre_mutation e), 0)
run_update (ok target) runner = update_attempts 3 0 runner target

-- `Update`, where `runner` says what each run of `app_update` does.
pub update : SteamClient → Bool → (ℕ → Attempt) → SteamBuild → Result UpdateError SteamBuild × ℕ
update s cancelled runner target = run_update (check_update s cancelled target) runner

-- ===== src/Startup/Samples.antt =====
-- An application whose calls all succeed, for the tests.
use docker_vrising.Prelude.{true, none, some, [], codes}
use docker_vrising.Prelude.Result.{ok, err}
use docker_vrising.State.{pos, State, initial_state, no_runtime}
use docker_vrising.Config.{Config}
use docker_vrising.Steam.{SteamBuild, pre_mutation, bad_configuration}
use docker_vrising.Startup.Host.{
  Application, Dependencies, Host, StagedGeneration, no_staged, no_lock, no_such_process, committed,
}

abbrev pub config : Config
config = record {
  server_dir = codes "/s";
  data_dir = codes "/d";
  state_dir = codes "/s/x";
  update_game = true;
  update_mods = true;
  mods_enabled = true;
  kindred_version = codes "latest";
  satisvampory_version = codes "latest";
  backup_retention = pos 3;
  startup_timeout = pos 1;
  shutdown_timeout = pos 1;
  log_days = pos 7;
  branch = [];
  puid = none;
  pgid = none;
  game_env = [];
  base_env = [];
}

abbrev pub installed : SteamBuild
installed = record { build_id = codes "1"; depot_manifest = codes "2"; branch = codes "public" }

abbrev pub newest : SteamBuild
newest = record { build_id = codes "5"; depot_manifest = codes "6"; branch = codes "public" }

abbrev pub generation : StagedGeneration
generation = record no_staged {
  generation = record { id = codes "g"; lock_digest = []; status = codes "active"; created_at = 1 };
}

-- A state left by a run whose server has process 7, on the installed build.
abbrev pub recorded : State
recorded = record initial_state {
  steam_build = codes "1";
  active = some generation.generation;
  runtime = record no_runtime {
    phase = codes "ready";
    ready = true;
    server = record { pid = pos 7; start_ticks = 9 };
  };
}

abbrev pub all_there : Dependencies
all_there = record {
  store = true;
  steam = true;
  supervisor = true;
  backups = true;
  mods = true;
  resolver = true;
  archives = true;
  proc = true;
}

abbrev pub app : Application
app = record {
  config = config;
  has = all_there;
  now = λ h. 100;
  validate_mounts = λ h. ok tt;
  open_lifetime_lock = λ h. ok tt;
  close_lifetime_lock = λ h. ok tt;
  prepare_runtime = λ h. ok tt;
  recover_interrupted_transaction = λ h. (ok tt, h.document);
  load_failure = λ h. none;
  save_failure = λ s h. none;
  load_package_lock = λ h. ok no_lock;
  identity = λ pid h. err no_such_process;
  installed_build = λ h. ok installed;
  validate_installed = λ b h. ok b;
  remote_build = λ h. ok newest;
  update_steam = λ b h. ok b;
  update_message = λ e. codes "e";
  create_backup = λ r h. ok tt;
  prune_backups = λ n h. ok tt;
  resolve = λ roots h. err (codes "no network");
  fetch = λ p prior h. ok prior;
  close_archive = λ r h. ok tt;
  package_lock_digest = λ lock. [];
  validate_active = λ g lock h. ok generation;
  verify_installed = λ m h. ok tt;
  stage = λ lock archives h. (ok generation, h.document);
  discard = λ s h. (ok tt, h.document);
  apply = λ s h. (ok tt, h.document);
  rollback = λ h. (ok tt, h.document);
  commit_promotion = λ s h. ((committed, none), h.document);
  recover_promotion = λ h. ((committed, none), h.document);
  seed_server_settings = λ h. ok tt;
  prune_server_logs = λ days now h. ok tt;
  reaches_ready = λ r h. true;
  supervise = λ r promotion h. (record { exit_code = 0; ready = true; error = none }, h.document);
}

-- One whose update fails before it changes anything.
abbrev pub unlucky : Application
unlucky = record app { update_steam = λ b h. err (pre_mutation bad_configuration) }

abbrev pub host : Host
host = record { document = some recorded; calls = [] }

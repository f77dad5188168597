-- ===== src/Config/Tests.antt =====
-- Runs of the configuration, and the theorems at them.
use docker_vrising.Order.{compare_bytes, sort}
use docker_vrising.Prelude.{
  ◌≡◌, refl, true, false, Option, none, some, [], ◌∷◌, Bytes, codes, bytes_beq,
}
use docker_vrising.Prelude.Result.{ok}
use docker_vrising.State.{ℤ, pos, negsuc}
use docker_vrising.Config.{
  game_entries, base_environment, legacy_entries, owner_values, duration_value, int_value,
  bool_value, Environment, load_config, lookup, atoi, semantic_version, Config,
}
use docker_vrising.Config.Bounds.{load_config-IsBounded, IsBounded}
use docker_vrising.Config.Game.{load_config-game_env, game_value}

abbrev no_durations : Bytes → Option ℤ
no_durations s = none

abbrev variables : Environment
variables =
    (codes "LOGDAYS", codes "7")
    ∷ (codes "PUID", codes "1000")
    ∷ (codes "PGID", codes "1001")
    ∷ (codes "SERVERNAME", codes "a")
    ∷ (codes "TZ", codes "UTC")
    ∷ []

abbrev config : Config
config = record {
  server_dir = codes "/mnt/vrising/server";
  data_dir = codes "/mnt/vrising/persistentdata";
  state_dir = codes "/mnt/vrising/server/.docker-vrising";
  update_game = true;
  update_mods = true;
  mods_enabled = true;
  kindred_version = codes "latest";
  satisvampory_version = codes "latest";
  backup_retention = pos 3;
  startup_timeout = pos 1800000000000;
  shutdown_timeout = pos 120000000000;
  log_days = pos 7;
  branch = [];
  puid = some (pos 1000);
  pgid = some (pos 1001);
  game_env = (codes "TZ", codes "UTC") ∷ (codes "VR_SERVER_NAME", codes "a") ∷ [];
  base_env =
      codes "LOGDAYS=7"
      ∷ codes "PGID=1001"
      ∷ codes "PUID=1000"
      ∷ codes "SERVERNAME=a"
      ∷ codes "TZ=UTC"
      ∷ [];
}

config_lem : load_config no_durations variables ≡ ok (config, [])
unfolding load_config bool_value bytes_beq int_value atoi duration_value owner_values legacy_entries
    base_environment sort game_entries compare_bytes
config_lem = refl

load_config-IsBounded_example : IsBounded config
load_config-IsBounded_example = load_config-IsBounded no_durations variables config_lem

load_config-game_env_example :
    lookup config.game_env (codes "VR_SERVER_NAME") ≡ game_value variables (codes "VR_SERVER_NAME")
load_config-game_env_example =
    load_config-game_env no_durations variables (codes "VR_SERVER_NAME") config_lem

atoi_minimum : atoi (codes "-9223372036854775808") ≡ some (negsuc 9223372036854775807)
unfolding atoi
atoi_minimum = refl

atoi_overflow : atoi (codes "9223372036854775808") ≡ none
unfolding atoi
atoi_overflow = refl

semantic_version_two_dots : semantic_version (codes "1.20.3") ≡ true
unfolding semantic_version bytes_beq
semantic_version_two_dots = refl

semantic_version_one_dot : semantic_version (codes "1.20") ≡ false
unfolding semantic_version bytes_beq
semantic_version_one_dot = refl

-- ===== src/Steam/Tests.antt =====
-- An update whose second run leaves nothing installed.
use docker_vrising.Prelude.{true, false, none, ℕ, codes, ◌==◌, nat_eq, []}
use docker_vrising.Steam.{SteamBuild, SteamClient, Attempt, check_update, update}
use docker_vrising.Steam.Update.{ChecksAndReports, update-ChecksAndReports}

abbrev client : SteamClient
client = record {
  runner = true;
  steam_cmd = codes "/steamcmd";
  server_dir = codes "/server";
  home_dir = codes "/home";
  branch = [];
}

abbrev target : SteamBuild
target = record { build_id = codes "7"; depot_manifest = codes "8"; branch = codes "public" }

abbrev runner : ℕ → Attempt
runner n = record {
  succeeded = n == 1;
  cancelled = false;
  leaves = record { executable = false; runtime_app_id = none; manifest = none };
}

update-ChecksAndReports_example :
    ChecksAndReports runner (check_update client false target) (update client false runner target)
update-ChecksAndReports_example = update-ChecksAndReports client false runner target

-- ===== src/Config.antt =====
-- config.go: `LoadConfig` and the readers of its values. An environment is a list of keys and
-- values without repeated keys, a `time.Duration` a count of nanoseconds. `time.ParseDuration`
-- computes its fractions in floating point and is a parameter.
pub mod Bounds
pub mod Game
mod Tests
use docker_vrising.Prelude.{
  ℕ, zero, suc, Bool, true, false, ◌&&◌, ◌||◌, not, Option, none, some, List, [], ◌∷◌, ◌++◌, ◌==◌,
  ltb, leb, ◌+◌, ◌*◌, ◌-◌, nat_eq, bytes_eq, Bytes, codes, if◌then◌else◌, map,
}
use docker_vrising.Prelude.Result.{Result, ok, err, ◌>>=◌, ◌>>◌, guard}
use docker_vrising.State.{ℤ, pos, negsuc}
use docker_vrising.Order.{sort_strings}

abbrev pub Environment : Type 0
Environment = List (Bytes × Bytes)

-- `env[key]` with its second result.
abbrev pub lookup : Environment → Bytes → Option Bytes
lookup [] key = none
lookup ((k, v) ∷ rest) key = let later = lookup rest key in if k == key then some v else later

-- `m[key] = value`
abbrev pub assign : Bytes → Bytes → Environment → Environment
assign key value [] = (key, value) ∷ []
assign key value ((k, v) ∷ rest) =
    let later = assign key value rest in if k == key then (key, value) ∷ rest else (k, v) ∷ later

pub record Config : Type 0 where
  pub server_dir : Bytes
  pub data_dir : Bytes
  pub state_dir : Bytes
  pub update_game : Bool
  pub update_mods : Bool
  pub mods_enabled : Bool
  pub kindred_version : Bytes
  pub satisvampory_version : Bytes
  pub backup_retention : ℤ
  pub startup_timeout : ℤ
  pub shutdown_timeout : ℤ
  pub log_days : ℤ
  pub branch : Bytes
  pub puid : Option ℤ
  pub pgid : Option ℤ
  pub game_env : Environment
  pub base_env : List Bytes

-- The message of each error, with the name of the variable.
pub data ConfigError : Type 0 where
  not_version not_boolean not_integer not_duration : Bytes → ConfigError
  too_many_log_days owner_incomplete puid_not_positive pgid_not_positive : ConfigError

abbrev pub max_log_days : ℕ
max_log_days = 365000

abbrev pub is_digit : ℕ → Bool
is_digit c = leb b'0' c && leb c b'9'

-- `[0-9]+` at the front, and what follows it.
unfoldable pub drop_digits : Bytes → Bytes
drop_digits [] = []
drop_digits (c ∷ s) = let rest = drop_digits s in if is_digit c then rest else c ∷ s

abbrev pub starts_with_digit : Bytes → Bool
starts_with_digit [] = false
starts_with_digit (c ∷ s) = is_digit c

-- `[0-9]+\.` at the front.
abbrev pub after_dot : Bytes → Option Bytes
after_dot [] = none
after_dot (c ∷ s) = if c == b'.' then some s else none

unfoldable pub take_number : Bytes → Option Bytes
unfolding drop_digits
take_number s = if starts_with_digit s then after_dot (drop_digits s) else none

abbrev pub is_last_number : Bytes → Bool
is_last_number s = starts_with_digit s && drop_digits s == []

abbrev pub is_two_numbers : Option Bytes → Bool
is_two_numbers none = false
is_two_numbers (some s) = elim (take_number s) [ none ↦ false | some t ↦ is_last_number t ]

-- `semanticVersion`, the pattern `^[0-9]+\.[0-9]+\.[0-9]+$`
unfoldable pub semantic_version : Bytes → Bool
unfolding take_number drop_digits
semantic_version s = is_two_numbers (take_number s)

-- `strconv.Atoi`: a sign, digits, and the range of a 64-bit `int`.
digits_value : Bytes → ℕ → Option ℕ
digits_value [] n = some n
digits_value (c ∷ s) n =
    let rest = digits_value s (n * 10 + (c - b'0')) in if is_digit c then rest else none

abbrev signed : Bool → ℕ → Option ℤ
signed false n = if ltb n 9223372036854775808 then some (pos n) else none
signed true zero = some (pos 0)
signed true (suc n) = if ltb n 9223372036854775808 then some (negsuc n) else none

abbrev magnitude : Bool → Bytes → Option ℤ
magnitude negative [] = none
magnitude negative (c ∷ s) = elim (digits_value (c ∷ s) 0) [
  | none ↦ none
  | some n ↦ signed negative n
]

unfoldable pub atoi : Bytes → Option ℤ
unfolding digits_value
atoi [] = none
atoi (c ∷ s) =
    if c == b'-'
    then magnitude true s
    else if c == b'+'
    then magnitude false s
    else magnitude false (c ∷ s)

-- `left < right`
abbrev pub int_ltb : ℤ → ℤ → Bool
int_ltb (pos a) (pos b) = ltb a b
int_ltb (pos a) (negsuc b) = false
int_ltb (negsuc a) (pos b) = true
int_ltb (negsuc a) (negsuc b) = ltb b a

version_value : Environment → Bytes → Bytes → Result ConfigError Bytes
version_value env name default_value = elim (lookup env name) [
  | none ↦ ok default_value
  | some value ↦
      if value == codes "latest" || semantic_version value then ok value else err (not_version name)
]

bool_value : Environment → Bytes → Bool → Result ConfigError Bool
bool_value env name default_value = elim (lookup env name) [
  | none ↦ ok default_value
  | some value ↦
      if value == codes "true" || value == codes "false"
      then ok (value == codes "true")
      else err (not_boolean name)
]

-- A number that was read, with its lower bound.
abbrev at_least : ConfigError → ℤ → Option ℤ → Result ConfigError ℤ
at_least e minimum none = err e
at_least e minimum (some n) = if int_ltb n minimum then err e else ok n

int_value : Environment → Bytes → ℤ → ℤ → Result ConfigError ℤ
int_value env name default_value minimum = elim (lookup env name) [
  | none ↦ ok default_value
  | some value ↦ at_least (not_integer name) minimum (atoi value)
]

-- `strconv.Atoi` with the check of `ownerValues`.
abbrev owner : ConfigError → Bytes → Result ConfigError ℤ
owner e value = at_least e (pos 1) (atoi value)

abbrev owners : Option Bytes → Option Bytes → Result ConfigError (Option ℤ × Option ℤ)
owners none none = ok (none, none)
owners (some puid) none = err owner_incomplete
owners none (some pgid) = err owner_incomplete
owners (some puid) (some pgid) = do
  puid_value ← owner puid_not_positive puid
  pgid_value ← owner pgid_not_positive pgid
  ok (some puid_value, some pgid_value)

owner_values : Environment → Result ConfigError (Option ℤ × Option ℤ)
owner_values env = owners (lookup env (codes "PUID")) (lookup env (codes "PGID"))

-- `strings.HasPrefix`
abbrev pub has_prefix : Bytes → Bytes → Bool
has_prefix s [] = true
has_prefix [] (c ∷ prefix) = false
has_prefix (x ∷ s) (c ∷ prefix) = x == c && has_prefix s prefix

abbrev pub is_game_key : Bytes → Bool
is_game_key key = has_prefix key (codes "VR_") || (key == codes "TZ" || key == codes "WINEDEBUG")

game_entries : Environment → Environment
game_entries [] = []
game_entries ((key, value) ∷ rest) =
    let later = game_entries rest in if is_game_key key then (key, value) ∷ later else later

abbrev pub legacy_names : List (Bytes × Bytes)
legacy_names =
    (codes "SERVERNAME", codes "VR_SERVER_NAME")
    ∷ (codes "WORLDNAME", codes "VR_SAVE_NAME")
    ∷ (codes "GAMEPORT", codes "VR_GAME_PORT")
    ∷ (codes "QUERYPORT", codes "VR_QUERY_PORT")
    ∷ []

-- What one legacy variable adds to the game's environment, and to the warnings.
abbrev legacy_entry :
    Environment → Bytes → Bytes → Environment × List Bytes → Environment × List Bytes
legacy_entry env legacy native (game, warnings) = elim (lookup env legacy) [
  | none ↦ (game, warnings)
  | some value ↦ elim (lookup env native) [
    | some shadowing ↦ (game, warnings ++ ((legacy ++ codes " is shadowed by " ++ native) ∷ []))
    | none ↦ (assign native value game, warnings)
  ]
]

legacy_entries :
    Environment → List (Bytes × Bytes) → Environment × List Bytes → Environment × List Bytes
legacy_entries env [] found = found
legacy_entries env ((legacy, native) ∷ names) found =
    legacy_entries env names (legacy_entry env legacy native found)

-- `EnvironmentMap`; `strings.Cut` at the first `=`.
cut : Bytes → Option (Bytes × Bytes)
cut [] = none
cut (c ∷ s) =
    let rest = cut s in
    if c == b'='
    then some ([], s)
    else elim rest [ none ↦ none | some (key, value) ↦ some (c ∷ key, value) ]

add_entry : Option (Bytes × Bytes) → Environment → Environment
add_entry none env = env
add_entry (some (key, value)) env = assign key value env

environment_from : List Bytes → Environment → Environment
environment_from [] env = env
environment_from (entry ∷ entries) env = environment_from entries (add_entry (cut entry) env)

pub environment_map : List Bytes → Environment
environment_map entries = environment_from entries []

abbrev base_entry : Environment → Bytes → Bytes
base_entry env key = elim (lookup env key) [
  | none ↦ key ++ (b'=' ∷ [])
  | some value ↦ key ++ (b'=' ∷ value)
]

base_environment : Environment → List Bytes
base_environment env = map (base_entry env) (sort_strings (map (λ e. e.0) env))

module _ (parse_duration : Bytes → Option ℤ) where
  duration_value : Environment → Bytes → ℤ → Result ConfigError ℤ
  duration_value env name default_value = elim (lookup env name) [
    | none ↦ ok default_value
    | some value ↦ at_least (not_duration name) (pos 1) (parse_duration value)
  ]

  -- `LoadConfig`
  pub load_config : Environment → Result ConfigError (Config × List Bytes)
  unfolding version_value
  load_config env = do
    update_game ← bool_value env (codes "UPDATE_GAME") true
    update_mods ← bool_value env (codes "UPDATE_MODS") true
    mods_enabled ← bool_value env (codes "MODS_ENABLED") true
    backup_retention ← int_value env (codes "BACKUP_RETENTION") (pos 3) (pos 1)
    log_days ← int_value env (codes "LOGDAYS") (pos 30) (pos 1)
    guard (not (int_ltb (pos max_log_days) log_days)) too_many_log_days
    startup_timeout ← duration_value env (codes "STARTUP_TIMEOUT") (pos 1800000000000)
    shutdown_timeout ← duration_value env (codes "SHUTDOWN_TIMEOUT") (pos 120000000000)
    kindred_version ← version_value env (codes "KINDRED_COMMANDS_VERSION") (codes "latest")
    satisvampory_version ← version_value env (codes "SATISVAMPORY_VERSION") (codes "latest")
    ids ← owner_values env
    let legacy = legacy_entries env legacy_names (game_entries env, [])
    ok (
      record {
        server_dir = codes "/mnt/vrising/server";
        data_dir = codes "/mnt/vrising/persistentdata";
        state_dir = codes "/mnt/vrising/server/.docker-vrising";
        update_game = update_game;
        update_mods = update_mods;
        mods_enabled = mods_enabled;
        kindred_version = kindred_version;
        satisvampory_version = satisvampory_version;
        backup_retention = backup_retention;
        startup_timeout = startup_timeout;
        shutdown_timeout = shutdown_timeout;
        log_days = log_days;
        branch = elim (lookup env (codes "BRANCH")) [ none ↦ [] | some b ↦ b ];
        puid = ids.0;
        pgid = ids.1;
        game_env = legacy.0;
        base_env = base_environment env;
      },
      sort_strings legacy.1,
    )

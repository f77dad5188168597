-- ===== src/Config/Game.antt =====
-- The environment of the game: what `LoadConfig` passes on, and the legacy names.
use docker_vrising.Prelude.{
  subst, Option-cases, true, false, ◌≡◌, refl, sym, inl, inr, Option, none, some, List, [], ◌∷◌,
  Bytes, bytes_beq, All, bytes_beq_iff, arith, ◌==◌, bytes_eq, if◌then◌else◌,
}
use docker_vrising.Prelude.Result.{ok}
use docker_vrising.State.{ℤ}
use docker_vrising.Config.{
  Environment, Config, load_config, lookup, assign, is_game_key, legacy_entry, legacy_entries,
  legacy_names, game_entries,
}

or_else : Option Bytes → Option Bytes → Option Bytes
or_else none o = o
or_else (some v) o = some v

-- The value that a legacy name stands in for, the last one where several map to the key.
legacy_value : Environment → List (Bytes × Bytes) → Bytes → Option Bytes
unfolding or_else
legacy_value env [] key = none
legacy_value env ((legacy, native) ∷ names) key =
    or_else (legacy_value env names key) (if native == key then lookup env legacy else none)

-- What the game should see under a key: its own variables, and the legacy ones where these are absent.
pub game_value : Environment → Bytes → Option Bytes
unfolding or_else legacy_value
game_value env key =
    if is_game_key key then or_else (lookup env key) (legacy_value env legacy_names key) else none

pub lookup-assign :
    (key value : Bytes) (env : Environment) (other : Bytes)
    → lookup (assign key value env) other ≡ (if key == other then some value else lookup env other)
lookup-assign key value [] other = refl
lookup-assign key value ((k, v) ∷ env) other = ground (
  arith,
  lookup-assign key value env other,
  bytes_beq_iff k key,
  bytes_beq_iff k other,
  bytes_beq_iff key other,
)

lookup-game_entries :
    (env : Environment) (key : Bytes)
    → lookup (game_entries env) key ≡ (if is_game_key key then lookup env key else none)
unfolding game_entries
lookup-game_entries [] key = ground arith
lookup-game_entries ((k, v) ∷ env) key =
    ground (arith, lookup-game_entries env key, bytes_beq_iff k key)

legacy_entries-lookup :
    (env : Environment) (names : List (Bytes × Bytes)) (key : Bytes) (g : Environment)
    (w : List Bytes)
    → lookup env key ≡ none
    → lookup (legacy_entries env names (g, w)).0 key
      ≡ or_else (legacy_value env names key) (lookup g key)
unfolding or_else legacy_value legacy_entries
legacy_entries-lookup env [] key g w h = refl
legacy_entries-lookup env ((legacy, native) ∷ names) key g w h = ground (
  arith,
  legacy_entries-lookup env names key (legacy_entry env legacy native (g, w)).0
      (legacy_entry env legacy native (g, w)).1 h,
  lookup-assign native (elim (lookup env legacy) [ none ↦ [] | some v ↦ v ]) g key,
  bytes_beq_iff native key,
)

legacy_entries-kept :
    (env : Environment) (names : List (Bytes × Bytes)) (key v : Bytes) (g : Environment)
    (w : List Bytes)
    → lookup env key ≡ some v
    → lookup (legacy_entries env names (g, w)).0 key ≡ lookup g key
unfolding legacy_entries
legacy_entries-kept env [] key v g w h = refl
legacy_entries-kept env ((legacy, native) ∷ names) key v g w h = ground (
  arith,
  legacy_entries-kept env names key v (legacy_entry env legacy native (g, w)).0
      (legacy_entry env legacy native (g, w)).1 h,
  lookup-assign native (elim (lookup env legacy) [ none ↦ [] | some v ↦ v ]) g key,
  bytes_beq_iff native key,
)

legacy_value-none :
    (env : Environment) (names : List (Bytes × Bytes)) (key : Bytes)
    → All (λ n. is_game_key n.1 ≡ true) names
    → is_game_key key ≡ false
    → legacy_value env names key ≡ none
unfolding legacy_value or_else
legacy_value-none env [] key all_game h = refl
legacy_value-none env ((legacy, native) ∷ names) key all_game h =
    ground (arith, legacy_value-none env names key all_game.1 h, bytes_beq_iff native key)

legacy_names-All : All (λ n. is_game_key n.1 ≡ true) legacy_names
unfolding bytes_beq
legacy_names-All = (refl, (refl, (refl, (refl, tt))))

abbrev game_environment : Environment → Environment
game_environment env = (legacy_entries env legacy_names (game_entries env, [])).0

game_environment-game_value :
    (env : Environment) (key : Bytes) → lookup (game_environment env) key ≡ game_value env key
unfolding game_value or_else
game_environment-game_value env key = elim (Option-cases (lookup env key)) [
  | inl e ↦ ground (
    arith,
    legacy_entries-lookup env legacy_names key (game_entries env) [] e,
    lookup-game_entries env key,
    legacy_value-none env legacy_names key legacy_names-All,
  )
  | inr (v, e) ↦ ground (
    arith,
    legacy_entries-kept env legacy_names key v (game_entries env) [] e,
    lookup-game_entries env key,
  )
]

load_config-game :
    (parse : Bytes → Option ℤ) (env : Environment) {c : Config} {warnings : List Bytes}
    → load_config parse env ≡ ok (c, warnings)
    → c.game_env ≡ game_environment env
unfolding load_config
load_config-game parse env h = ground arith

-- The environment of the game holds a value under a key exactly where the key is a `VR_` variable,
-- `TZ` or `WINEDEBUG`: the value that was set under that key, or else under its legacy name.
pub load_config-game_env :
    (parse : Bytes → Option ℤ) (env : Environment) {c : Config} {warnings : List Bytes}
    (key : Bytes)
    → load_config parse env ≡ ok (c, warnings)
    → lookup c.game_env key ≡ game_value env key
load_config-game_env parse env {c = c} key h =
    subst (λ g. lookup g key ≡ game_value env key) (sym (load_config-game parse env h))
      (game_environment-game_value env key)

-- ===== src/Config/Bounds.antt =====
-- The values that `LoadConfig` accepts.
use docker_vrising.Prelude.{
  Bool-cases, Option-cases, subst, ℕ, true, false, ◌≡◌, ◌≤◌, ◌||◌, inl, inr, Option, none, some,
  List, Bytes, codes, bytes_beq, arith, refl, ◌==◌, bytes_eq,
}
use docker_vrising.Prelude.Result.{Result, ok, err, ◌>>=◌}
use docker_vrising.State.{ℤ, pos, negsuc}
use docker_vrising.Config.{
  Environment, Config, ConfigError, not_integer, not_duration, puid_not_positive, pgid_not_positive,
  load_config, int_ltb, max_log_days, semantic_version, lookup, at_least, int_value, duration_value,
  version_value, owner_values, owners, owner, atoi,
}

-- The number lies between the two bounds; without an upper bound, it is at least the lower one.
abbrev pub IsAtLeast : ℕ → ℤ → Type 0
IsAtLeast lo (pos n) = lo ≤ n
IsAtLeast lo (negsuc n) = ⊥

abbrev pub IsAtMost : ℕ → ℤ → Type 0
IsAtMost hi (pos n) = n ≤ hi
IsAtMost hi (negsuc n) = Unit

abbrev pub ArePositive : Option ℤ × Option ℤ → Type 0
ArePositive (none, none) = Unit
ArePositive (some u, some g) = IsAtLeast 1 u × IsAtLeast 1 g
ArePositive _ = ⊥

pub record IsBounded (c : Config) : Type 0 where
  pub retention : IsAtLeast 1 c.backup_retention
  pub days : IsAtLeast 1 c.log_days × IsAtMost max_log_days c.log_days
  pub startup : IsAtLeast 1 c.startup_timeout
  pub shutdown : IsAtLeast 1 c.shutdown_timeout
  pub kindred : (c.kindred_version == codes "latest" || semantic_version c.kindred_version) ≡ true
  pub satisvampory :
      (c.satisvampory_version == codes "latest" || semantic_version c.satisvampory_version) ≡ true
  pub ids : ArePositive (c.puid, c.pgid)

IsAtLeast-int_ltb : (lo : ℕ) (z : ℤ) → int_ltb z (pos lo) ≡ false → IsAtLeast lo z
IsAtLeast-int_ltb lo (pos n) h = ground arith
IsAtLeast-int_ltb lo (negsuc n) h = cc

IsAtMost-int_ltb : (hi : ℕ) (z : ℤ) → int_ltb (pos hi) z ≡ false → IsAtMost hi z
IsAtMost-int_ltb hi (pos n) h = ground arith
IsAtMost-int_ltb hi (negsuc n) h = tt

-- What holds of the value, if there is one.
abbrev Gives : {A : Type 0} → (A → Type 0) → Result ConfigError A → Type 0
Gives P (ok a) = P a
Gives P (err e) = Unit {0}

Gives-bind :
    {A B : Type 0} (Q : A → Type 0) (P : B → Type 0) (m : Result ConfigError A)
    (next : A → Result ConfigError B)
    → Gives Q m
    → ((a : A) → Q a → Gives P (next a))
    → Gives P (m >>= next)
Gives-bind Q P (ok a) next q h = h a q
Gives-bind Q P (err e) next q h = tt

Gives-ok :
    {A : Type 0} (P : A → Type 0) {m : Result ConfigError A} {a : A} → Gives P m → m ≡ ok a → P a
Gives-ok P {m = m} {a = a} g h = subst (Gives P) h g

at_least-IsAtLeast :
    (e : ConfigError) (lo : ℕ) (o : Option ℤ) → Gives (IsAtLeast lo) (at_least e (pos lo) o)
at_least-IsAtLeast e lo none = tt
at_least-IsAtLeast e lo (some z) = elim (Bool-cases (int_ltb z (pos lo))) [
  | inl h ↦ rw h tt
  | inr h ↦ rw h (IsAtLeast-int_ltb lo z h)
]

module _ (env : Environment) (name : Bytes) where
  int_value-IsAtLeast :
      (lo : ℕ) (d : ℤ) → IsAtLeast lo d → Gives (IsAtLeast lo) (int_value env name d (pos lo))
  unfolding int_value
  int_value-IsAtLeast lo d h = elim (Option-cases (lookup env name)) [
    | inl e ↦ rw (e, Gives) h
    | inr (v, e) ↦ rw (e, Gives) (at_least-IsAtLeast (not_integer name) lo (atoi v))
  ]

  duration_value-IsAtLeast :
      (parse : Bytes → Option ℤ) (d : ℤ)
      → IsAtLeast 1 d
      → Gives (IsAtLeast 1) (duration_value parse env name d)
  unfolding duration_value
  duration_value-IsAtLeast parse d h = elim (Option-cases (lookup env name)) [
    | inl e ↦ rw (e, Gives) h
    | inr (v, e) ↦ rw (e, Gives) (at_least-IsAtLeast (not_duration name) 1 (parse v))
  ]

abbrev IsVersion : Bytes → Type 0
IsVersion v = (v == codes "latest" || semantic_version v) ≡ true

latest-IsVersion : IsVersion (codes "latest")
unfolding bytes_beq
latest-IsVersion = refl

version_value-IsVersion :
    (env : Environment) (name d : Bytes) → IsVersion d → Gives IsVersion (version_value env name d)
unfolding version_value
version_value-IsVersion env name d h = elim (Option-cases (lookup env name)) [
  | inl e ↦ rw (e, Gives) h
  | inr (v, e) ↦
      rw (e, Gives)
        (elim (Bool-cases (v == codes "latest" || semantic_version v)) [
          | inl t ↦ rw t t
          | inr t ↦ rw t tt
        ])
]

owner_values-ArePositive : (env : Environment) → Gives ArePositive (owner_values env)
unfolding owner_values
owner_values-ArePositive env = from (lookup env (codes "PUID")) (lookup env (codes "PGID"))
  where
    from : (puid pgid : Option Bytes) → Gives ArePositive (owners puid pgid)
    from none none = tt
    from (some u) none = tt
    from none (some g) = tt
    from (some u) (some g) =
        Gives-bind (IsAtLeast 1) ArePositive (owner puid_not_positive u)
          (λ x. owner pgid_not_positive g >>= λ y. ok (some x, some y))
          (at_least-IsAtLeast puid_not_positive 1 (atoi u))
          (λ x hx.
            Gives-bind (IsAtLeast 1) ArePositive (owner pgid_not_positive g)
              (λ y. ok (some x, some y)) (at_least-IsAtLeast pgid_not_positive 1 (atoi g))
              (λ y hy. (hx, hy)))

-- An accepted configuration keeps at least one backup and at least one day and at most 365000 days
-- of logs, has positive timeouts, has versions that are `latest` or semantic, and has both owner
-- numbers, positive, or neither.
pub load_config-IsBounded :
    (parse : Bytes → Option ℤ) (env : Environment) {c : Config} {warnings : List Bytes}
    → load_config parse env ≡ ok (c, warnings)
    → IsBounded c
unfolding load_config
load_config-IsBounded parse env {c = c} h = record {
  retention =
      ground (arith, int_value-IsAtLeast env (codes "BACKUP_RETENTION") 1 (pos 3) (omega arith));
  days = ground (
    arith,
    int_value-IsAtLeast env (codes "LOGDAYS") 1 (pos 30) (omega arith),
    IsAtMost-int_ltb max_log_days c.log_days,
  );
  startup = ground (
    arith,
    duration_value-IsAtLeast env (codes "STARTUP_TIMEOUT") parse (pos 1800000000000) (omega arith),
  );
  shutdown = ground (
    arith,
    duration_value-IsAtLeast env (codes "SHUTDOWN_TIMEOUT") parse (pos 120000000000) (omega arith),
  );
  kindred = ground (
    arith,
    version_value-IsVersion env (codes "KINDRED_COMMANDS_VERSION") (codes "latest")
        latest-IsVersion,
  );
  satisvampory = ground (
    arith,
    version_value-IsVersion env (codes "SATISVAMPORY_VERSION") (codes "latest") latest-IsVersion,
  );
  ids = ground (arith, owner_values-ArePositive env);
}

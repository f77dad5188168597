-- ===== src/State.antt =====
-- state.go and mods.go: the persisted records. A `*T` that may be nil is an `Option`, a
-- `time.Time` is a count of nanoseconds, and an `int64` is a `ℤ`.
use docker_vrising.Prelude.{
  ℕ, ◌≡◌, ◌↔◌, Bool, true, ◌&&◌, Option, none, List, [], Comparable, refl, ◌==◌, nat_eq, bytes_eq,
  Bytes, bytes_beq_iff, arith,
}

abbrev pub schema_version : ℕ
schema_version = 1

-- `negsuc n` is -(n + 1).
pub data ℤ : Type 0 where
  pos : ℕ → ℤ
  negsuc : ℕ → ℤ

pub record PackageRef : Type 0 where
  pub namespace : Bytes
  pub name : Bytes
  pub version : Bytes

pub record LockedPackage : Type 0 where
  pub ref : PackageRef
  pub full_name : Bytes
  pub download_url : Bytes
  pub file_size : ℤ
  pub sha256 : Bytes
  pub dependencies : List PackageRef

pub record PackageLock : Type 0 where
  pub schema_version : ℕ
  pub roots : List PackageRef
  pub packages : List LockedPackage
  pub digest : Bytes
  pub resolved_at : ℕ

pub record GenerationRecord : Type 0 where
  pub id : Bytes
  pub lock_digest : Bytes
  pub status : Bytes
  pub created_at : ℕ

pub record ProcessIdentity : Type 0 where
  pub pid : ℤ
  pub start_ticks : ℕ

pub record RuntimeState : Type 0 where
  pub phase : Bytes
  pub ready : Bool
  pub degraded : Bool
  pub reason : Bytes
  pub server : ProcessIdentity
  pub generation : Bytes
  pub steam_build : Bytes
  pub updated_at : ℕ

pub record JournalEntry : Type 0 where
  pub relative_path : Bytes
  pub quarantine_path : Bytes
  pub tombstone_path : Bytes
  pub existed : Bool
  pub original_sha256 : Bytes
  pub installed_sha256 : Bytes
  pub tombstone_sha256 : Bytes

pub record TransactionJournal : Type 0 where
  pub generation_id : Bytes
  pub phase : Bytes
  pub entries : List JournalEntry
  pub config : Option JournalEntry

pub record PromotionJournal : Type 0 where
  pub generation_id : Bytes
  pub lock : PackageLock

pub record State : Type 0 where
  pub schema_version : ℕ
  pub steam_build : Bytes
  pub active : Option GenerationRecord
  pub previous : Option GenerationRecord
  pub candidate : Option GenerationRecord
  pub failed : Option GenerationRecord
  pub transaction : Option TransactionJournal
  pub promotion : Option PromotionJournal
  pub pending_cleanup : List Bytes
  pub runtime : RuntimeState

-- The zero values of Go's `ProcessIdentity`, `RuntimeState` and `State{SchemaVersion: schemaVersion}`.
abbrev pub no_process : ProcessIdentity
no_process = record { pid = ℤ.pos 0; start_ticks = 0 }

abbrev pub no_runtime : RuntimeState
no_runtime = record {
  phase = [];
  ready = Bool.false;
  degraded = Bool.false;
  reason = [];
  server = no_process;
  generation = [];
  steam_build = [];
  updated_at = 0;
}

abbrev pub initial_state : State
initial_state = record {
  schema_version = schema_version;
  steam_build = [];
  active = none;
  previous = none;
  candidate = none;
  failed = none;
  transaction = none;
  promotion = none;
  pending_cleanup = [];
  runtime = no_runtime;
}

unfoldable pub int_beq : ℤ → ℤ → Bool
int_beq (ℤ.pos a) (ℤ.pos b) = a == b
int_beq (ℤ.negsuc a) (ℤ.negsuc b) = a == b
int_beq _ _ = Bool.false

pub int_beq_iff : (a b : ℤ) → (int_beq a b ≡ true) ↔ (a ≡ b)
unfolding int_beq
int_beq_iff (ℤ.pos a) (ℤ.pos b) = ground arith
int_beq_iff _ _ = ground arith

-- `pid <= 0`
unfoldable pub is_non_positive : ℤ → Bool
is_non_positive (ℤ.pos n) = n == 0
is_non_positive (ℤ.negsuc n) = true

abbrev pub ref_beq : PackageRef → PackageRef → Bool
ref_beq a b = a.namespace == b.namespace && (a.name == b.name && a.version == b.version)

pub ref_beq_iff : (a b : PackageRef) → (ref_beq a b ≡ true) ↔ (a ≡ b)
ref_beq_iff a b = ground (
  arith,
  bytes_beq_iff a.namespace b.namespace,
  bytes_beq_iff a.name b.name,
  bytes_beq_iff a.version b.version,
)

instance abbrev pub package_ref_eq : Comparable PackageRef
package_ref_eq = record {
  equal = ref_beq;
  sound = λ x y. (ref_beq_iff x y).0;
  reflexive = λ x. (ref_beq_iff x x).1 refl;
}

-- `ProcessIdentity.Matches`
unfoldable pub matches : ProcessIdentity → ProcessIdentity → Bool
unfolding int_beq
matches p other = int_beq p.pid other.pid && p.start_ticks == other.start_ticks

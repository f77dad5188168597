-- ===== src/Startup/Host.antt =====
-- run.go: the `Application` with its interfaces, each as a function of what happened before; health.go:
-- the process inspector's answers. The state document is the one thing of the store that the model
-- keeps; every call that changes something outside is logged with its answer. An error is its text.
use docker_vrising.Prelude.{
  ℕ, Bool, Option, none, some, List, [], ◌∷◌, ◌++◌, bytes_eq, Bytes, codes,
}
use Prim.Native.String.{String}
use docker_vrising.Prelude.Result.{Result, ok, err}
use docker_vrising.State.{
  ℤ, State, PackageLock, LockedPackage, PackageRef, GenerationRecord, ProcessIdentity,
}
use docker_vrising.Config.{Config}
use docker_vrising.Apply.{ManagedFile}
use docker_vrising.Steam.{SteamBuild, UpdateError}
use docker_vrising.Graph.Roots.{RootSelection}
use docker_vrising.Graph.Resolver.{ResolvedPackage, ResolvedGraph}

pub record ManagedManifest : Type 0 where
  pub schema_version : ℕ
  pub generation_id : Bytes
  pub lock_digest : Bytes
  pub files : List ManagedFile

pub record StagedGeneration : Type 0 where
  pub generation : GenerationRecord
  pub dir : Bytes
  pub manifest : ManagedManifest
  pub lock : PackageLock

-- The zero values of Go's `StagedGeneration` and `SteamBuild`.
abbrev pub no_lock : PackageLock
no_lock = record { schema_version = 0; roots = []; packages = []; digest = []; resolved_at = 0 }

abbrev pub no_staged : StagedGeneration
no_staged = record {
  generation = record { id = []; lock_digest = []; status = []; created_at = 0 };
  dir = [];
  manifest = record { schema_version = 0; generation_id = []; lock_digest = []; files = [] };
  lock = no_lock;
}

abbrev pub no_build : SteamBuild
no_build = record { build_id = []; depot_manifest = []; branch = [] }

-- `PromotionCommitOutcome`
pub data PromotionOutcome : Type 0 where
  not_committed committed recovery_required : PromotionOutcome

-- `RunResult`, with the error that the supervisor returns beside it.
pub record RunResult : Type 0 where
  pub exit_code : ℕ
  pub ready : Bool
  pub error : Option Bytes

-- `LaunchRequest`, less the configuration and the identity, which a run does not change.
pub record LaunchRequest : Type 0 where
  pub package_lock : PackageLock
  pub generation : Bytes
  pub steam_build : Bytes

pub record BackupRequest : Type 0 where
  pub installed_build : Bytes
  pub target_build : Bytes
  pub package_digest : Bytes

-- The error of `ProcInspector.Identity`: `fs.ErrNotExist`, or another one.
pub data ProcError : Type 0 where
  no_such_process : ProcError
  proc_failed : Bytes → ProcError

-- The error of `RecoverInterruptedTransaction`: a pending promotion, or another one.
pub data RecoverError : Type 0 where
  pending_generation : Bytes → RecoverError
  recover_failed : Bytes → RecoverError

-- A call that changes something outside, with its answer where one matters.
pub data Call : Type 0 where
  recovered promotion_recovered staged discarded : Call
  saved : State → Call
  backup_created backups_pruned : Bool → Call
  steam_updated : SteamBuild → Option UpdateError → Call
  applied rolled_back : Call
  server_started : LaunchRequest → Call
  promoted : PromotionOutcome → Call

-- What the calls of a run have done: the state document, and the calls, the last one first.
pub record Host : Type 0 where
  pub document : Option State
  pub calls : List Call

-- `runError`; of joined errors, the code of the first one counts.
pub record RunError : Type 0 where
  pub code : ℕ
  pub text : Bytes

abbrev pub Answer : Type 0 → Type 0
Answer A = Host → Result Bytes A

-- A call that may also change the state document.
abbrev pub Operation : Type 0 → Type 0
Operation A = Host → Result Bytes A × Option State

-- The dependencies that are not nil.
pub record Dependencies : Type 0 where
  pub store : Bool
  pub steam : Bool
  pub supervisor : Bool
  pub backups : Bool
  pub mods : Bool
  pub resolver : Bool
  pub archives : Bool
  pub proc : Bool

pub record Application : Type 0 where
  pub config : Config
  pub has : Dependencies
  pub now : Host → ℕ
  pub validate_mounts : Answer (Unit {0})
  pub open_lifetime_lock : Answer (Unit {0})
  pub close_lifetime_lock : Answer (Unit {0})
  pub prepare_runtime : Answer (Unit {0})
  pub recover_interrupted_transaction : Host → Result RecoverError (Unit {0}) × Option State
  pub load_failure : Host → Option Bytes
  pub save_failure : State → Host → Option Bytes
  pub load_package_lock : Answer PackageLock
  pub identity : ℤ → Host → Result ProcError ProcessIdentity
  pub installed_build : Answer SteamBuild
  pub validate_installed : SteamBuild → Answer SteamBuild
  pub remote_build : Answer SteamBuild
  pub update_steam : SteamBuild → Host → Result UpdateError SteamBuild
  pub update_message : UpdateError → Bytes
  pub create_backup : BackupRequest → Answer (Unit {0})
  pub prune_backups : ℤ → Answer (Unit {0})
  pub resolve : List RootSelection → Answer ResolvedGraph
  pub fetch : ResolvedPackage → LockedPackage → Answer LockedPackage
  pub close_archive : PackageRef → Answer (Unit {0})
  pub package_lock_digest : PackageLock → Bytes
  pub validate_active : GenerationRecord → PackageLock → Answer StagedGeneration
  pub verify_installed : ManagedManifest → Answer (Unit {0})
  pub stage : PackageLock → List (PackageRef × LockedPackage) → Operation StagedGeneration
  pub discard : StagedGeneration → Operation (Unit {0})
  pub apply : StagedGeneration → Operation (Unit {0})
  pub rollback : Operation (Unit {0})
  pub commit_promotion : StagedGeneration → Host → (PromotionOutcome × Option Bytes) × Option State
  pub recover_promotion : Host → (PromotionOutcome × Option Bytes) × Option State
  pub seed_server_settings : Answer (Unit {0})
  pub prune_server_logs : ℤ → ℕ → Answer (Unit {0})
  -- The supervisor: whether the server becomes ready, and what is left to say once `OnReady`, if it
  -- was called, has returned.
  pub reaches_ready : LaunchRequest → Host → Bool
  pub supervise : LaunchRequest → Option (Option Bytes) → Host → RunResult × Option State

abbrev pub Action : Type 0 → Type 0 → Type 0
Action E A = Host → Result E A × Host

abbrev pub branch :
    {E F A B : Type 0} → Result E A → (E → Action F B) → (A → Action F B) → Action F B
branch (err e) failed next h = failed e h
branch (ok a) failed next h = next a h

-- A call, and what follows in either case.
abbrev pub handle :
    {E F A B : Type 0} → Action E A → (E → Action F B) → (A → Action F B) → Action F B
handle m failed next h = let (r, h') = m h in branch r failed next h'

abbrev pub pure : {E A : Type 0} → A → Action E A
pure a h = (ok a, h)

abbrev pub fail : {E A : Type 0} → E → Action E A
fail e h = (err e, h)

infixl 5 ◌>>=◌ ◌>>◌
abbrev pub ◌>>=◌ : {E A B : Type 0} → Action E A → (A → Action E B) → Action E B
m >>= next = handle m fail next

abbrev pub ◌>>◌ : {E B : Type 0} → Action E (Unit {0}) → Action E B → Action E B
m >> next = m >>= λ done. next

abbrev pub ask : {E A : Type 0} → (Host → Result E A) → Action E A
ask question h = (question h, h)

abbrev pub perform :
    {E A : Type 0} → (Result E A → Call) → (Host → Result E A × Option State) → Action E A
perform log call h =
    let (r, document) = call h in (r, record { document = document; calls = log r ∷ h.calls })

-- `fmt.Errorf("…: %w", err)`
unfoldable pub wrap : String → Bytes → Bytes
wrap message text = codes message ++ (b':' ∷ 32 ∷ text)

unfoldable pub message : String → Bytes
message text = codes text

-- `errors.Join`
unfoldable pub join : Bytes → Bytes → Bytes
join first second = first ++ (10 ∷ second)

abbrev pub exit_failure : {A : Type 0} → ℕ → Bytes → Action RunError A
exit_failure code text = fail (record { code = code; text = text })

-- A call whose error ends the run with the code.
abbrev pub exiting : {A : Type 0} → ℕ → Action Bytes A → Action RunError A
exiting code m = handle m (exit_failure code) pure

abbrev pub wrapping : {A : Type 0} → String → Action Bytes A → Action Bytes A
wrapping text m = handle m (λ e. fail (wrap text e)) pure

abbrev pub exit_preflight : ℕ
exit_preflight = 10

abbrev pub exit_mod_update : ℕ
exit_mod_update = 20

abbrev pub exit_backup : ℕ
exit_backup = 21

abbrev pub exit_steam : ℕ
exit_steam = 22

abbrev pub exit_readiness : ℕ
exit_readiness = 30

abbrev pub exit_shutdown : ℕ
exit_shutdown = 31

abbrev load_with : Option Bytes → Action Bytes (Option State)
load_with none h = (ok h.document, h)
load_with (some e) h = (err e, h)

-- `Load` of the store: `none` where it returns `os.ErrNotExist`.
abbrev pub load_state : Application → Action Bytes (Option State)
load_state app h = load_with (app.load_failure h) h

abbrev save_with : Option Bytes → State → Action Bytes (Unit {0})
save_with none s h = (ok tt, record { document = some s; calls = saved s ∷ h.calls })
save_with (some e) s h = (err e, h)

-- `Save` of the store.
abbrev pub save_state : Application → State → Action Bytes (Unit {0})
save_state app s h = save_with (app.save_failure s h) s h

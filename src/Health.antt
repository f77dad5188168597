-- ===== src/Health.antt =====
-- health.go: the identity of a process from its `/proc/<pid>/stat`, and `CheckHealth`. What reading
-- that file returns is a parameter. White space is ASCII, as in all that the kernel writes there.
mod Stat
mod Identity
mod Healthy
mod Tests
use docker_vrising.Prelude.{
  ℕ, zero, suc, Bool, true, false, ◌&&◌, ◌||◌, not, Option, none, some, List, [], ◌∷◌, ◌++◌, ◌==◌,
  leb, ltb, ◌+◌, ◌*◌, ◌-◌, nat_eq, bytes_eq, Bytes, codes, length, get_elem?, if◌then◌else◌,
}
use docker_vrising.Prelude.Result.{Result, ok, err, ◌>>=◌, ◌>>◌, guard}
use docker_vrising.State.{ℤ, State, ProcessIdentity, is_non_positive, matches, schema_version}
use docker_vrising.Console.{trim_space, is_space}
use docker_vrising.Startup.Host.{ProcError, no_such_process, proc_failed}

-- The text after the last closing bracket, which ends the name of the command.
unfoldable pub after_command : Bytes → Option Bytes
after_command [] = none
after_command (c ∷ s) = elim (after_command s) [
  | some rest ↦ some rest
  | none ↦ if c == b')' then some s else none
]

abbrev pub end_word : Bytes → List Bytes → List Bytes
end_word word rest = if word == [] then rest else word ∷ rest

-- `strings.Fields`, where `word` is what has been read of a field.
unfoldable pub fields_from : Bytes → Bytes → List Bytes
fields_from word [] = end_word word []
fields_from word (c ∷ s) =
    let ended = fields_from [] s in
    let longer = fields_from (word ++ (c ∷ [])) s in
    if is_space c then end_word word ended else longer

abbrev pub digit_value : Bytes → ℕ → Option ℕ
digit_value [] n = some n
digit_value (c ∷ s) n =
    let rest = digit_value s (n * 10 + (c - b'0')) in
    if leb b'0' c && leb c b'9' then rest else none

abbrev pub in_range : Option ℕ → Option ℕ
in_range none = none
in_range (some n) = if ltb n 18446744073709551616 then some n else none

-- `strconv.ParseUint(s, 10, 64)`
abbrev pub parse_uint : Bytes → Option ℕ
parse_uint [] = none
parse_uint (c ∷ s) = in_range (digit_value (c ∷ s) 0)

-- `validateRunningProcessState`
unfoldable pub validate_running_process_state : Bytes → Result ProcError (Unit {0})
validate_running_process_state state = do
  guard (length state == 1) (proc_failed (codes "malformed process state"))
  guard (not (state == codes "Z" || (state == codes "X" || state == codes "x"))) no_such_process

abbrev malformed_stat : ProcError
malformed_stat = proc_failed (codes "malformed process stat")

abbrev pub require_field : Option Bytes → Result ProcError Bytes
require_field none = err malformed_stat
require_field (some field) = ok field

abbrev pub start_ticks_of : Option ℕ → Result ProcError ℕ
start_ticks_of none = err (proc_failed (codes "malformed process start ticks"))
start_ticks_of (some n) =
    if n == 0 then err (proc_failed (codes "malformed process start ticks")) else ok n

-- The fields after the command: the state is the first one, the start time the one at 19.
unfoldable pub identity_of_fields : ℤ → List Bytes → Result ProcError ProcessIdentity
identity_of_fields pid fields = do
  ticks_field ← require_field (get_elem? fields 19)
  state ← require_field (get_elem? fields 0)
  validate_running_process_state state
  ticks ← start_ticks_of (parse_uint ticks_field)
  ok (record { pid = pid; start_ticks = ticks })

abbrev pub identity_after : ℤ → Option Bytes → Result ProcError ProcessIdentity
identity_after pid none = err malformed_stat
identity_after pid (some rest) =
    if rest == [] then err malformed_stat else identity_of_fields pid (fields_from [] rest)

-- `procFSInspector.Identity`, given what reading the file of the process returns.
unfoldable pub identity : ℤ → Result ProcError Bytes → Result ProcError ProcessIdentity
unfolding identity_of_fields fields_from
identity pid read =
    if is_non_positive pid
    then err (proc_failed (codes "PID must be positive"))
    else read >>= λ content. identity_after pid (after_command (trim_space content))

pub data HealthError : Type 0 where
  invalid_state not_running not_ready incoherent no_inspector : HealthError
  process_gone identity_changed : HealthError
  inspection_failed : Bytes → HealthError

abbrev check_live :
    ProcessIdentity → Result ProcError ProcessIdentity → Result HealthError (Unit {0})
check_live recorded (err no_such_process) = err process_gone
check_live recorded (err (proc_failed e)) = err (inspection_failed e)
check_live recorded (ok live) = guard (matches recorded live) identity_changed

abbrev pub Inspector : Type 0
Inspector = ℤ → Result ProcError ProcessIdentity

abbrev inspect : ProcessIdentity → Option Inspector → Result HealthError (Unit {0})
inspect recorded none = err no_inspector
inspect recorded (some inspector) = check_live recorded (inspector recorded.pid)

-- `CheckHealth`
unfoldable pub check_health : State → Option Inspector → Result HealthError (Unit {0})
check_health s inspector =
    let runtime = s.runtime in
    if not (s.schema_version == schema_version)
    then err invalid_state
    else if not runtime.ready
    then if is_non_positive runtime.server.pid then err not_running else err not_ready
    else if not (runtime.phase == codes "ready")
        || (is_non_positive runtime.server.pid || runtime.server.start_ticks == 0)
    then err incoherent
    else inspect runtime.server inspector

-- ===== src/Health/Identity.antt =====
-- What `procFSInspector.Identity` makes of the text of a process.
use docker_vrising.Prelude.{
  ℕ, ◌<◌, Bool, true, false, ◌||◌, ◌≡◌, refl, sym, ap, ◌∙◌, arith, some, List, [], ◌∷◌, ◌++◌, ◌==◌,
  length, get_elem?, nat_eq, bytes_eq, bytes_beq, Bytes, codes, All, if◌then◌else◌,
}
use docker_vrising.Prelude.Result.{Result, ok, err}
use docker_vrising.State.{pos, ProcessIdentity, is_non_positive}
use docker_vrising.Console.{trim_space}
use docker_vrising.Startup.Host.{ProcError, no_such_process, proc_failed}
use docker_vrising.Health.{
  identity, identity_after, identity_of_fields, validate_running_process_state, after_command,
}
use docker_vrising.Health.Stat.{
  Process, IsWord, is_plain, number, number-IsWord, fields_of, spaced, stat_line, trim_space-line,
  after_command-append, after_command-spaced, fields_from-spaced, parse_uint-number, number-cons,
}

-- A process as the kernel shows it: its number and its start time are positive, the start time has 64
-- bits, and the fields are words.
pub record IsProcess (p : Process) : Type 0 where
  pub pid : 0 < p.pid
  pub status : is_plain p.status ≡ true
  pub middle : length p.middle ≡ 18
  pub words : All IsWord p.middle
  pub started : 0 < p.start_ticks
  pub bound : p.start_ticks < 18446744073709551616
  pub trailing : All IsWord p.trailing

-- A zombie, or dead.
abbrev pub is_dead : ℕ → Bool
is_dead status = status == b'Z' || (status == b'X' || status == b'x')

abbrev pub identity_of : Process → ProcessIdentity
identity_of p = record { pid = pos p.pid; start_ticks = p.start_ticks }

abbrev pub shown_identity : Process → Result ProcError ProcessIdentity
shown_identity p = if is_dead p.status then err no_such_process else ok (identity_of p)

All-append : (P : Bytes → Type 0) (xs ys : List Bytes) → All P xs → All P ys → All P (xs ++ ys)
All-append P [] ys h k = k
All-append P (x ∷ xs) ys h k = (h.0, All-append P xs ys h.1 k)

get_elem?-append :
    (xs ys : List Bytes) (y : Bytes) → get_elem? (xs ++ (y ∷ ys)) (length xs) ≡ some y
get_elem?-append [] ys y = refl
get_elem?-append (x ∷ xs) ys y = get_elem?-append xs ys y

module _ (p : Process) (is_process : IsProcess p) where
  fields-AreWords : All IsWord (fields_of p)
  unfolding bytes_beq
  fields-AreWords = (
    (refl, ground (arith, is_process.status)),
    All-append IsWord p.middle (number p.start_ticks ∷ p.trailing) is_process.words
        (number-IsWord p.start_ticks, is_process.trailing),
  )

  start_field : get_elem? (fields_of p) 19 ≡ some (number p.start_ticks)
  start_field =
      ap (get_elem? (p.middle ++ (number p.start_ticks ∷ p.trailing))) (sym is_process.middle)
      ∙ get_elem?-append p.middle p.trailing (number p.start_ticks)

  trimmed :
      trim_space (stat_line p)
      ≡ (number p.pid ++ (codes " (" ++ p.command)) ++ (b')' ∷ spaced (fields_of p))
  trimmed =
      let (d, ds, e, first) = number-cons p.pid in
      let tail : Bytes = codes " (" ++ p.command in
      ap (λ q. trim_space ((q ++ tail) ++ (b')' ∷ (spaced (fields_of p) ++ (10 ∷ []))))) e
      ∙ trim_space-line d (ds ++ tail) (p.status ∷ [])
          (p.middle ++ (number p.start_ticks ∷ p.trailing)) first fields-AreWords
      ∙ sym (ap (λ q. (q ++ tail) ++ (b')' ∷ spaced (fields_of p))) e)

  identity-fields : identity_of_fields (pos p.pid) (fields_of p) ≡ shown_identity p
  unfolding identity_of_fields validate_running_process_state bytes_beq
  identity-fields =
      ground
        (arith, start_field, parse_uint-number p.start_ticks is_process.bound, is_process.started)

  -- The identity that is read from the text of a process is its number and its start time, and a
  -- zombie or a dead process is one that is not there, whatever the name of the command holds.
  pub identity-stat_line : identity (pos p.pid) (ok (stat_line p)) ≡ shown_identity p
  unfolding identity is_non_positive bytes_beq
  identity-stat_line =
      let rest = spaced (fields_of p) in
      let positive : (p.pid == 0) ≡ false = ground (arith, is_process.pid) in
      ap
        (λ b.
          if b
          then err (proc_failed (codes "PID must be positive"))
          else identity_after (pos p.pid) (after_command (trim_space (stat_line p))))
        positive
      ∙ ap (λ t. identity_after (pos p.pid) (after_command t)) trimmed
      ∙ ap (identity_after (pos p.pid)) (
          after_command-append (number p.pid ++ (codes " (" ++ p.command)) rest
            (after_command-spaced (fields_of p) fields-AreWords))
      ∙ ap (identity_of_fields (pos p.pid)) (fields_from-spaced (fields_of p) [] fields-AreWords)
      ∙ identity-fields

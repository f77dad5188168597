-- ===== src/Health/Tests.antt =====
-- Runs of the health check.
use docker_vrising.Prelude.{
  ◌≡◌, ◌↔◌, refl, Bool, not, ◌&&◌, List, All, true, some, none, codes, bytes_beq, bytes_eq, nat_eq,
  Bytes, [], ◌∷◌, ◌==◌, all, arith, subst, if◌then◌else◌,
}
use docker_vrising.Prelude.Result.{ok, err}
use docker_vrising.State.{
  matches, is_non_positive, pos, State, ProcessIdentity, initial_state, no_runtime,
}
use docker_vrising.Startup.Host.{no_such_process}
use docker_vrising.Health.{
  validate_running_process_state, after_command, identity_changed, fields_from, identity_of_fields,
  check_health, identity,
}
use docker_vrising.Journal.{decimal}
use docker_vrising.Health.Stat.{Process, IsWord, is_plain}
use docker_vrising.Health.Identity.{IsProcess}
use docker_vrising.Health.Healthy.{
  Processes, AreProcesses, inspector_of, IsHealthy, check_health-IsHealthy,
}

abbrev server : ProcessIdentity
server = record { pid = pos 7; start_ticks = 9 }

abbrev serving : State
serving = record initial_state {
  runtime = record no_runtime { phase = codes "ready"; ready = true; server = server };
}

-- Its command has a bracket, and the letter of a zombie after it.
abbrev game : Process
game = record {
  pid = 7;
  command = codes "a) Z b";
  status = b'S';
  middle =
      codes "1"
      ∷ codes "2"
      ∷ codes "3"
      ∷ codes "4"
      ∷ codes "5"
      ∷ codes "6"
      ∷ codes "7"
      ∷ codes "8"
      ∷ codes "9"
      ∷ codes "10"
      ∷ codes "11"
      ∷ codes "12"
      ∷ codes "13"
      ∷ codes "14"
      ∷ codes "15"
      ∷ codes "16"
      ∷ codes "17"
      ∷ codes "-18"
      ∷ [];
  start_ticks = 9;
  trailing = codes "0" ∷ [];
}

abbrev is_word : Bytes → Bool
is_word w = not (w == []) && all is_plain w

words-AreWords : (ws : List Bytes) → all is_word ws ≡ true → All IsWord ws
words-AreWords [] h = tt
words-AreWords (w ∷ ws) h =
    ((ground (arith, h), ground (arith, h)), words-AreWords ws (ground (arith, h)))

game-IsProcess : IsProcess game
unfolding bytes_beq
game-IsProcess = record {
  pid = omega arith;
  status = refl;
  middle = refl;
  words = words-AreWords game.middle refl;
  started = omega arith;
  bound = omega arith;
  trailing = words-AreWords game.trailing refl;
}

abbrev one_process : Processes
one_process n = if n == 7 then some game else none

one_process-AreProcesses : AreProcesses one_process
one_process-AreProcesses n p h = (ground arith, subst IsProcess (ground arith) game-IsProcess)

check_health-IsHealthy_example :
    (check_health serving (some (inspector_of one_process)) ≡ ok tt) ↔ IsHealthy serving one_process
check_health-IsHealthy_example = check_health-IsHealthy one_process one_process-AreProcesses serving

serving_is_healthy : check_health serving (some (inspector_of one_process)) ≡ ok tt
serving_is_healthy = check_health-IsHealthy_example.1 (record {
  schema = refl;
  ready = refl;
  phase = refl;
  process = game;
  there = refl;
  alive = refl;
  recorded = refl;
})

-- The same number, started at another time.
abbrev restarted : State
restarted = record serving {
  runtime = record serving.runtime { server = record server { start_ticks = 8 } };
}

restarted_is_unhealthy :
    check_health restarted (some (inspector_of one_process)) ≡ err identity_changed
unfolding check_health identity identity_of_fields fields_from is_non_positive after_command
    bytes_beq validate_running_process_state matches decimal
restarted_is_unhealthy = refl

-- The name of the command has a bracket and a space.
identity_lem :
    identity (pos 7) (ok (codes "7 (a) Z b) S 1 2 3 4 5 6 7 8 9 10 11 12 13 14 15 16 17 18 9 0"))
    ≡ ok server
unfolding identity is_non_positive after_command bytes_beq validate_running_process_state
identity_lem = refl

identity_of_zombie :
    identity (pos 7) (ok (codes "7 (a) Z 1 2 3 4 5 6 7 8 9 10 11 12 13 14 15 16 17 18 9 0"))
    ≡ err no_such_process
unfolding identity is_non_positive after_command bytes_beq validate_running_process_state
identity_of_zombie = refl

-- ===== src/Readiness/Tests.antt =====
-- Rounds of a server without mods, and a log read in two chunks.
use docker_vrising.Prelude.{
  ◌++◌, arith, ℕ, ◌≡◌, refl, Bool, true, false, List, [], ◌∷◌, Bytes, codes, Option, some, none,
}
use docker_vrising.Readiness.{
  shows_startup, observe, complete, ExpectedReadiness, fatal_readiness_line, shows_vcf,
}
use docker_vrising.Prelude.Result.{ok}
use docker_vrising.Readiness.Lines.{complete_lines}
use docker_vrising.Readiness.Lines.Chunks.{complete_chunks, complete_lines-append}
use docker_vrising.Readiness.Round.{write_lines, LogBatch}
use docker_vrising.Readiness.Wait.{watch_rounds, is_ready}
use docker_vrising.Readiness.Wait.Ready.{declares, Declared, watch_rounds-Declared}

abbrev no_mods : ExpectedReadiness
no_mods = record { kindred_version = []; satisvampory_version = []; require_mods = false }

abbrev batch : ℕ → List Bytes → LogBatch
batch round lines = record {
  round = round;
  source = codes "server";
  lines = lines;
  more = false;
  pending = false;
  reset = false;
  activity = false;
  error = none;
}

abbrev starting : ℕ → Option (List LogBatch)
starting round = some (batch round (codes "x [Server] Startup Completed" ∷ []) ∷ [])

abbrev never_fails : List Bytes → Bytes → Bool
never_fails written text = false

abbrev never : ℕ → Bool
never round = false

fatal_line : fatal_readiness_line (codes "[Fatal] BepInEx is gone") ≡ true
unfolding fatal_readiness_line
fatal_line = refl

vcf_line : shows_vcf (codes "VampireCommandFramework: VCF Loaded: 0.10") ≡ true
unfolding shows_vcf
vcf_line = refl

two_rounds : watch_rounds no_mods never_fails starting never false 2 ≡ is_ready
unfolding watch_rounds write_lines fatal_readiness_line complete observe shows_startup
two_rounds = refl

two_rounds-declares : declares (watch_rounds no_mods never_fails starting never false 2) ≡ true
unfolding watch_rounds write_lines fatal_readiness_line complete observe shows_startup
two_rounds-declares = refl

watch_rounds-Declared_example : Declared no_mods never_fails starting 2
watch_rounds-Declared_example =
    watch_rounds-Declared no_mods never_fails starting never false 2 two_rounds-declares

half_lines : complete_lines (codes "a") (codes "b\r\nc") ≡ ok (codes "ab" ∷ [], codes "c")
unfolding complete_lines
half_lines = refl

complete_lines-append_example :
    complete_lines [] (codes "ab\r" ++ codes "\nc")
    ≡ complete_chunks [] (codes "ab\r") (codes "\nc")
complete_lines-append_example = complete_lines-append (codes "ab\r") (codes "\nc") [] (omega arith)

-- ===== src/Readiness/Lines.antt =====
-- logs.go: `completeLines`, which cuts what was read from a log into lines. A follower calls it with
-- each chunk that it reads and keeps the remainder, the start of a line, between the calls.
pub mod Chunks
use docker_vrising.Prelude.{
  ℕ, zero, suc, ◌+◌, Bool, true, false, List, [], ◌∷◌, ◌++◌, ◌==◌, nat_eq, ltb, length, Bytes,
  Option, none, some, if◌then◌else◌,
}
use docker_vrising.Steam.Console.{trim_return}
use docker_vrising.Prelude.Result.{Result, ok, err, ◌>>=◌, ◌>>◌, guard}

pub data LineError : Type 0 where
  line_too_long out_of_fuel : LineError

-- `maxReadinessInputBytes`
abbrev pub max_readiness_input_bytes : ℕ
max_readiness_input_bytes = 1048576

-- The content before and after the first newline, by `bytes.IndexByte`.
unfoldable pub cut_newline : Bytes → Option (Bytes × Bytes)
cut_newline [] = none
cut_newline (c ∷ content) =
    let later = cut_newline content in
    if c == 10
    then some ([], content)
    else elim later [ none ↦ none | some (before, after) ↦ some (c ∷ before, after) ]

-- The lines of a call, and the remainder that it leaves.
abbrev pub Lines : Type 0
Lines = List Bytes × Bytes

abbrev pub add_line : Bytes → Lines → Lines
add_line line (lines, remainder) = (line ∷ lines, remainder)

module _ (limit : ℕ) where
  abbrev pub keep_rest : Bytes → Bytes → Result LineError Lines
  keep_rest remainder content =
      if ltb limit (length remainder + length content)
      then err line_too_long
      else ok ([], remainder ++ content)

  abbrev pub end_line :
      (Bytes → Bytes → Result LineError Lines) → Bytes → Bytes → Bytes → Result LineError Lines
  end_line more remainder before after =
      if ltb limit (length remainder + length before)
      then err line_too_long
      else more [] after >>= (λ rest. ok (add_line (trim_return (remainder ++ before)) rest))

  abbrev pub one_round :
      (Bytes → Bytes → Result LineError Lines)
      → Bytes
      → Bytes
      → Option (Bytes × Bytes)
      → Result LineError Lines
  one_round more remainder content none = keep_rest remainder content
  one_round more remainder content (some (before, after)) = end_line more remainder before after

  -- The loop; each round takes a newline at least.
  unfoldable pub lines_from : ℕ → Bytes → Bytes → Result LineError Lines
  unfolding cut_newline
  lines_from fuel remainder [] = ok ([], remainder)
  lines_from zero remainder (c ∷ content) = err out_of_fuel
  lines_from (suc fuel) remainder (c ∷ content) =
      one_round (lines_from fuel) remainder (c ∷ content) (cut_newline (c ∷ content))

-- `completeLines`
unfoldable pub complete_lines : Bytes → Bytes → Result LineError Lines
unfolding lines_from
complete_lines remainder content =
    lines_from max_readiness_input_bytes (length content) remainder content

-- ===== src/Console/Lines.antt =====
-- The lines of a configuration file, put together again.
use docker_vrising.Prelude.{◌≡◌, refl, List, [], ◌∷◌, Bytes, ℕ, arith, bytes_beq_iff}
use docker_vrising.Console.{ConfigLine, split_config_lines, join_config_lines, push_byte}

join-push_byte :
    (c : ℕ) (lines : List ConfigLine)
    → join_config_lines (push_byte c lines) ≡ c ∷ join_config_lines lines
unfolding join_config_lines
join-push_byte c [] = refl
join-push_byte c (l ∷ lines) =
    ground (arith, bytes_beq_iff l.body [], bytes_beq_iff l.eol (10 ∷ []))

-- No byte of a configuration file is lost or changed when it is split into lines.
pub join-split_config_lines : (text : Bytes) → join_config_lines (split_config_lines text) ≡ text
unfolding split_config_lines join_config_lines
join-split_config_lines [] = refl
join-split_config_lines (c ∷ cs) =
    ground (arith, join-split_config_lines cs, join-push_byte c (split_config_lines cs))

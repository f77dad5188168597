-- ===== src/Console/Tests.antt =====
-- Configuration files that are edited.
use docker_vrising.Prelude.{bytes_beq, ◌≡◌, refl, codes, ◌∷◌, [], ◌++◌, Bytes}
use docker_vrising.Console.{
  disable_console_logging, split_config_lines, join_config_lines, replace_config_value,
}
use docker_vrising.Console.Lines.{join-split_config_lines}

abbrev enabled : Bytes
enabled =
    codes "[Logging.Console]"
    ++ (10 ∷ (codes "Enabled = true # shown" ++ (13 ∷ 10 ∷ codes "[Other]")))

join-split_config_lines_example : join_config_lines (split_config_lines enabled) ≡ enabled
join-split_config_lines_example = join-split_config_lines enabled

enabled_is_disabled :
    disable_console_logging enabled
    ≡ codes "[Logging.Console]"
      ++ (10 ∷ (codes "Enabled = false # shown" ++ (13 ∷ 10 ∷ codes "[Other]")))
unfolding disable_console_logging bytes_beq replace_config_value
enabled_is_disabled = refl

section_is_added :
    disable_console_logging (codes "[Other]" ++ (10 ∷ []))
    ≡ codes "[Other]"
      ++ (10 ∷ (10 ∷ (codes "[Logging.Console]" ++ (10 ∷ (codes "Enabled = false" ++ (10 ∷ []))))))
unfolding disable_console_logging bytes_beq
section_is_added = refl

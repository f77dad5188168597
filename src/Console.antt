-- ===== src/Console.antt =====
-- mods.go: `disableConsoleLogging`, the edit of BepInEx.cfg, and its helpers. White space is that of
-- ASCII, and section and key names are folded as ASCII letters.
pub mod Lines
mod Tests
use docker_vrising.Prelude.{
  ℕ, Bool, true, false, ◌&&◌, ◌||◌, not, Option, none, some, List, [], ◌∷◌, ◌++◌, ◌==◌, leb, nat_eq,
  bytes_eq, Bytes, codes, if◌then◌else◌,
}
use docker_vrising.Vdf.{equal_fold}

pub record ConfigLine : Type 0 where
  pub body : Bytes
  pub eol : Bytes

abbrev push_byte : ℕ → List ConfigLine → List ConfigLine
push_byte c [] = record { body = c ∷ []; eol = [] } ∷ []
push_byte c (l ∷ lines) =
    if c == 13 && (l.body == [] && l.eol == 10 ∷ [])
    then record { body = []; eol = 13 ∷ 10 ∷ [] } ∷ lines
    else record { body = c ∷ l.body; eol = l.eol } ∷ lines

unfoldable pub split_config_lines : Bytes → List ConfigLine
split_config_lines [] = []
split_config_lines (c ∷ cs) =
    let rest = split_config_lines cs in
    if c == 10 then record { body = []; eol = 10 ∷ [] } ∷ rest else push_byte c rest

unfoldable pub join_config_lines : List ConfigLine → Bytes
join_config_lines [] = []
join_config_lines (l ∷ lines) = l.body ++ (l.eol ++ join_config_lines lines)

unfoldable pub preferred_config_eol : List ConfigLine → Bytes
preferred_config_eol [] = 10 ∷ []
preferred_config_eol (l ∷ lines) =
    let rest = preferred_config_eol lines in if l.eol == [] then rest else l.eol

abbrev pub trim_left : (ℕ → Bool) → Bytes → Bytes
trim_left is_blank [] = []
trim_left is_blank (c ∷ cs) =
    let rest = trim_left is_blank cs in if is_blank c then rest else c ∷ cs

abbrev pub reverse_onto : Bytes → Bytes → Bytes
reverse_onto [] s = s
reverse_onto (c ∷ cs) s = reverse_onto cs (c ∷ s)

abbrev pub trim_right : (ℕ → Bool) → Bytes → Bytes
trim_right is_blank s = reverse_onto (trim_left is_blank (reverse_onto s [])) []

abbrev pub is_space : ℕ → Bool
is_space c = c == 32 || (leb 9 c && leb c 13)

abbrev is_blank : ℕ → Bool
is_blank c = c == 32 || c == 9

-- `strings.TrimSpace`
abbrev pub trim_space : Bytes → Bytes
trim_space s = trim_right is_space (trim_left is_space s)

-- What stands before and from the first byte of a kind on.
record Parts : Type 0 where
  before : Bytes
  after : Bytes

abbrev push_before : ℕ → Parts → Parts
push_before c p = record { before = c ∷ p.before; after = p.after }

abbrev break_at : (ℕ → Bool) → Bytes → Parts
break_at is_stop [] = record { before = []; after = [] }
break_at is_stop (c ∷ cs) =
    let rest = break_at is_stop cs in
    if is_stop c then record { before = []; after = c ∷ cs } else push_before c rest

-- The blanks at the end of a value.
abbrev trailing : Bytes → Bytes
trailing s = (break_at (λ c. not (is_blank c)) (reverse_onto s [])).before

-- `replaceConfigValue(line, equals, "false")`, where `after` is what follows the `=`.
abbrev replaced_value : Bytes → Bytes
replaced_value after =
    let blanks = break_at (λ c. not (is_blank c)) after in
    let value = break_at (λ c. c == b'#' || c == b';') blanks.after in
    blanks.before ++ (codes "false" ++ (reverse_onto (trailing value.before) [] ++ value.after))

unfoldable pub replace_config_value : Bytes → Bytes → Bytes
replace_config_value key after = key ++ (b'=' ∷ replaced_value after)

abbrev starts_with : ℕ → Bytes → Bool
starts_with c [] = false
starts_with c (d ∷ ds) = c == d

abbrev is_header : Bytes → Bool
is_header trimmed = starts_with b'[' trimmed && starts_with b']' (reverse_onto trimmed [])

abbrev tail_of : Bytes → Bytes
tail_of [] = []
tail_of (c ∷ cs) = cs

-- `trimmed[1:len(trimmed)-1]`
abbrev inner : Bytes → Bytes
inner trimmed = reverse_onto (tail_of (reverse_onto (tail_of trimmed) [])) []

abbrev is_console_header : Bytes → Bool
is_console_header trimmed = equal_fold (trim_space (inner trimmed)) (codes "Logging.Console")

abbrev enabled_line : Bytes → ConfigLine
enabled_line eol = record { body = codes "Enabled = false"; eol = eol }

-- How the loop over the lines ends: it has edited a line or inserted one, or it has seen them all,
-- in the console's section or not.
data Scan : Type 0 where
  edited : List ConfigLine → Scan
  ended : Bool → Scan

abbrev keep : ConfigLine → Scan → Scan
keep l (edited lines) = edited (l ∷ lines)
keep l (ended in_console) = ended in_console

abbrev edit_value : ConfigLine → List ConfigLine → Scan → Bytes → Bytes → Scan
edit_value l lines later key [] = keep l later
edit_value l lines later key (c ∷ after) =
    if equal_fold (trim_space key) (codes "Enabled")
    then edited (record l { body = replace_config_value key after } ∷ lines)
    else keep l later

abbrev edit_at : ConfigLine → List ConfigLine → Scan → Parts → Scan
edit_at l lines later parts = edit_value l lines later parts.before parts.after

scan : Bytes → Bool → List ConfigLine → Scan
scan eol in_console [] = ended in_console
scan eol in_console (l ∷ lines) =
    let trimmed = trim_space l.body in
    let later =
      scan eol (if is_header trimmed then is_console_header trimmed else in_console) lines in
    if is_header trimmed
    then if in_console then edited (enabled_line eol ∷ l ∷ lines) else keep l later
    else if not in_console || (starts_with b'#' trimmed || starts_with b';' trimmed)
    then keep l later
    else edit_at l lines later (break_at (λ c. c == b'=') l.body)

-- The last line gets an end.
abbrev with_last_eol : Bytes → List ConfigLine → List ConfigLine
with_last_eol eol [] = []
with_last_eol eol (l ∷ []) = (if l.eol == [] then record l { eol = eol } else l) ∷ []
with_last_eol eol (l ∷ m ∷ lines) = l ∷ with_last_eol eol (m ∷ lines)

abbrev separator : Bytes → List ConfigLine → List ConfigLine
separator eol [] = []
separator eol (l ∷ []) = if l.body == [] then [] else record { body = []; eol = eol } ∷ []
separator eol (l ∷ m ∷ lines) = separator eol (m ∷ lines)

abbrev finish : Bytes → List ConfigLine → Scan → List ConfigLine
finish eol lines (edited new) = new
finish eol lines (ended true) = with_last_eol eol lines ++ (enabled_line eol ∷ [])
finish eol lines (ended false) =
    with_last_eol eol lines
    ++ (separator eol lines
        ++ (record { body = codes "[Logging.Console]"; eol = eol } ∷ enabled_line eol ∷ []))

-- The section that is found has a header, and a loop that ends outside of it has met no such header.
pub disable_console_logging : Bytes → Bytes
unfolding split_config_lines join_config_lines preferred_config_eol scan
disable_console_logging input =
    let lines = split_config_lines input in
    let eol = preferred_config_eol lines in
    join_config_lines (finish eol lines (scan eol false lines))

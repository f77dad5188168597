-- ===== src/Steam/Console.antt =====
-- steam.go: the lines that SteamCMD prints around its metadata. What the regular expression
-- `steamBootstrapDownloadProgress` accepts is a parameter.
use docker_vrising.Prelude.{
  ℕ, zero, suc, Bool, true, false, ◌&&◌, ◌||◌, not, Option, none, some, List, [], ◌∷◌, ◌++◌, any,
  all, ◌==◌, ltb, leb, ◌+◌, nat_eq, bytes_eq, Bytes, codes, length, if◌then◌else◌,
}
use docker_vrising.Path.{split}

abbrev trim_left : Bytes → Bytes
trim_left [] = []
trim_left (c ∷ cs) = let rest = trim_left cs in if c == 32 || c == 9 then rest else c ∷ cs

abbrev reverse_onto : Bytes → Bytes → Bytes
reverse_onto [] s = s
reverse_onto (c ∷ cs) s = reverse_onto cs (c ∷ s)

-- `strings.Trim(line, " \t")`
abbrev trim : Bytes → Bytes
trim s = reverse_onto (trim_left (reverse_onto (trim_left s) [])) []

-- `strings.TrimSuffix(line, "\r")`
abbrev pub trim_return : Bytes → Bytes
trim_return [] = []
trim_return (c ∷ []) = if c == 13 then [] else c ∷ []
trim_return (c ∷ d ∷ cs) = c ∷ trim_return (d ∷ cs)

-- `remoteVDFRootLine`: the offset of the last line that is the root's name, and their number.
pub record RootLine : Type 0 where
  pub start : ℕ
  pub count : ℕ

root_line : Bytes → List Bytes → ℕ → RootLine → RootLine
root_line want [] offset found = found
root_line want (line ∷ lines) offset found =
    let here = trim (trim_return line) == want in
    root_line want lines (offset + (length line + 1))
      (if here then record { start = offset; count = found.count + 1 } else found)

pub remote_vdf_root_line : Bytes → Bytes → RootLine
unfolding root_line
remote_vdf_root_line output root_name =
    root_line (b'"' ∷ (root_name ++ (b'"' ∷ []))) (split 10 output) 0
      (record { start = 0; count = 0 })

abbrev cut_prefix : Bytes → Bytes → Option Bytes
cut_prefix [] s = some s
cut_prefix (c ∷ prefix) [] = none
cut_prefix (c ∷ prefix) (d ∷ s) = let rest = cut_prefix prefix s in if c == d then rest else none

-- `strings.Cut`
abbrev push_left : ℕ → Option (Bytes × Bytes) → Option (Bytes × Bytes)
push_left c none = none
push_left c (some parts) = some (c ∷ parts.0, parts.1)

abbrev cut_here : Option Bytes → Option (Bytes × Bytes) → Option (Bytes × Bytes)
cut_here none later = later
cut_here (some rest) later = some ([], rest)

abbrev cut : Bytes → Bytes → Option (Bytes × Bytes)
cut separator [] = cut_here (cut_prefix separator []) none
cut separator (c ∷ cs) =
    let later = push_left c (cut separator cs) in cut_here (cut_prefix separator (c ∷ cs)) later

abbrev is_digit : ℕ → Bool
is_digit c = leb b'0' c && leb c b'9'

-- `asciiDigits`
unfoldable pub ascii_digits : Bytes → Bool
ascii_digits s = not (s == []) && all is_digit s

abbrev is_safe_character : ℕ → Bool
is_safe_character c =
    not (ltb c 32) && (not (c == 127) && not (c == b'"' || (c == b'{' || c == b'}')))

unfoldable pub safe_console_text : Bytes → Bool
safe_console_text s = not (s == []) && all is_safe_character s

-- The value of a prefix in quotes.
abbrev last_is : ℕ → Bytes → Bool
last_is q [] = false
last_is q (c ∷ []) = c == q
last_is q (c ∷ d ∷ cs) = last_is q (d ∷ cs)

abbrev but_last : Bytes → Bytes
but_last [] = []
but_last (c ∷ []) = []
but_last (c ∷ d ∷ cs) = c ∷ but_last (d ∷ cs)

abbrev is_quoted : Option Bytes → Bool
is_quoted none = false
is_quoted (some []) = false
is_quoted (some (c ∷ cs)) =
    c == 39
    && (last_is 39 cs
        && (not (length cs == 1)
            && (safe_console_text (but_last cs) && not (any (λ d. d == 39) (but_last cs)))))

-- `quotedConsolePath`
pub quoted_console_path : Bytes → Bytes → Bool
quoted_console_path line prefix = is_quoted (cut_prefix prefix line)

abbrev is_version : Option Bytes → Bool
is_version none = false
is_version (some version) = ascii_digits version

abbrev is_change : Option (Bytes × Bytes) → Bytes → Bool
is_change none changed_at = false
is_change (some numbers) changed_at =
    ascii_digits numbers.0 && (ascii_digits numbers.1 && safe_console_text changed_at)

abbrev is_change_and_time : Option (Bytes × Bytes) → Bool
is_change_and_time none = false
is_change_and_time (some parts) = is_change (cut (codes "/") parts.0) parts.1

abbrev is_app_info : Option Bytes → Bool
is_app_info none = false
is_app_info (some change_and_time) =
    is_change_and_time (cut (codes ", last change : ") change_and_time)

abbrev prefix_lines : List Bytes
prefix_lines =
    (codes "ILocalize::AddFile() failed to load file "
      ++ (b'"' ∷ (codes "public/steambootstrapper_english.txt" ++ (b'"' ∷ codes "."))))
    ∷ codes "[  0%] Checking for available update..."
    ∷ codes "[  0%] Checking for available updates..."
    ∷ codes "[  0%] Downloading update..."
    ∷ codes "[100%] Download Complete."
    ∷ codes "[----] Applying update..."
    ∷ codes "[----] Download complete."
    ∷ codes "[----] Extracting package..."
    ∷ codes "[----] Installing update..."
    ∷ codes "[----] Cleaning up..."
    ∷ codes "[----] Update complete, launching..."
    ∷ codes "[----] Update complete, launching Steamcmd..."
    ∷ codes "[----] Verifying installation..."
    ∷ codes "UpdateUI: skip show logo"
    ∷ codes "-- type 'quit' to exit --"
    ∷ codes "Loading Steam API...OK"
    ∷ (b'"'
        ∷ (codes "@sSteamCmdForcePlatformType"
            ++ (b'"' ∷ (codes " = " ++ (b'"' ∷ (codes "windows" ++ (b'"' ∷ [])))))))
    ∷ codes "Connecting anonymously to Steam Public...OK"
    ∷ codes "Waiting for client config...OK"
    ∷ codes "Waiting for user info...OK"
    ∷ []

module _ (is_download_progress : Bytes → Bool) where
  pub is_steam_prefix_line : Bytes → Bool
  unfolding quoted_console_path ascii_digits safe_console_text
  is_steam_prefix_line line =
      any (λ known. known == line) prefix_lines
      || (is_download_progress line
          || (quoted_console_path line (codes "Redirecting stderr to ")
              || (quoted_console_path line (codes "Logging directory: ")
                  || (is_version (
                        cut_prefix (codes "Steam Console Client (c) Valve Corporation - version ")
                          line)
                      || is_app_info
                          (cut_prefix (codes "AppID : 1829350, change number : ") line)))))

pub is_steam_suffix_line : Bytes → Bool
is_steam_suffix_line line = line == codes "Steam>" || line == codes "Unloading Steam API...OK"

-- `strings.ReplaceAll(line, "\x1b[0m", "")`
-- The number says how many bytes of a sequence that was found are left.
abbrev is_found : Option Bytes → Bool
is_found none = false
is_found (some rest) = true

abbrev starts_reset : Bytes → Bool
starts_reset line = is_found (cut_prefix (27 ∷ codes "[0m") line)

abbrev without_resets : ℕ → Bytes → Bytes
without_resets n [] = []
without_resets (suc n) (c ∷ line) = without_resets n line
without_resets zero (c ∷ line) =
    let starts = starts_reset (c ∷ line) in
    let rest = without_resets (if starts then 3 else 0) line in if starts then rest else c ∷ rest

module _ (is_download_progress : Bytes → Bool) (before_root : Bool) where
  abbrev is_wrapper_line : Bytes → Bool
  is_wrapper_line line =
      not (any (λ c. c == 27) line)
      && (trim line == []
          || (if before_root
              then is_steam_prefix_line is_download_progress line
              else is_steam_suffix_line line))

  -- `validateSteamWrapper`
  pub validate_steam_wrapper : Bytes → Bool
  unfolding is_steam_prefix_line is_steam_suffix_line
  validate_steam_wrapper output =
      all (λ line. is_wrapper_line (without_resets 0 (trim_return line))) (split 10 output)

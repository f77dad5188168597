-- ===== src/Vdf/Strings.antt =====
-- A quoted string and what `readString` makes of it.
use docker_vrising.Prelude.{
  ◌≡◌, refl, Bool, true, false, ◌||◌, not, ℕ, [], ◌∷◌, all, Bytes, arith, ltb, ◌==◌, nat_eq,
  if◌then◌else◌,
}
use docker_vrising.Prelude.Result.{ok}
use docker_vrising.Vdf.{read_quoted, read_string}

-- A byte with what stands for it between quotes, before what follows.
abbrev escape : ℕ → Bytes → Bytes
escape c rest =
    if c == b'"' || c == 92
    then 92 ∷ c ∷ rest
    else if c == 10
    then 92 ∷ b'n' ∷ rest
    else if c == 9
    then 92 ∷ b't' ∷ rest
    else c ∷ rest

abbrev escaped : Bytes → Bytes → Bytes
escaped [] rest = b'"' ∷ rest
escaped (c ∷ cs) rest = escape c (escaped cs rest)

-- A string in quotes, before what follows it in the file.
abbrev pub quoted : Bytes → Bytes → Bytes
quoted text rest = b'"' ∷ escaped text rest

-- A byte that a quoted string can hold: no control byte but the newline and the tab.
abbrev pub is_text : ℕ → Bool
is_text c = not (ltb c 32) || (c == 10 || c == 9)

read_quoted-escape :
    (c : ℕ) (s cs rest : Bytes)
    → is_text c ≡ true
    → read_quoted false s ≡ ok (cs, rest)
    → read_quoted false (escape c s) ≡ ok (c ∷ cs, rest)
unfolding read_quoted
read_quoted-escape c s cs rest text h = ground arith

read_quoted-escaped :
    (text rest : Bytes)
    → all is_text text ≡ true
    → read_quoted false (escaped text rest) ≡ ok (text, rest)
unfolding read_quoted
read_quoted-escaped [] rest h = refl
read_quoted-escaped (c ∷ cs) rest h =
    read_quoted-escape c (escaped cs rest) cs rest (ground arith)
      (read_quoted-escaped cs rest (ground arith))

-- A quoted text is read back: the text, and what follows the closing quote.
pub read_string-quoted :
    (text rest : Bytes) → all is_text text ≡ true → read_string (quoted text rest) ≡ ok (text, rest)
unfolding read_string
read_string-quoted text rest h = read_quoted-escaped text rest h

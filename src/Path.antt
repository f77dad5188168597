-- ===== src/Path.antt =====
-- state.go: `relativePathParts`, the check that a path stays below its root. An absolute path that
-- `filepath.Clean` has cleaned is the list of its components, and `filepath.Join` of such a path
-- and a checked relative one appends the components.
pub mod Parts
mod Tests
use docker_vrising.Prelude.{
  ℕ, Bool, true, false, ◌||◌, List, [], ◌∷◌, ◌++◌, any, ◌==◌, nat_eq, bytes_eq, Bytes, codes,
  if◌then◌else◌,
}
use docker_vrising.Prelude.Result.{Result, ok, err}

pub data PathError : Type 0 where
  not_relative leaves_root : PathError

abbrev push_byte : ℕ → List Bytes → List Bytes
push_byte c [] = (c ∷ []) ∷ []
push_byte c (part ∷ parts) = (c ∷ part) ∷ parts

-- `strings.Split` at one byte.
unfoldable pub split : ℕ → Bytes → List Bytes
split separator [] = [] ∷ []
split separator (c ∷ cs) =
    let rest = split separator cs in if c == separator then [] ∷ rest else push_byte c rest

-- `filepath.IsAbs`
abbrev is_abs : Bytes → Bool
is_abs [] = false
is_abs (c ∷ cs) = c == b'/'

abbrev pub is_unsafe_part : Bytes → Bool
is_unsafe_part part = part == [] || (part == codes "." || part == codes "..")

unfoldable pub relative_path_parts : Bytes → Result PathError (List Bytes)
unfolding split
relative_path_parts path =
    if path == [] || is_abs path
    then err not_relative
    else let parts = split b'/' path in
      if any is_unsafe_part parts then err leaves_root else ok parts

-- `filepath.Join` of a clean absolute directory and a relative path.
abbrev pub AbsolutePath : Type 0
AbsolutePath = List Bytes

abbrev pub join : AbsolutePath → Bytes → AbsolutePath
join root path = root ++ split b'/' path

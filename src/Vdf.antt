-- ===== src/Vdf.antt =====
-- steam.go: the parser of Valve's data format, which SteamCMD writes its manifests in. The position
-- of `vdfParser` is the list of the bytes that are left. Keys are compared as `strings.EqualFold`
-- does for ASCII letters; its folding of other letters is not modelled.
pub mod Total
pub mod Strings
mod Tests
use docker_vrising.Prelude.{
  ℕ, zero, suc, Bool, true, false, ◌&&◌, ◌||◌, not, Option, none, some, List, [], ◌∷◌, ◌++◌, any,
  ◌==◌, ltb, leb, ◌+◌, nat_eq, bytes_eq, Bytes, codes, map, length, if◌then◌else◌,
}
use docker_vrising.Prelude.Result.{Result, ok, err, ◌>>=◌, ◌>>◌, guard}

pub data VdfError : Type 0 where
  expected_string control_byte unterminated_escape control_after_escape unterminated_string :
      VdfError
  expected_object missing_brace duplicate_key missing_value malformed_value : VdfError
  wrong_root trailing_data missing_object missing_path_value empty_path : VdfError
  out_of_fuel : VdfError

-- `vdfNode`: the values and the children of an object, the last one read first.
mutual
  pub data VdfNode : Type 0 where
    node : List (Bytes × Bytes) → VdfChildren → VdfNode

  pub data VdfChildren : Type 0 where
    leaf : VdfChildren
    child : Bytes → VdfNode → VdfChildren → VdfChildren

abbrev to_lower : ℕ → ℕ
to_lower c = if leb b'A' c && leb c b'Z' then c + 32 else c

-- `strings.EqualFold`
abbrev pub equal_fold : Bytes → Bytes → Bool
equal_fold a b = map to_lower a == map to_lower b

abbrev empty_node : VdfNode
empty_node = node [] leaf

abbrev add_value : Bytes → Bytes → VdfNode → VdfNode
add_value key value (node values children) = node ((key, value) ∷ values) children

abbrev add_child : Bytes → VdfNode → VdfNode → VdfNode
add_child key c (node values children) = node values (child key c children)

unfoldable pub find_value : Bytes → List (Bytes × Bytes) → Option Bytes
find_value key [] = none
find_value key (v ∷ values) =
    let rest = find_value key values in if equal_fold v.0 key then some v.1 else rest

unfoldable pub find_child : (Bytes → Bool) → VdfChildren → Option VdfNode
find_child is_key leaf = none
find_child is_key (child name c children) =
    let rest = find_child is_key children in if is_key name then some c else rest

abbrev pub values_of : VdfNode → List (Bytes × Bytes)
values_of (node values children) = values

abbrev pub children_of : VdfNode → VdfChildren
children_of (node values children) = children

abbrev pub value : VdfNode → Bytes → Option Bytes
value n key = find_value key (values_of n)

-- `(*vdfNode).child`
abbrev pub child_named : VdfNode → Bytes → Option VdfNode
child_named n key = find_child (λ name. equal_fold name key) (children_of n)

abbrev pub child_exact : VdfNode → Bytes → Option VdfNode
child_exact n key = find_child (λ name. name == key) (children_of n)

abbrev is_some : {A : Type 0} → Option A → Bool
is_some none = false
is_some (some a) = true

unfoldable pub has_key : VdfNode → Bytes → Bool
unfolding find_value find_child
has_key n key = is_some (value n key) || is_some (child_named n key)

abbrev require_value : Option Bytes → Result VdfError Bytes
require_value none = err missing_path_value
require_value (some v) = ok v

abbrev step_into : (VdfNode → Result VdfError Bytes) → Option VdfNode → Result VdfError Bytes
step_into next none = err missing_object
step_into next (some c) = next c

unfoldable pub path_value : List Bytes → VdfNode → Result VdfError Bytes
path_value [] n = err empty_path
path_value (key ∷ []) n = require_value (value n key)
path_value (segment ∷ key ∷ path) n = step_into (path_value (key ∷ path)) (child_named n segment)

abbrev is_whitespace : ℕ → Bool
is_whitespace c = c == 32 || (c == 9 || (c == 13 || c == 10))

unfoldable pub skip_whitespace : Bytes → Bytes
skip_whitespace [] = []
skip_whitespace (c ∷ cs) = let rest = skip_whitespace cs in if is_whitespace c then rest else c ∷ cs

abbrev Parse : Type 0 → Type 0
Parse A = Result VdfError (A × Bytes)

abbrev unescape : ℕ → Bytes
unescape c =
    if c == b'"' || c == 92
    then c ∷ []
    else if c == b'n'
    then 10 ∷ []
    else if c == b't'
    then 9 ∷ []
    else 92 ∷ c ∷ []

abbrev prepend : Bytes → Parse Bytes → Parse Bytes
prepend cs (err e) = err e
prepend cs (ok (s, rest)) = ok (cs ++ s, rest)

-- The loop of `readString` after the opening quote; the flag says that the byte before was the
-- backslash of an escape.
unfoldable pub read_quoted : Bool → Bytes → Parse Bytes
read_quoted true [] = err unterminated_escape
read_quoted false [] = err unterminated_string
read_quoted true (c ∷ cs) =
    let rest = read_quoted false cs in
    if ltb c 32 then err control_after_escape else prepend (unescape c) rest
read_quoted false (c ∷ cs) =
    let rest = read_quoted (c == 92) cs in
    if c == b'"'
    then ok ([], cs)
    else if ltb c 32
    then err control_byte
    else if c == 92
    then rest
    else prepend (c ∷ []) rest

unfoldable pub read_string : Bytes → Parse Bytes
unfolding read_quoted
read_string [] = err expected_string
read_string (c ∷ cs) = if c == b'"' then read_quoted false cs else err expected_string

-- The rest of an object after a key: `object` reads on from a given node.
abbrev Reader : Type 0
Reader = VdfNode → Bytes → Parse VdfNode

read_value : Reader → VdfNode → Bytes → Bytes → Parse VdfNode
read_value object n key s = do r ← read_string s; object (add_value key r.0 n) r.1

read_child : Reader → VdfNode → Bytes → Bytes → Parse VdfNode
read_child object n key s = do r ← object empty_node s; object (add_child key r.0 n) r.1

after_key : Reader → VdfNode → Bytes → Bytes → Parse VdfNode
unfolding read_value read_child
after_key object n key [] = err missing_value
after_key object n key (c ∷ cs) =
    if c == b'"'
    then read_value object n key (c ∷ cs)
    else if c == b'{'
    then read_child object n key cs
    else err malformed_value

read_entry : Reader → VdfNode → Bytes → Parse VdfNode
unfolding after_key
read_entry object n s = do
  r ← read_string s
  guard (not (has_key n r.0)) duplicate_key
  after_key object n r.0 (skip_whitespace r.1)

read_member : Reader → VdfNode → Bytes → Parse VdfNode
unfolding read_entry
read_member object n [] = err missing_brace
read_member object n (c ∷ cs) = if c == b'}' then ok (n, cs) else read_entry object n (c ∷ cs)

-- The loop of `readObject` after the opening brace. A round takes a byte at least, so fuel above the
-- number of bytes is enough.
pub read_members : ℕ → Reader
read_members zero n s = err out_of_fuel
read_members (suc fuel) n s = read_member (read_members fuel) n (skip_whitespace s)

pub read_object : Bytes → Parse VdfNode
unfolding read_members
read_object [] = err expected_object
read_object (c ∷ cs) =
    if c == b'{' then read_members (suc (length cs)) empty_node cs else err expected_object

pub parse_vdf_prefix : Bytes → Bytes → Parse VdfNode
parse_vdf_prefix input root_name = do
  r ← read_string (skip_whitespace input)
  guard (r.0 == root_name) wrong_root
  n ← read_object (skip_whitespace r.1)
  ok (n.0, skip_whitespace n.1)

pub parse_vdf_document : Bytes → Bytes → Result VdfError VdfNode
parse_vdf_document input root_name = do
  r ← parse_vdf_prefix input root_name
  guard (length r.1 == 0) trailing_data
  ok r.0

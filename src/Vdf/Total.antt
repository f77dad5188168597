-- ===== src/Vdf/Total.antt =====
-- The parser takes at least a byte in each round, so the fuel of `read_object` never runs out.
use docker_vrising.Prelude.{
  ◌≢◌, ◌<◌, ◌≤◌, ℕ, zero, suc, Bool, true, false, [], ◌∷◌, length, Bytes, arith, ltb, if◌then◌else◌,
  ◌==◌, nat_eq, bytes_eq, not,
}
use docker_vrising.Prelude.Result.{ok, err, ◌>>=◌, ◌>>◌, guard}
use docker_vrising.Vdf.{
  VdfError, VdfNode, out_of_fuel, Parse, Reader, skip_whitespace, read_quoted, read_string,
  read_value, read_child, after_key, read_entry, read_member, read_members, read_object, has_key,
  duplicate_key, add_value, add_child, empty_node, malformed_value, control_byte,
  control_after_escape, prepend, unescape,
}

-- A result that has taken at least one byte of `s`, or an error that is not the fuel's.
abbrev pub Consumes : {A : Type 0} → ℕ → Parse A → Type 0
Consumes before (ok (a, rest)) = length rest < before
Consumes before (err e) = e ≢ out_of_fuel

length-skip_whitespace : (s : Bytes) → length (skip_whitespace s) ≤ length s
unfolding skip_whitespace
length-skip_whitespace [] = ground arith
length-skip_whitespace (c ∷ cs) = ground (arith, length-skip_whitespace cs)

module _ {A B : Type 0} (before : ℕ) where
  bind-Consumes :
      (m : Parse A) (f : A × Bytes → Parse B)
      → Consumes before m
      → ((a : A) (rest : Bytes) → length rest < before → Consumes before (f (a, rest)))
      → Consumes before (m >>= f)
  bind-Consumes (ok (a, rest)) f h next = next a rest h
  bind-Consumes (err e) f h next = h

module _ {A : Type 0} where
  guard-Consumes :
      (before : ℕ) (b : Bool) (e : VdfError) (m : Parse A)
      → e ≢ out_of_fuel
      → Consumes before m
      → Consumes before (guard b e >> m)
  guard-Consumes before true e m differs h = h
  guard-Consumes before false e m differs h = differs

  Consumes-le : (a b : ℕ) (m : Parse A) → a ≤ b → Consumes a m → Consumes b m
  Consumes-le a b (ok (x, rest)) le h = omega arith
  Consumes-le a b (err e) le h = h

  if-Consumes :
      (before : ℕ) (b : Bool) (m n : Parse A)
      → Consumes before m
      → Consumes before n
      → Consumes before (if b then m else n)
  if-Consumes before true m n h k = h
  if-Consumes before false m n h k = k

prepend-Consumes :
    (before : ℕ) (cs : Bytes) (m : Parse Bytes) → Consumes before m → Consumes before (prepend cs m)
prepend-Consumes before cs (ok (s, rest)) h = h
prepend-Consumes before cs (err e) h = h

read_quoted-Consumes : (escaped : Bool) (s : Bytes) → Consumes (length s) (read_quoted escaped s)
unfolding read_quoted
read_quoted-Consumes true [] = λ e. cc
read_quoted-Consumes false [] = λ e. cc
read_quoted-Consumes true (c ∷ cs) =
    let before = length (c ∷ cs) in
    let later =
      Consumes-le (length cs) before (read_quoted false cs) (omega arith)
        (read_quoted-Consumes false cs) in
    if-Consumes before (ltb c 32) (err control_after_escape)
      (prepend (unescape c) (read_quoted false cs)) (λ e. cc)
      (prepend-Consumes before (unescape c) (read_quoted false cs) later)
read_quoted-Consumes false (c ∷ cs) =
    let before = length (c ∷ cs) in
    let m = read_quoted (c == 92) cs in
    let later =
      Consumes-le (length cs) before m (omega arith) (read_quoted-Consumes (c == 92) cs) in
    let plain =
      if-Consumes before (c == 92) m (prepend (c ∷ []) m) later
        (prepend-Consumes before (c ∷ []) m later) in
    if-Consumes before (c == b'"') (ok ([], cs))
      (if ltb c 32 then err control_byte else if c == 92 then m else prepend (c ∷ []) m)
      (omega arith)
      (if-Consumes before (ltb c 32) (err control_byte) (if c == 92 then m else prepend (c ∷ []) m)
        (λ e. cc) plain)

read_string-Consumes : (s : Bytes) → Consumes (length s) (read_string s)
unfolding read_string
read_string-Consumes [] = λ e. cc
read_string-Consumes (c ∷ cs) =
    if-Consumes (length (c ∷ cs)) (c == b'"') (read_quoted false cs) (err VdfError.expected_string)
      (Consumes-le (length cs) (length (c ∷ cs)) (read_quoted false cs) (omega arith)
        (read_quoted-Consumes false cs))
      (λ e. cc)

-- What the loop may assume of its later rounds.
abbrev AllConsume : ℕ → Reader → Type 0
AllConsume bound object =
    (n : VdfNode) (s : Bytes) → length s < bound → Consumes (length s) (object n s)

module _ (fuel : ℕ) (object : Reader) (later : AllConsume fuel object) where
  read_value-Consumes :
      (n : VdfNode) (key s : Bytes)
      → length s ≤ fuel
      → Consumes (length s) (read_value object n key s)
  unfolding read_value
  read_value-Consumes n key s le =
      bind-Consumes (length s) (read_string s) (λ r. object (add_value key r.0 n) r.1)
        (read_string-Consumes s)
        (λ v rest lt.
          Consumes-le (length rest) (length s) (object (add_value key v n) rest) (omega arith)
            (later (add_value key v n) rest (omega arith)))

  read_child-Consumes :
      (n : VdfNode) (key s : Bytes)
      → length s < fuel
      → Consumes (length s) (read_child object n key s)
  unfolding read_child
  read_child-Consumes n key s lt =
      bind-Consumes (length s) (object empty_node s) (λ r. object (add_child key r.0 n) r.1)
        (later empty_node s lt)
        (λ c rest shorter.
          Consumes-le (length rest) (length s) (object (add_child key c n) rest) (omega arith)
            (later (add_child key c n) rest (omega arith)))

  after_key-Consumes :
      (n : VdfNode) (key s : Bytes)
      → length s ≤ fuel
      → Consumes (length s) (after_key object n key s)
  unfolding after_key
  after_key-Consumes n key [] le = λ e. cc
  after_key-Consumes n key (c ∷ cs) le =
      let before = length (c ∷ cs) in
      if-Consumes before (c == b'"') (read_value object n key (c ∷ cs))
        (if c == b'{' then read_child object n key cs else err malformed_value)
        (read_value-Consumes n key (c ∷ cs) le)
        (if-Consumes before (c == b'{') (read_child object n key cs) (err malformed_value)
          (Consumes-le (length cs) before (read_child object n key cs) (omega arith)
            (read_child-Consumes n key cs (omega arith)))
          (λ e. cc))

  abbrev entry_after : VdfNode → Bytes × Bytes → Parse VdfNode
  entry_after n r =
      guard (not (has_key n r.0)) duplicate_key >> after_key object n r.0 (skip_whitespace r.1)

  read_entry-Consumes :
      (n : VdfNode) (s : Bytes) → length s ≤ fuel → Consumes (length s) (read_entry object n s)
  unfolding read_entry
  read_entry-Consumes n s le =
      bind-Consumes (length s) (read_string s) (entry_after n) (read_string-Consumes s)
        (λ key rest lt.
          let t = skip_whitespace rest in
          let shorter = length-skip_whitespace rest in
          guard-Consumes (length s) (not (has_key n key)) duplicate_key (after_key object n key t)
            (λ e. cc)
            (Consumes-le (length t) (length s) (after_key object n key t) (omega arith)
              (after_key-Consumes n key t (omega arith))))

  read_member-Consumes :
      (n : VdfNode) (s : Bytes) → length s ≤ fuel → Consumes (length s) (read_member object n s)
  unfolding read_member
  read_member-Consumes n [] le = λ e. cc
  read_member-Consumes n (c ∷ cs) le =
      if-Consumes (length (c ∷ cs)) (c == b'}') (ok (n, cs)) (read_entry object n (c ∷ cs))
        (omega arith) (read_entry-Consumes n (c ∷ cs) le)

read_members-Consumes : (fuel : ℕ) → AllConsume fuel (read_members fuel)
unfolding read_members
read_members-Consumes zero n s lt = absurd (omega arith)
read_members-Consumes (suc fuel) n s lt =
    let t = skip_whitespace s in
    let shorter = length-skip_whitespace s in
    Consumes-le (length t) (length s) (read_member (read_members fuel) n t) shorter
      (read_member-Consumes fuel (read_members fuel) (read_members-Consumes fuel) n t (omega arith))

-- For every input, the parser of an object returns what it read and fewer bytes than it was given,
-- or an error of the format: the fuel of the model never runs out.
pub read_object-Consumes : (s : Bytes) → Consumes (length s) (read_object s)
unfolding read_object
read_object-Consumes [] = λ e. cc
read_object-Consumes (c ∷ cs) =
    if-Consumes (length (c ∷ cs)) (c == b'{') (read_members (suc (length cs)) empty_node cs)
      (err VdfError.expected_object)
      (Consumes-le (length cs) (length (c ∷ cs)) (read_members (suc (length cs)) empty_node cs)
        (omega arith) (read_members-Consumes (suc (length cs)) empty_node cs (omega arith)))
      (λ e. cc)

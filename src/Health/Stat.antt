-- ===== src/Health/Stat.antt =====
-- The text of `/proc/<pid>/stat` as the kernel writes it, and what `procFSInspector.Identity` reads
-- in it. The name of the command may hold anything, brackets and white space too.
use docker_vrising.Prelude.{
  bytes_beq, ℕ, zero, suc, ◌+◌, ◌/◌, ◌%◌, ◌<◌, Bool, true, false, ◌&&◌, not, ◌≡◌, refl, sym, ap,
  ◌∙◌, subst, arith, none, some, List, [], ◌∷◌, ◌++◌, ◌==◌, all, leb, ltb, nat_eq, bytes_eq,
  bytes_beq, Bytes, codes, All, Bool-cases, inl, inr,
}
use mathlib.Core.List.{append-nil, append_assoc}
use docker_vrising.Console.{is_space, reverse_onto, trim_left, trim_right, trim_space}
use docker_vrising.Journal.{decimal}
use docker_vrising.Health.{fields_from, end_word, after_command, digit_value, parse_uint, in_range}

-- The fields after the command: the status, eighteen others, the start time, and the rest.
pub record Process : Type 0 where
  pub pid : ℕ
  pub command : Bytes
  pub status : ℕ
  pub middle : List Bytes
  pub start_ticks : ℕ
  pub trailing : List Bytes

abbrev pub number : ℕ → Bytes
number n = decimal (suc n) n []

abbrev pub fields_of : Process → List Bytes
fields_of p = (p.status ∷ []) ∷ (p.middle ++ (number p.start_ticks ∷ p.trailing))

-- Each word after a space.
abbrev pub spaced : List Bytes → Bytes
spaced [] = []
spaced (w ∷ ws) = 32 ∷ (w ++ spaced ws)

abbrev pub stat_line : Process → Bytes
stat_line p =
    (number p.pid ++ (codes " (" ++ p.command)) ++ (b')' ∷ (spaced (fields_of p) ++ (10 ∷ [])))

-- Neither white space nor a closing bracket.
abbrev pub is_plain : ℕ → Bool
is_plain c = not (is_space c) && not (c == b')')

abbrev pub IsWord : Bytes → Type 0
IsWord w = ((w == []) ≡ false) × (all is_plain w ≡ true)

fields_from-word :
    (w word rest : Bytes)
    → all is_plain w ≡ true
    → fields_from word (w ++ rest) ≡ fields_from (word ++ w) rest
unfolding fields_from
fields_from-word [] word rest h = ap (λ x. fields_from x rest) (sym (append-nil word))
fields_from-word (c ∷ w) word rest h =
    ground (arith, fields_from-word w (word ++ (c ∷ [])) rest, append_assoc word (c ∷ []) w)

-- The words are the fields.
pub fields_from-spaced :
    (ws : List Bytes) (word : Bytes)
    → All IsWord ws
    → fields_from word (spaced ws) ≡ end_word word ws
unfolding fields_from
fields_from-spaced [] word h = refl
fields_from-spaced (w ∷ ws) word h =
    ap (end_word word) (
      fields_from-word w [] (spaced ws) h.0.1 ∙ fields_from-spaced ws w h.1 ∙ ground (arith, h.0.0))

after_command-plain :
    (w rest : Bytes)
    → all is_plain w ≡ true
    → after_command rest ≡ none
    → after_command (w ++ rest) ≡ none
unfolding after_command
after_command-plain [] rest h k = k
after_command-plain (c ∷ w) rest h k = ground (arith, after_command-plain w rest)

pub after_command-spaced : (ws : List Bytes) → All IsWord ws → after_command (spaced ws) ≡ none
unfolding after_command
after_command-spaced [] h = refl
after_command-spaced (w ∷ ws) h =
    ground (arith, after_command-plain w (spaced ws) h.0.1 (after_command-spaced ws h.1))

-- A command's name, whatever it holds, is not read as fields.
pub after_command-append :
    (command rest : Bytes)
    → after_command rest ≡ none
    → after_command (command ++ (b')' ∷ rest)) ≡ some rest
unfolding after_command
after_command-append [] rest h = ground (arith, h)
after_command-append (c ∷ command) rest h = ground (arith, after_command-append command rest h)

abbrev is_digit : ℕ → Bool
is_digit c = leb b'0' c && leb c b'9'

decimal-digits :
    (fuel n : ℕ) (rest : Bytes)
    → n < fuel
    → all is_digit rest ≡ true
    → all is_digit (decimal fuel n rest) ≡ true
unfolding decimal
decimal-digits zero n rest lt h = absurd (omega arith)
decimal-digits (suc fuel) n rest lt h = elim (Bool-cases (ltb n 10)) [
  | inl e ↦ ground arith
  | inr e ↦
      rw e (decimal-digits fuel (n / 10) ((b'0' + n % 10) ∷ rest) (ground arith) (ground arith))
]

decimal-cons :
    (fuel n : ℕ) (rest : Bytes) → n < fuel → (d : ℕ) × (ds : Bytes) × (decimal fuel n rest ≡ d ∷ ds)
unfolding decimal
decimal-cons zero n rest lt = absurd (omega arith)
decimal-cons (suc fuel) n rest lt = elim (Bool-cases (ltb n 10)) [
  | inl e ↦ (b'0' + n, rest, rw e refl)
  | inr e ↦
      let (d, ds, k) = decimal-cons fuel (n / 10) ((b'0' + n % 10) ∷ rest) (ground arith) in
      (d, ds, rw e k)
]

digit_value-decimal :
    (fuel n : ℕ) (rest : Bytes)
    → n < fuel
    → digit_value (decimal fuel n rest) 0 ≡ digit_value rest n
unfolding decimal
digit_value-decimal zero n rest lt = absurd (omega arith)
digit_value-decimal (suc fuel) n rest lt = elim (Bool-cases (ltb n 10)) [
  | inl e ↦ ground arith
  | inr e ↦
      rw e
        (digit_value-decimal fuel (n / 10) ((b'0' + n % 10) ∷ rest) (ground arith) ∙ ground arith)
]

digits-plain : (w : Bytes) → all is_digit w ≡ true → all is_plain w ≡ true
digits-plain [] h = refl
digits-plain (c ∷ w) h = ground (arith, digits-plain w)

pub number-IsWord : (n : ℕ) → IsWord (number n)
unfolding bytes_beq
number-IsWord n =
    let (d, ds, e) = decimal-cons (suc n) n [] (omega arith) in
    (
      subst (λ (w : Bytes). (w == []) ≡ false) (sym e) refl,
      digits-plain (number n) (decimal-digits (suc n) n [] (omega arith) refl),
    )

pub parse_uint-number : (n : ℕ) → n < 18446744073709551616 → parse_uint (number n) ≡ some n
parse_uint-number n lt =
    let (d, ds, e) = decimal-cons (suc n) n [] (omega arith) in
    ap parse_uint e
    ∙ ap in_range
        (sym (ap (λ w. digit_value w 0) e) ∙ digit_value-decimal (suc n) n [] (omega arith))
    ∙ ground arith

reverse_onto-snoc :
    (s acc : Bytes) (c : ℕ) → reverse_onto (s ++ (c ∷ [])) acc ≡ c ∷ reverse_onto s acc
reverse_onto-snoc [] acc c = refl
reverse_onto-snoc (x ∷ s) acc c = reverse_onto-snoc s (x ∷ acc) c

reverse_onto-reverse_onto :
    (s acc out : Bytes) → reverse_onto (reverse_onto s acc) out ≡ reverse_onto acc (s ++ out)
reverse_onto-reverse_onto [] acc out = refl
reverse_onto-reverse_onto (x ∷ s) acc out = reverse_onto-reverse_onto s (x ∷ acc) out

trim_left-kept : (c : ℕ) (s : Bytes) → is_space c ≡ false → trim_left is_space (c ∷ s) ≡ c ∷ s
trim_left-kept c s h = ground arith

-- The newline at the end is trimmed, and nothing else is.
trim_right-line :
    (s : Bytes) (c : ℕ)
    → is_space c ≡ false
    → trim_right is_space (s ++ (c ∷ 10 ∷ [])) ≡ s ++ (c ∷ [])
trim_right-line s c h =
    ap (λ r. reverse_onto (trim_left is_space r) [])
      (ap (λ t. reverse_onto t []) (sym (append_assoc s (c ∷ []) (10 ∷ [])))
        ∙ reverse_onto-snoc (s ++ (c ∷ [])) [] 10
        ∙ ap (λ r. 10 ∷ r) (reverse_onto-snoc s [] c))
    ∙ ap (λ r. reverse_onto r []) (trim_left-kept c (reverse_onto s []) h)
    ∙ reverse_onto-reverse_onto s [] (c ∷ [])

word-ends :
    (w : Bytes)
    → (w == []) ≡ false
    → all is_plain w ≡ true
    → (front : Bytes) × (c : ℕ) × (w ≡ front ++ (c ∷ [])) × (is_space c ≡ false)
unfolding bytes_beq
word-ends [] h k = absurd (ground arith)
word-ends (c ∷ []) h k = ([], c, refl, ground arith)
word-ends (c ∷ d ∷ w) h k =
    let (front, last, e, plain) = word-ends (d ∷ w) refl (ground arith) in
    (c ∷ front, last, ap (λ t. c ∷ t) e, plain)

spaced-ends :
    (w : Bytes) (ws : List Bytes)
    → All IsWord (w ∷ ws)
    → (front : Bytes) × (c : ℕ) × (spaced (w ∷ ws) ≡ front ++ (c ∷ [])) × (is_space c ≡ false)
spaced-ends w [] h =
    let (front, c, e, plain) = word-ends w h.0.0 h.0.1 in
    (32 ∷ front, c, ap (λ t. 32 ∷ t) (append-nil w ∙ e), plain)
spaced-ends w (v ∷ ws) h =
    let (front, c, e, plain) = spaced-ends v ws h.1 in
    (
      32 ∷ (w ++ front),
      c,
      ap (λ t. 32 ∷ t) (ap (λ t. w ++ t) e ∙ sym (append_assoc w front (c ∷ []))),
      plain,
    )

pub trim_space-line :
    (d : ℕ) (s : Bytes) (w : Bytes) (ws : List Bytes)
    → is_space d ≡ false
    → All IsWord (w ∷ ws)
    → trim_space ((d ∷ s) ++ (b')' ∷ (spaced (w ∷ ws) ++ (10 ∷ []))))
      ≡ (d ∷ s) ++ (b')' ∷ spaced (w ∷ ws))
trim_space-line d s w ws first h =
    let (front, c, e, plain) = spaced-ends w ws h in
    let body : Bytes = (d ∷ s) ++ (b')' ∷ front) in
    let whole : (d ∷ s) ++ (b')' ∷ (spaced (w ∷ ws) ++ (10 ∷ []))) ≡ body ++ (c ∷ 10 ∷ []) =
      ap (λ t. (d ∷ s) ++ (b')' ∷ (t ++ (10 ∷ [])))) e
      ∙ ap (λ t. (d ∷ s) ++ (b')' ∷ t)) (append_assoc front (c ∷ []) (10 ∷ []))
      ∙ sym (append_assoc (d ∷ s) (b')' ∷ front) (c ∷ 10 ∷ [])) in
    ap (trim_right is_space)
      (trim_left-kept d (s ++ (b')' ∷ (spaced (w ∷ ws) ++ (10 ∷ [])))) first ∙ whole)
    ∙ trim_right-line body c plain
    ∙ append_assoc (d ∷ s) (b')' ∷ front) (c ∷ [])
    ∙ ap (λ t. (d ∷ s) ++ (b')' ∷ t)) (sym e)

pub number-cons : (n : ℕ) → (d : ℕ) × (ds : Bytes) × (number n ≡ d ∷ ds) × (is_space d ≡ false)
number-cons n =
    let (d, ds, e) = decimal-cons (suc n) n [] (omega arith) in
    let plain : all is_plain (d ∷ ds) ≡ true = ap (all is_plain) (sym e) ∙ (number-IsWord n).1 in
    (d, ds, e, ground (arith, plain))

-- ===== src/Path/Parts.antt =====
-- What a checked path is: its parts, joined by slashes, with no part that leaves the root.
use docker_vrising.Prelude.{
  ℕ, ◌≡◌, refl, ap, ◌∙◌, false, inl, inr, List, [], ◌∷◌, ◌++◌, All, any, arith, nat_beq, Bytes,
  Bool-cases, ◌≢◌,
}
use docker_vrising.Prelude.Result.{ok}
use docker_vrising.Path.{split, push_byte, relative_path_parts, is_unsafe_part}

-- `strings.Join`
abbrev pub intercalate : ℕ → List Bytes → Bytes
intercalate separator [] = []
intercalate separator (part ∷ []) = part
intercalate separator (part ∷ next ∷ parts) =
    part ++ separator ∷ intercalate separator (next ∷ parts)

intercalate-push :
    (s c : ℕ) (r : List Bytes) → r ≢ [] → intercalate s (push_byte c r) ≡ c ∷ intercalate s r
intercalate-push s c [] ne = absurd (ne refl)
intercalate-push s c (p ∷ []) ne = refl
intercalate-push s c (p ∷ q ∷ r) ne = refl

intercalate-cons_nil :
    (s : ℕ) (r : List Bytes) → r ≢ [] → intercalate s ([] ∷ r) ≡ s ∷ intercalate s r
intercalate-cons_nil s [] ne = absurd (ne refl)
intercalate-cons_nil s (p ∷ r) ne = refl

push_byte-ne-nil : (c : ℕ) (r : List Bytes) → push_byte c r ≢ []
push_byte-ne-nil c [] e = cc
push_byte-ne-nil c (p ∷ r) e = cc

split-ne-nil : (s : ℕ) (path : Bytes) → split s path ≢ []
unfolding split
split-ne-nil s [] = λ e. cc
split-ne-nil s (c ∷ cs) = ground (arith, push_byte-ne-nil c (split s cs))

intercalate-split : (s : ℕ) (path : Bytes) → intercalate s (split s path) ≡ path
unfolding split
intercalate-split s [] = refl
intercalate-split s (c ∷ cs) = elim (Bool-cases (nat_beq c s)) [
  | inl same ↦ rw same (
      intercalate-cons_nil s (split s cs) (split-ne-nil s cs)
      ∙ ground (arith, intercalate-split s cs))
  | inr other ↦ rw other (
      intercalate-push s c (split s cs) (split-ne-nil s cs)
      ∙ ap (λ r. c ∷ r) (intercalate-split s cs))
]

-- A part that stays in its directory: no separator in it, and not one that names none, the
-- directory itself or its parent.
pub record IsSafePart (part : Bytes) : Type 0 where
  pub no_slash : any (nat_beq b'/') part ≡ false
  pub is_name : is_unsafe_part part ≡ false

abbrev HasNo : ℕ → Bytes → Type 0
HasNo s part = any (nat_beq s) part ≡ false

push_byte-HasNo :
    (s c : ℕ) (r : List Bytes)
    → nat_beq c s ≡ false
    → All (HasNo s) r
    → All (HasNo s) (push_byte c r)
push_byte-HasNo s c [] other h = ground arith
push_byte-HasNo s c (p ∷ r) other h = ground arith

split-HasNo : (s : ℕ) (path : Bytes) → All (HasNo s) (split s path)
unfolding split
split-HasNo s [] = ground arith
split-HasNo s (c ∷ cs) = elim (Bool-cases (nat_beq c s)) [
  | inl same ↦ rw same (refl, split-HasNo s cs)
  | inr other ↦ rw other (push_byte-HasNo s c (split s cs) other (split-HasNo s cs))
]

All-IsSafePart :
    (parts : List Bytes)
    → All (HasNo b'/') parts
    → any is_unsafe_part parts ≡ false
    → All IsSafePart parts
All-IsSafePart [] no_slash h = tt
All-IsSafePart (p ∷ parts) no_slash h = ground (arith, All-IsSafePart parts)

-- A path that the check accepts is its parts with slashes between them, and each part is a file
-- name: not empty, no dot directory, no separator in it.
pub relative_path_parts-IsSafePart :
    (path : Bytes) {parts : List Bytes}
    → relative_path_parts path ≡ ok parts
    → (intercalate b'/' parts ≡ path) × All IsSafePart parts
unfolding relative_path_parts
relative_path_parts-IsSafePart path h =
    ground
      (arith, intercalate-split b'/' path, split-HasNo b'/' path, All-IsSafePart (split b'/' path))

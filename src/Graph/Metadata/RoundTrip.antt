-- ===== src/Graph/Metadata/RoundTrip.antt =====
-- `parseDependency` reads what `packageVersionFullName` writes.
use docker_vrising.Prelude.{
  true, false, ◌≡◌, refl, Option, none, some, [], ◌∷◌, ◌++◌, all, bytes_eq, bytes_beq_iff, Bytes,
  arith, Bool-cases, Option-cases, inl, inr,
}
use docker_vrising.Prelude.Result.{ok}
use docker_vrising.State.{PackageRef}
use docker_vrising.Config.{
  semantic_version, drop_digits, take_number, after_dot, is_last_number, is_two_numbers,
}
use docker_vrising.Graph.Metadata.{
  cut_first, cut_last, parse_dependency, package_version_full_name, is_word, is_reference, is_dash,
}

cut_last-drop_digits : (s : Bytes) → cut_last (drop_digits s) ≡ none → cut_last s ≡ none
unfolding cut_last drop_digits
cut_last-drop_digits [] h = refl
cut_last-drop_digits (c ∷ s) h = ground (arith, cut_last-drop_digits s)

cut_last-after_dot :
    (s : Bytes) {t : Bytes} → after_dot s ≡ some t → cut_last t ≡ none → cut_last s ≡ none
unfolding cut_last
cut_last-after_dot [] h k = cc
cut_last-after_dot (c ∷ s) {t = t} h k = ground arith

cut_last-take_number :
    (s : Bytes) {t : Bytes} → take_number s ≡ some t → cut_last t ≡ none → cut_last s ≡ none
unfolding take_number
cut_last-take_number s h k =
    cut_last-drop_digits s (cut_last-after_dot (drop_digits s) (ground arith) k)

cut_last-is_last_number : (s : Bytes) → is_last_number s ≡ true → cut_last s ≡ none
unfolding cut_last
cut_last-is_last_number s h =
    let e : drop_digits s ≡ [] = (bytes_beq_iff (drop_digits s) []).0 (ground arith) in
    cut_last-drop_digits s (rw e refl)

cut_last-is_two_numbers :
    (o : Option Bytes) (s : Bytes) → take_number s ≡ o → is_two_numbers o ≡ true → cut_last s ≡ none
cut_last-is_two_numbers none s e h = cc
cut_last-is_two_numbers (some t) s e h = cut_last-take_number s e (rest (take_number t) refl h)
  where
    rest :
        (o : Option Bytes)
        → take_number t ≡ o
        → (elim o [ none ↦ false | some u ↦ is_last_number u ]) ≡ true
        → cut_last t ≡ none
    rest none f k = cc
    rest (some u) f k = cut_last-take_number t f (cut_last-is_last_number u k)

-- A version has no dash.
cut_last-semantic_version : (s : Bytes) → semantic_version s ≡ true → cut_last s ≡ none
unfolding semantic_version
cut_last-semantic_version s h = cut_last-is_two_numbers (take_number s) s refl h

cut_first-word : (a b : Bytes) → all is_word a ≡ true → cut_first (a ++ (b'-' ∷ b)) ≡ some (a, b)
unfolding cut_first
cut_first-word [] b h = refl
cut_first-word (c ∷ a) b h = ground (arith, cut_first-word a b)

cut_last-append : (a b : Bytes) → cut_last b ≡ none → cut_last (a ++ (b'-' ∷ b)) ≡ some (a, b)
unfolding cut_last
cut_last-append [] b h = ground arith
cut_last-append (c ∷ a) b h = ground (arith, cut_last-append a b h)

-- A reference whose namespace is a word, whose name is made of words and dashes, neither empty, and
-- whose version is semantic, is read back from its full name.
pub parse_dependency-package_version_full_name :
    (ref : PackageRef)
    → is_reference ref.namespace ref.name ref.version ≡ true
    → parse_dependency (package_version_full_name ref) ≡ ok ref
unfolding parse_dependency package_version_full_name
parse_dependency-package_version_full_name ref h = ground (
  arith,
  cut_first-word ref.namespace (ref.name ++ (b'-' ∷ ref.version)),
  cut_last-append ref.name ref.version,
  cut_last-semantic_version ref.version,
)

cut_first-text : (s a b : Bytes) → cut_first s ≡ some (a, b) → a ++ (b'-' ∷ b) ≡ s
unfolding cut_first
cut_first-text [] a b h = cc
cut_first-text (c ∷ s) a b h = elim (Bool-cases (is_dash c)) [
  | inl e ↦ ground arith
  | inr e ↦ elim (Option-cases (cut_first s)) [
    | inl n ↦ ground arith
    | inr ((x, y), n) ↦ ground (arith, cut_first-text s x y n)
  ]
]

cut_last-text : (s a b : Bytes) → cut_last s ≡ some (a, b) → a ++ (b'-' ∷ b) ≡ s
unfolding cut_last
cut_last-text [] a b h = cc
cut_last-text (c ∷ s) a b h = elim (Option-cases (cut_last s)) [
  | inl n ↦ ground arith
  | inr ((x, y), n) ↦ ground (arith, cut_last-text s x y n)
]

-- A text that is accepted is the full name of the reference that it is read as.
pub package_version_full_name-parse_dependency :
    (s : Bytes) {ref : PackageRef} → parse_dependency s ≡ ok ref → package_version_full_name ref ≡ s
unfolding parse_dependency package_version_full_name
package_version_full_name-parse_dependency s {ref = ref} h = elim (Option-cases (cut_first s)) [
  | inl e ↦ ground arith
  | inr ((namespace, rest), e) ↦ elim (Option-cases (cut_last rest)) [
    | inl f ↦ ground arith
    | inr ((name, version), f) ↦
        ground (arith, cut_first-text s namespace rest e, cut_last-text rest name version f)
  ]
]

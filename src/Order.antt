-- ===== src/Order.antt =====
-- `strings.Compare` and `sort.Slice` of the Go library, as thunderstore.go, config.go and mods.go
-- use them. Where the comparison tells all elements apart, every sorting gives the same list.
pub mod Laws
use Prim.Native.Nat.{compare, Ordering}
use docker_vrising.Prelude.{Bool, true, false, List, [], ◌∷◌, Bytes, if◌then◌else◌}

-- `strings.Compare`
unfoldable pub compare_bytes : Bytes → Bytes → Ordering
compare_bytes [] [] = Ordering.eq
compare_bytes [] (y ∷ right) = Ordering.lt
compare_bytes (x ∷ left) [] = Ordering.gt
compare_bytes (x ∷ left) (y ∷ right) = elim (compare x y) [
  | Ordering.eq ↦ compare_bytes left right
  | other ↦ other
]

abbrev pub is_lt : Ordering → Bool
is_lt Ordering.lt = true
is_lt _ = false

-- `left < right` for strings
abbrev pub is_before : Bytes → Bytes → Bool
is_before left right = is_lt (compare_bytes left right)

module _ {ℓ} {A : Type ℓ} (less : A → A → Bool) where
  unfoldable pub insert : A → List A → List A
  insert x [] = x ∷ []
  insert x (y ∷ ys) = let rest = insert x ys in if less y x then y ∷ rest else x ∷ y ∷ ys

  -- `sort.Slice`
  unfoldable pub sort : List A → List A
  unfolding insert
  sort [] = []
  sort (x ∷ xs) = insert x (sort xs)

-- `sort.Strings`
abbrev pub sort_strings : List Bytes → List Bytes
sort_strings values = sort is_before values

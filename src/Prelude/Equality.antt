-- ===== src/Prelude/Equality.antt =====
-- Go's `==` as an interface, and its instances for numbers, flags and byte strings.
use Prim.Native.Nat.{ℕ}
use Prim.Native.Char.{code}
use Prim.Native.String.{String}
use mathlib.Core.Path.{◌≡◌, refl}
use mathlib.Core.Logic.{◌↔◌}
use mathlib.Core.Bool.{Bool, true, false, ◌&&◌}
use mathlib.Core.List.{List, [], ◌∷◌}
use native.Mathlib.Omega.{arith}
use docker_vrising.Prelude.Tests.{nat_beq, nat_beq_iff}

-- A decision of equality, its two directions apart.
pub record Comparable {ℓ} (A : Type ℓ) : Type ℓ where
  pub equal : A → A → Bool
  pub sound : (x y : A) → equal x y ≡ true → x ≡ y
  pub reflexive : (x : A) → equal x x ≡ true

module _ {ℓ} {A : Type ℓ} ⦃c : Comparable A⦄ where
  infix 50 ◌==◌
  abbrev pub ◌==◌ : A → A → Bool
  x == y = c.equal x y

  pub beq_refl : (x : A) → (x == x) ≡ true
  beq_refl x = c.reflexive x

-- A Go string or byte slice: the list of its bytes.
abbrev pub Bytes : Type 0
Bytes = List ℕ

-- The bytes of an ASCII literal. `String` has its own `[]` and `∷`.
abbrev pub codes : String → Bytes
codes String.[] = []
codes (String.◌∷◌ c s) = code c ∷ codes s

unfoldable pub bytes_beq : Bytes → Bytes → Bool
bytes_beq [] [] = true
bytes_beq (x ∷ xs) (y ∷ ys) = nat_beq x y && bytes_beq xs ys
bytes_beq _ _ = false

pub bytes_beq_iff : (a b : Bytes) → (bytes_beq a b ≡ true) ↔ (a ≡ b)
unfolding bytes_beq
bytes_beq_iff (x ∷ a) (y ∷ b) = ground (arith, bytes_beq_iff a b)
bytes_beq_iff _ _ = ground arith

pub bytes_beq_refl : (a : Bytes) → bytes_beq a a ≡ true
bytes_beq_refl a = (bytes_beq_iff a a).1 refl

instance abbrev pub nat_eq : Comparable ℕ
nat_eq = record {
  equal = nat_beq;
  sound = λ x y. (nat_beq_iff x y).0;
  reflexive = λ x. (nat_beq_iff x x).1 refl;
}

instance abbrev pub bytes_eq : Comparable Bytes
bytes_eq = record {
  equal = bytes_beq;
  sound = λ x y. (bytes_beq_iff x y).0;
  reflexive = bytes_beq_refl;
}

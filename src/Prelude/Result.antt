-- ===== src/Prelude/Result.antt =====
-- A Go call that returns a value or an error.
use mathlib.Core.Path.{◌≡◌, refl}
use mathlib.Core.Logic.{◌⊎◌, inl, inr}
use mathlib.Core.Bool.{Bool, true, false}

pub data Result {ℓ} (E : Type 0) (A : Type ℓ) : Type ℓ where
  ok : A → Result E A
  err : E → Result E A

infixl 5 ◌>>=◌ ◌>>◌
-- `if err != nil { return err }` after a call.
abbrev pub ◌>>=◌ {ℓ κ} :
    {E : Type 0} {A : Type ℓ} {B : Type κ} → Result E A → (A → Result E B) → Result E B
(err reason) >>= next = err reason
(ok value) >>= next = next value

-- Inversion of a successful bind, for proofs where the parts stay shut.
pub >>=-eq-ok {ℓ κ} :
    {E : Type 0} {A : Type ℓ} {B : Type κ} (call : Result E A) (next : A → Result E B) {b : B}
    → (call >>= next) ≡ ok b
    → (a : A) × (call ≡ ok a) × (next a ≡ ok b)
>>=-eq-ok (ok value) next h = (value, refl, h)
>>=-eq-ok (err reason) next h = cc

-- `if !test { return reason }`
abbrev pub guard : {E : Type 0} → Bool → E → Result E (Unit {0})
guard test reason = elim test [ true ↦ ok tt | false ↦ err reason ]

abbrev pub ◌>>◌ {ℓ} : {E : Type 0} {B : Type ℓ} → Result E (Unit {0}) → Result E B → Result E B
check >> next = check >>= (λ done. next)

pub Result-cases {ℓ} :
    {E : Type 0} {A : Type ℓ} (r : Result E A) → ((a : A) × (r ≡ ok a)) ⊎ ((e : E) × (r ≡ err e))
Result-cases (ok a) = inl (a, refl)
Result-cases (err e) = inr (e, refl)

-- What is known after a guard that let the run pass.
pub guard-passed {ℓ} :
    {E : Type 0} {B : Type ℓ} (test : Bool) (e : E) (next : Result E B) {b : B}
    → (guard test e >> next) ≡ ok b
    → (test ≡ true) × (next ≡ ok b)
guard-passed true e next h = (refl, h)
guard-passed false e next h = cc

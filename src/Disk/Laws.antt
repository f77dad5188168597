-- ===== src/Disk/Laws.antt =====
-- How the outcome and the world of two calls in sequence follow from each of them.
use docker_vrising.Prelude.{◌≡◌, refl, sym, subst, [], Bool, true, false}
use docker_vrising.Prelude.Result.{Result, ok, err}
use docker_vrising.Disk.{World, Fault, Disk, continue, ◌>>=◌, ◌>>◌, fail_if}

-- The call returned no error, and met no failing system call.
pub record Succeeds {A : Type 0} (m : Disk A) (w : World) (a : A) : Type 0 where
  pub returned : (m w).0 ≡ ok a
  pub quiet : (m w).1.faults ≡ []

module _ {A B : Type 0} where
  continue-keeps :
      (P : World → Type 0) (r : Result Fault A) (f : A → Disk B) (w : World)
      → P w
      → ((a : A) → r ≡ ok a → P (f a w).1)
      → P (continue r f w).1
  continue-keeps P (ok a) f w before after = after a refl
  continue-keeps P (err e) f w before after = before

  -- Whatever the first call returns, what holds after it and is kept by the second holds at the end.
  pub bind-keeps :
      (P : World → Type 0) (m : Disk A) (f : A → Disk B) (w : World)
      → P (m w).1
      → ((a : A) → (m w).0 ≡ ok a → P (f a (m w).1).1)
      → P ((m >>= f) w).1
  bind-keeps P m f w before after = continue-keeps P (m w).0 f (m w).1 before after

  record Continues (r : Result Fault A) (f : A → Disk B) (w : World) (b : B) : Type 0 where
    value : A
    first : r ≡ ok value
    second : (f value w).0 ≡ ok b
    world : (continue r f w).1 ≡ (f value w).1

  continue-Continues :
      (r : Result Fault A) (f : A → Disk B) (w : World) {b : B}
      → (continue r f w).0 ≡ ok b
      → Continues r f w b
  continue-Continues (ok a) f w h = record { value = a; first = refl; second = h; world = refl }
  continue-Continues (err e) f w h = cc

  -- Inversion of a sequence that returned no error.
  pub record Ran (m : Disk A) (f : A → Disk B) (w : World) (b : B) : Type 0 where
    pub value : A
    pub first : (m w).0 ≡ ok value
    pub second : (f value (m w).1).0 ≡ ok b
    pub world : ((m >>= f) w).1 ≡ (f value (m w).1).1

  pub bind-Ran :
      (m : Disk A) (f : A → Disk B) (w : World) {b : B} → ((m >>= f) w).0 ≡ ok b → Ran m f w b
  bind-Ran m f w h =
      let c = continue-Continues (m w).0 f (m w).1 h in
      record { value = c.value; first = c.first; second = c.second; world = c.world }

  pub bind-Succeeds :
      (m : Disk A) (f : A → Disk B) (w : World) {a : A} {b : B}
      → Succeeds m w a
      → Succeeds (f a) (m w).1 b
      → Succeeds (m >>= f) w b
  bind-Succeeds m f w first second = record {
    returned = rw (first.returned) second.returned;
    quiet = rw (first.returned) second.quiet;
  }

-- Whatever fails, `P` holds after the call; and `Q` holds of what it returns.
pub record Yields {A : Type 0} (P : World → Type 0) (Q : A → World → Type 0) (m : Disk A)
    (w : World) : Type 0 where
  pub after : P (m w).1
  pub returned : (a : A) → (m w).0 ≡ ok a → Q a (m w).1

module _ {B : Type 0} (P : World → Type 0) (Q : B → World → Type 0) where
  pub bind-Yields :
      {A : Type 0} (m : Disk A) (f : A → Disk B) (w : World)
      → P (m w).1
      → ((a : A) → (m w).0 ≡ ok a → Yields P Q (f a) (m w).1)
      → Yields P Q (m >>= f) w
  bind-Yields m f w before rest = record {
    after = bind-keeps P m f w before (λ a h. (rest a h).after);
    returned = λ b h.
        let r = bind-Ran m f w h in
        subst (Q b) (sym r.world) ((rest r.value r.first).returned b r.second);
  }

  pub fail_if-Yields :
      (b : Bool) (x : Fault) (m : Disk B) (w : World)
      → P w
      → Yields P Q m w
      → Yields P Q (fail_if b x >> m) w
  fail_if-Yields true x m w before rest = record { after = before; returned = λ a h. absurd cc }
  fail_if-Yields false x m w before rest = rest

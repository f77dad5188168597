-- ===== src/Order/Laws.antt =====
-- The order of byte strings, and what every sorting of a list has in common.
use docker_vrising.Prelude.{
  ◌≡◌, refl, ◌∙◌, ap, ap₂, sym, Bool, true, false, List, [], ◌∷◌, Bytes, arith, if◌then◌else◌,
  subst, Bool-cases, inl, inr, All, All-map,
}
use mathlib.Core.List.{Permᴰ}
use mathlib.Core.List.Permᴰ
use docker_vrising.Order.{compare_bytes, is_before, insert, sort}

-- What a comparison by `<` needs for its sortings to agree.
pub record IsOrder {ℓ} {A : Type ℓ} (less : A → A → Bool) : Type ℓ where
  pub asymmetric : (x y : A) → less x y ≡ true → less y x ≡ false
  pub splits : (x y z : A) → less x z ≡ true → less x y ≡ false → less y z ≡ true

is_before-asym : (a b : Bytes) → is_before a b ≡ true → is_before b a ≡ false
unfolding compare_bytes
is_before-asym (x ∷ a) (y ∷ b) h = ground (arith, is_before-asym a b)
is_before-asym [] (y ∷ b) h = refl
is_before-asym [] [] h = cc
is_before-asym (x ∷ a) [] h = cc

is_before-splits :
    (a b c : Bytes) → is_before a c ≡ true → is_before a b ≡ false → is_before b c ≡ true
unfolding compare_bytes
is_before-splits (x ∷ a) (y ∷ b) (z ∷ c) h k = ground (arith, is_before-splits a b c)
is_before-splits (x ∷ a) [] (z ∷ c) h k = refl
is_before-splits [] [] (z ∷ c) h k = refl
is_before-splits [] b [] h k = cc
is_before-splits (x ∷ a) b [] h k = cc
is_before-splits [] (y ∷ b) (z ∷ c) h k = cc

pub is_before-IsOrder : IsOrder is_before
is_before-IsOrder = record { asymmetric = is_before-asym; splits = is_before-splits }

-- Two strings of which neither is before the other are the same.
pub is_before-connected : (a b : Bytes) → is_before a b ≡ false → is_before b a ≡ false → a ≡ b
unfolding compare_bytes
is_before-connected (x ∷ a) (y ∷ b) h k = ground (arith, is_before-connected a b)
is_before-connected [] [] h k = refl
is_before-connected [] (y ∷ b) h k = cc
is_before-connected (x ∷ a) [] h k = cc

module _ {ℓ κ} {A : Type ℓ} where
  pub All-perm : (P : A → Type κ) {l m : List A} → Permᴰ l m → All P l → All P m
  All-perm P Permᴰ.nil h = tt
  All-perm P (Permᴰ.cons e p) h = (subst P e h.0, All-perm P p h.1)
  All-perm P (Permᴰ.swap e f) h = (subst P f h.1.0, (subst P e h.0, h.1.1))
  All-perm P (Permᴰ.trans p q) h = All-perm P q (All-perm P p h)

module _ {ℓ} {A : Type ℓ} (less : A → A → Bool) where
  -- The comparison tells the two apart, or they are the same.
  abbrev pub IsApart : A → A → Type ℓ
  IsApart x y = less x y ≡ false → less y x ≡ false → x ≡ y

  abbrev pub IsTold : List A → Type ℓ
  IsTold [] = Unit
  IsTold (x ∷ l) = All (IsApart x) l × IsTold l

  pub IsTold-connected : ((x y : A) → IsApart x y) → (l : List A) → IsTold l
  IsTold-connected c [] = tt
  IsTold-connected c (x ∷ l) = (every l, IsTold-connected c l)
    where
      every : (l : List A) → All (IsApart x) l
      every [] = tt
      every (y ∷ l) = (c x y, every l)

  insert-Permᴰ : (x : A) (l : List A) → Permᴰ (insert less x l) (x ∷ l)
  unfolding insert
  insert-Permᴰ x [] = Permᴰ.refl (x ∷ [])
  insert-Permᴰ x (y ∷ ys) = elim (Bool-cases (less y x)) [
    | inl h ↦
        rw (h, if◌then◌else◌)
          (Permᴰ.trans (Permᴰ.cons refl (insert-Permᴰ x ys)) (Permᴰ.swap refl refl))
    | inr h ↦ rw (h, if◌then◌else◌) (Permᴰ.refl (x ∷ y ∷ ys))
  ]

  pub sort-Permᴰ : (l : List A) → Permᴰ (sort less l) l
  unfolding sort
  sort-Permᴰ [] = Permᴰ.refl []
  sort-Permᴰ (x ∷ xs) =
      Permᴰ.trans (insert-Permᴰ x (sort less xs)) (Permᴰ.cons refl (sort-Permᴰ xs))

  module _ (o : IsOrder less) where
    insert-insert :
        (x y : A) (l : List A)
        → (less x y ≡ false → less y x ≡ false → x ≡ y)
        → insert less x (insert less y l) ≡ insert less y (insert less x l)
    unfolding insert
    insert-insert x y [] told = ground (arith, o.asymmetric x y)
    insert-insert x y (a ∷ l) told =
        ground (arith, o.asymmetric x y, o.splits a x y, o.splits a y x, insert-insert x y l told)

    IsTold-perm : {l m : List A} → Permᴰ l m → IsTold l → IsTold m
    IsTold-perm Permᴰ.nil t = tt
    IsTold-perm (Permᴰ.cons {b = b} {l₂ = m} e p) t =
        (subst (λ x. All (IsApart x) m) e (All-perm (IsApart _) p t.0), IsTold-perm p t.1)
    IsTold-perm (Permᴰ.swap {a = a} {b = b} {a' = a'} {b' = b'} {l = l} e f) t = (
      (
        subst (λ x. IsApart x b') f (subst (IsApart b) e (λ h k. sym (t.0.0 k h))),
        subst (λ x. All (IsApart x) l) f t.1.0,
      ),
      (subst (λ x. All (IsApart x) l) e t.0.1, t.1.1),
    )
    IsTold-perm (Permᴰ.trans p q) t = IsTold-perm q (IsTold-perm p t)

    -- Lists with the same elements have the same sorting, if the comparison tells the elements apart.
    pub sort-perm : {l m : List A} → Permᴰ l m → IsTold l → sort less l ≡ sort less m
    unfolding sort
    sort-perm Permᴰ.nil t = refl
    sort-perm (Permᴰ.cons {a = a} {b = b} {l₁ = l} {l₂ = m} e p) t =
        ap₂ (insert less) e (sort-perm p t.1)
    sort-perm (Permᴰ.swap {a = a} {b = b} {l = l} e f) t =
        insert-insert a b (sort less l) t.0.0
        ∙ ap₂ (λ u v. insert less u (insert less v (sort less l))) f e
    sort-perm (Permᴰ.trans p q) t = sort-perm p t ∙ sort-perm q (IsTold-perm p t)

    -- No element comes after one that it is before.
    abbrev pub IsSorted : List A → Type 0
    IsSorted [] = Unit
    IsSorted (x ∷ l) = All (λ y. less y x ≡ false) l × IsSorted l

    insert-All : (P : A → Type 0) (x : A) (l : List A) → P x → All P l → All P (insert less x l)
    unfolding insert
    insert-All P x [] px h = (px, tt)
    insert-All P x (y ∷ l) px h = elim (Bool-cases (less y x)) [
      | inl e ↦ rw (e, if◌then◌else◌, All) (h.0, insert-All P x l px h.1)
      | inr e ↦ rw (e, if◌then◌else◌, All) (px, h)
    ]

    insert-IsSorted : (x : A) (l : List A) → IsSorted l → IsSorted (insert less x l)
    unfolding insert
    insert-IsSorted x [] s = (tt, tt)
    insert-IsSorted x (y ∷ l) s = elim (Bool-cases (less y x)) [
      | inl e ↦
          rw (e, if◌then◌else◌, IsSorted)
            (
              insert-All (λ z. less z y ≡ false) x l (o.asymmetric y x e) s.0,
              insert-IsSorted x l s.1,
            )
      | inr e ↦
          rw (e, if◌then◌else◌, IsSorted)
            (
              (
                e,
                All-map {P = λ z. less z y ≡ false} (λ z h. ground (arith, o.splits z y x)) l s.0,
              ),
              s,
            )
    ]

    pub sort-IsSorted : (l : List A) → IsSorted (sort less l)
    unfolding sort
    sort-IsSorted [] = tt
    sort-IsSorted (x ∷ l) = insert-IsSorted x (sort less l) (sort-IsSorted l)

    insert-head : (x : A) (l : List A) → All (λ y. less y x ≡ false) l → insert less x l ≡ x ∷ l
    unfolding insert
    insert-head x [] h = refl
    insert-head x (y ∷ l) h = ground arith

    sort-fixed : (l : List A) → IsSorted l → sort less l ≡ l
    unfolding sort
    sort-fixed [] s = refl
    sort-fixed (x ∷ l) s = ap (insert less x) (sort-fixed l s.1) ∙ insert-head x l s.0

    -- Any sorted list with the elements of another one is its sorting.
    pub sort_unique : {l m : List A} → Permᴰ l m → IsTold l → IsSorted m → sort less l ≡ m
    sort_unique {m = m} p t s = sort-perm p t ∙ sort-fixed m s

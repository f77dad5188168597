-- ===== src/Promotion/Cleanup.antt =====
-- What the removal of a generation does to the state directory.
use docker_vrising.Prelude.{
  ◌≡◌, true, none, List, [], ◌∷◌, ◌++◌, Bytes, arith, inl, inr, All, All-map,
}
use docker_vrising.Prelude.Result.{ok, Result-cases}
use docker_vrising.Path.{relative_path_parts}
use docker_vrising.Disk.{World, attempt_lem}
use docker_vrising.Promotion.{is_below, generation_dir, remove_generation}

-- No file is left of the generation.
abbrev pub IsGone : World → Bytes → Type 0
IsGone w id = (path : Bytes) → is_below (generation_dir id) path ≡ true → w.state_files path ≡ none

-- No file of the state directory comes to be.
abbrev pub Shrinks : World → World → Type 0
Shrinks u v = (path : Bytes) → u.state_files path ≡ none → v.state_files path ≡ none

pub AreGone-Shrinks :
    (u v : World) (ids : List Bytes) → Shrinks u v → All (IsGone u) ids → All (IsGone v) ids
AreGone-Shrinks u v ids shrinks = All-map (λ id gone path below. shrinks path (gone path below)) ids

pub AreGone-snoc :
    (w : World) (ids : List Bytes) (id : Bytes)
    → All (IsGone w) ids
    → IsGone w id
    → All (IsGone w) (ids ++ (id ∷ []))
AreGone-snoc w [] id gone last = (last, tt)
AreGone-snoc w (x ∷ ids) id gone last = (gone.0, AreGone-snoc w ids id gone.1 last)

pub remove_generation-Shrinks : (id : Bytes) (w : World) → Shrinks w (remove_generation id w).1
unfolding remove_generation
remove_generation-Shrinks id w path h = elim (Result-cases (relative_path_parts id)) [
  | inl (parts, e) ↦ rw e (ground (arith, attempt_lem w))
  | inr (x, e) ↦ rw e h
]

-- A removal that returns no error leaves no file of the generation.
pub remove_generation-IsGone :
    (id : Bytes) (w : World)
    → (remove_generation id w).0 ≡ ok tt
    → IsGone (remove_generation id w).1 id
unfolding remove_generation
remove_generation-IsGone id w h path below = elim (Result-cases (relative_path_parts id)) [
  | inl (parts, e) ↦ ground (arith, attempt_lem w)
  | inr (x, e) ↦ ground arith
]

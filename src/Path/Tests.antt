-- ===== src/Path/Tests.antt =====
-- Paths that the check accepts and refuses.
use docker_vrising.Prelude.{bytes_beq, ◌≡◌, refl, ◌∷◌, [], codes, All}
use docker_vrising.Prelude.Result.{ok, err}
use docker_vrising.Path.{relative_path_parts, leaves_root, split}
use docker_vrising.Path.Parts.{intercalate, IsSafePart, relative_path_parts-IsSafePart}

parts_of_path :
    relative_path_parts (codes "BepInEx/core") ≡ ok (codes "BepInEx" ∷ codes "core" ∷ [])
unfolding relative_path_parts split bytes_beq
parts_of_path = refl

parent_refused : relative_path_parts (codes "a/../b") ≡ err leaves_root
unfolding relative_path_parts split bytes_beq
parent_refused = refl

relative_path_parts-IsSafePart_example :
    (intercalate b'/' (codes "BepInEx" ∷ codes "core" ∷ []) ≡ codes "BepInEx/core")
    × All IsSafePart (codes "BepInEx" ∷ codes "core" ∷ [])
relative_path_parts-IsSafePart_example =
    relative_path_parts-IsSafePart (codes "BepInEx/core") parts_of_path

-- ===== src/Graph/Roots/Accepted.antt =====
-- What `validateRootSelections` accepts.
use docker_vrising.Prelude.{
  true, ◌≡◌, refl, ◌⊎◌, inl, inr, Option, none, some, List, [], ◌∷◌, ◌||◌, ◌==◌, arith, codes,
  bytes_eq,
}
use docker_vrising.Prelude.Result.{ok}
use docker_vrising.Config.{semantic_version}
use docker_vrising.Graph.Roots.{
  RootSelection, RootIndex, kindred, satisvampory, managed_root_index, validate_root_selection,
  validate_root_selections, select_roots,
}

-- A selection of the given managed root, with `latest` or a semantic version.
pub record IsSelection (i : RootIndex) (s : RootSelection) : Type 0 where
  pub index : managed_root_index s.namespace s.name ≡ some i
  pub version : (s.version == codes "latest" || semantic_version s.version) ≡ true

validate-version :
    (s : RootSelection)
    → validate_root_selection s ≡ ok tt
    → (s.version == codes "latest" || semantic_version s.version) ≡ true
unfolding validate_root_selection
validate-version s h = ground arith

-- The accepted selections are one of KindredCommands and one of Satisvampory, which come in this
-- order whatever the order they were given in.
pub validate_root_selections-IsSelection :
    (selections : List RootSelection) {ordered : List RootSelection}
    → validate_root_selections selections ≡ ok ordered
    → (first second : RootSelection) × (ordered ≡ first ∷ second ∷ [])
      × IsSelection kindred first
      × IsSelection satisvampory second
      × ((selections ≡ ordered) ⊎ (selections ≡ second ∷ first ∷ []))
unfolding validate_root_selections select_roots
validate_root_selections-IsSelection (x ∷ y ∷ []) {ordered = ordered} h =
    from (managed_root_index x.namespace x.name) (managed_root_index y.namespace y.name) refl refl
  where
    from :
        (i j : Option RootIndex)
        → managed_root_index x.namespace x.name ≡ i
        → managed_root_index y.namespace y.name ≡ j
        → (first second : RootSelection) × (ordered ≡ first ∷ second ∷ [])
          × IsSelection kindred first
          × IsSelection satisvampory second
          × ((x ∷ y ∷ [] ≡ ordered) ⊎ (x ∷ y ∷ [] ≡ second ∷ first ∷ []))
    from (some kindred) (some satisvampory) e f = (
      x,
      y,
      ground (arith, e, f),
      record { index = e; version = validate-version x (ground arith) },
      record { index = f; version = validate-version y (ground (arith, e, f)) },
      inl (ground (arith, e, f)),
    )
    from (some satisvampory) (some kindred) e f = (
      y,
      x,
      ground (arith, e, f),
      record { index = f; version = validate-version y (ground (arith, e, f)) },
      record { index = e; version = validate-version x (ground arith) },
      inr refl,
    )
    from (some kindred) (some kindred) e f = ground (arith, e, f)
    from (some satisvampory) (some satisvampory) e f = ground (arith, e, f)
    from none j e f = ground (arith, e, f)
    from (some kindred) none e f = ground (arith, e, f)
    from (some satisvampory) none e f = ground (arith, e, f)
validate_root_selections-IsSelection [] h = ground arith
validate_root_selections-IsSelection (x ∷ []) h = ground arith
validate_root_selections-IsSelection (x ∷ y ∷ z ∷ rest) h = ground arith

-- ===== src/Graph/Roots.antt =====
-- thunderstore.go: the two managed roots, `validateRootSelections` and `validateManagedRootRefs`.
pub mod Accepted
use docker_vrising.Prelude.{
  Bool, true, false, ◌&&◌, ◌||◌, not, Option, none, some, List, [], ◌∷◌, ◌==◌, nat_eq, bytes_eq,
  length, Bytes, codes, if◌then◌else◌, ◌≡◌,
}
use docker_vrising.Prelude.Result.{Result, ok, err, ◌>>=◌, ◌>>◌, guard}
use docker_vrising.State.{PackageRef}
use docker_vrising.Config.{semantic_version}

pub record RootSelection : Type 0 where
  pub namespace : Bytes
  pub name : Bytes
  pub version : Bytes

pub data RootError : Type 0 where
  wrong_count name_required latest_unmanaged bad_version unexpected_root duplicate_root : RootError
  not_exact_roots : RootError

abbrev pub kindred_root : PackageRef
kindred_root = record { namespace = codes "odjit"; name = codes "KindredCommands"; version = [] }

abbrev pub satisvampory_root : PackageRef
satisvampory_root = record {
  namespace = codes "Team_GreenEye";
  name = codes "Satisvampory";
  version = [];
}

-- A position in `managedRootIdentities`.
pub data RootIndex : Type 0 where
  kindred satisvampory : RootIndex

abbrev pub is_root : PackageRef → Bytes → Bytes → Bool
is_root root namespace name = root.namespace == namespace && root.name == name

unfoldable pub managed_root_index : Bytes → Bytes → Option RootIndex
managed_root_index namespace name =
    if is_root kindred_root namespace name
    then some kindred
    else if is_root satisvampory_root namespace name
    then some satisvampory
    else none

abbrev pub is_managed : Option RootIndex → Bool
is_managed none = false
is_managed (some i) = true

unfoldable pub validate_root_selection : RootSelection → Result RootError (Unit {0})
unfolding managed_root_index
validate_root_selection s = do
  guard (not (s.namespace == [] || s.name == [])) name_required
  guard
      (not
        (s.version == codes "latest" && not (is_managed (managed_root_index s.namespace s.name))))
      latest_unmanaged
  guard (s.version == codes "latest" || semantic_version s.version) bad_version

-- `ordered` and `seen`: what is selected for each root so far.
pub record Selected : Type 0 where
  pub kindred_selection : Option RootSelection
  pub satisvampory_selection : Option RootSelection

abbrev pub place_kindred :
    RootSelection → Selected → Option RootSelection → Result RootError Selected
place_kindred s found none = ok (record found { kindred_selection = some s })
place_kindred s found (some other) = err duplicate_root

abbrev pub place_satisvampory :
    RootSelection → Selected → Option RootSelection → Result RootError Selected
place_satisvampory s found none = ok (record found { satisvampory_selection = some s })
place_satisvampory s found (some other) = err duplicate_root

abbrev pub place : RootSelection → Selected → Option RootIndex → Result RootError Selected
place s found none = err unexpected_root
place s found (some kindred) = place_kindred s found found.kindred_selection
place s found (some satisvampory) = place_satisvampory s found found.satisvampory_selection

unfoldable pub select_roots : List RootSelection → Selected → Result RootError Selected
unfolding validate_root_selection managed_root_index
select_roots [] found = ok found
select_roots (s ∷ selections) found = do
  validate_root_selection s
  next ← place s found (managed_root_index s.namespace s.name)
  select_roots selections next

abbrev pub no_selection : RootSelection
no_selection = record { namespace = []; name = []; version = [] }

abbrev pub selection_or_zero : Option RootSelection → RootSelection
selection_or_zero none = no_selection
selection_or_zero (some s) = s

-- `validateRootSelections`
unfoldable pub validate_root_selections : List RootSelection → Result RootError (List RootSelection)
unfolding select_roots
validate_root_selections selections = do
  guard (length selections == 2) wrong_count
  found ←
      select_roots selections (record { kindred_selection = none; satisvampory_selection = none })
  ok (
      selection_or_zero found.kindred_selection
      ∷ selection_or_zero found.satisvampory_selection
      ∷ [])

unfoldable pub is_exact_root : PackageRef → PackageRef → Bool
is_exact_root expected root =
    root.namespace == expected.namespace
    && (root.name == expected.name && semantic_version root.version)

-- `validateManagedRootRefs`
unfoldable pub validate_managed_root_refs : List PackageRef → Result RootError (Unit {0})
unfolding is_exact_root
validate_managed_root_refs (first ∷ second ∷ []) =
    guard (is_exact_root kindred_root first && is_exact_root satisvampory_root second)
      not_exact_roots
validate_managed_root_refs roots = err wrong_count

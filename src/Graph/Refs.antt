-- ===== src/Graph/Refs.antt =====
-- thunderstore.go: the order of package references, `comparePackageRefs` and `sortPackageRefs`.
use Prim.Native.Nat.{Ordering}
use docker_vrising.Prelude.{
  Bool, true, false, not, List, ◌==◌, bytes_eq, bytes_beq_iff, arith, ◌≡◌, if◌then◌else◌,
}
use mathlib.Core.List.{Permᴰ}
use docker_vrising.State.{PackageRef, ref_beq_iff}
use docker_vrising.Order.{compare_bytes, is_lt, sort}
use docker_vrising.Order.Laws.{
  IsOrder, IsSorted, IsTold-connected, sort_unique, is_before-IsOrder, is_before-connected,
}

unfoldable pub compare_package_refs : PackageRef → PackageRef → Ordering
compare_package_refs left right =
    if not (left.namespace == right.namespace)
    then compare_bytes left.namespace right.namespace
    else if not (left.name == right.name)
    then compare_bytes left.name right.name
    else compare_bytes left.version right.version

abbrev pub ref_before : PackageRef → PackageRef → Bool
ref_before left right = is_lt (compare_package_refs left right)

abbrev pub sort_package_refs : List PackageRef → List PackageRef
sort_package_refs refs = sort ref_before refs

ref_before-asym : (a b : PackageRef) → ref_before a b ≡ true → ref_before b a ≡ false
unfolding compare_package_refs
ref_before-asym a b h = ground (
  arith,
  bytes_beq_iff a.namespace b.namespace,
  bytes_beq_iff b.namespace a.namespace,
  bytes_beq_iff a.name b.name,
  bytes_beq_iff b.name a.name,
  is_before-IsOrder.asymmetric a.namespace b.namespace,
  is_before-IsOrder.asymmetric a.name b.name,
  is_before-IsOrder.asymmetric a.version b.version,
)

pub ref_before-connected :
    (a b : PackageRef) → ref_before a b ≡ false → ref_before b a ≡ false → a ≡ b
unfolding compare_package_refs
ref_before-connected a b h k = (ref_beq_iff a b).0 (
    ground (
      arith,
      bytes_beq_iff a.namespace b.namespace,
      bytes_beq_iff b.namespace a.namespace,
      bytes_beq_iff a.name b.name,
      bytes_beq_iff b.name a.name,
      bytes_beq_iff a.version b.version,
      is_before-connected a.namespace b.namespace,
      is_before-connected a.name b.name,
      is_before-connected a.version b.version,
    ))

ref_before-splits :
    (a b c : PackageRef) → ref_before a c ≡ true → ref_before a b ≡ false → ref_before b c ≡ true
unfolding compare_package_refs
ref_before-splits a b c h k = ground (
  arith,
  bytes_beq_iff a.namespace b.namespace,
  bytes_beq_iff b.namespace c.namespace,
  bytes_beq_iff a.namespace c.namespace,
  bytes_beq_iff a.name b.name,
  bytes_beq_iff b.name c.name,
  bytes_beq_iff a.name c.name,
  is_before-IsOrder.splits a.namespace b.namespace c.namespace,
  is_before-IsOrder.splits a.name b.name c.name,
  is_before-IsOrder.splits a.version b.version c.version,
  is_before-connected a.namespace b.namespace,
  is_before-connected a.name b.name,
)

pub ref_before-IsOrder : IsOrder ref_before
ref_before-IsOrder = record { asymmetric = ref_before-asym; splits = ref_before-splits }

-- `sort.Slice` fixes no order of elements that compare equal; of references there are none, so any
-- sorted rearrangement of the references is the one that the model computes.
pub sort_package_refs_unique :
    (refs sorted : List PackageRef)
    → Permᴰ refs sorted
    → IsSorted ref_before ref_before-IsOrder sorted
    → sort_package_refs refs ≡ sorted
sort_package_refs_unique refs sorted p s =
    sort_unique ref_before ref_before-IsOrder p
      (IsTold-connected ref_before ref_before-connected refs) s

-- ===== src/Graph/Digest.antt =====
-- thunderstore.go: `PackageLockDigest`. The JSON text of the canonical lock and its SHA-256 are one
-- parameter, a function of the canonical lock.
use docker_vrising.Prelude.{
  ℕ, Bool, false, ◌≡◌, refl, ap, ap₂, ◌∙◌, List, [], ◌∷◌, Bytes, arith, map, All,
}
use mathlib.Core.List.{Permᴰ}
use docker_vrising.State.{ℤ, PackageRef, LockedPackage, PackageLock, ref_beq, ref_beq_iff}
use docker_vrising.Order.{sort}
use docker_vrising.Order.Laws.{IsOrder, IsTold, IsApart, IsTold-connected, sort-perm}
use docker_vrising.Graph.Refs.{
  ref_before, sort_package_refs, ref_before-IsOrder, ref_before-connected,
}

pub record CanonicalLockedPackage : Type 0 where
  pub ref : PackageRef
  pub full_name : Bytes
  pub download_url : Bytes
  pub file_size : ℤ
  pub sha256 : Bytes
  pub dependencies : List PackageRef

pub record CanonicalPackageLock : Type 0 where
  pub schema_version : ℕ
  pub roots : List PackageRef
  pub packages : List CanonicalLockedPackage

abbrev pub canonical_package : LockedPackage → CanonicalLockedPackage
canonical_package p = record {
  ref = p.ref;
  full_name = p.full_name;
  download_url = p.download_url;
  file_size = p.file_size;
  sha256 = p.sha256;
  dependencies = sort_package_refs p.dependencies;
}

abbrev pub package_before : CanonicalLockedPackage → CanonicalLockedPackage → Bool
package_before left right = ref_before left.ref right.ref

abbrev pub canonical_package_lock : PackageLock → CanonicalPackageLock
canonical_package_lock lock = record {
  schema_version = lock.schema_version;
  roots = sort_package_refs lock.roots;
  packages = sort package_before (map canonical_package lock.packages);
}

pub sort_package_refs-perm :
    {refs others : List PackageRef}
    → Permᴰ refs others
    → sort_package_refs refs ≡ sort_package_refs others
sort_package_refs-perm {refs = refs} p =
    sort-perm ref_before ref_before-IsOrder p
      (IsTold-connected ref_before ref_before-connected refs)

package_before-IsOrder : IsOrder package_before
package_before-IsOrder = record {
  asymmetric = λ x y. ref_before-IsOrder.asymmetric x.ref y.ref;
  splits = λ x y z. ref_before-IsOrder.splits x.ref y.ref z.ref;
}

-- The packages have different references.
abbrev pub HasDistinctRefs : List LockedPackage → Type 0
HasDistinctRefs [] = Unit
HasDistinctRefs (p ∷ packages) =
    All (λ q. ref_beq p.ref q.ref ≡ false) packages × HasDistinctRefs packages

-- The same package, its dependencies in any order.
pub record IsSamePackage (p q : LockedPackage) : Type 0 where
  pub ref : p.ref ≡ q.ref
  pub full_name : p.full_name ≡ q.full_name
  pub download_url : p.download_url ≡ q.download_url
  pub file_size : p.file_size ≡ q.file_size
  pub sha256 : p.sha256 ≡ q.sha256
  pub dependencies : Permᴰ p.dependencies q.dependencies

abbrev pub AreSamePackages : List LockedPackage → List LockedPackage → Type 0
AreSamePackages [] [] = Unit
AreSamePackages (p ∷ ps) (q ∷ qs) = IsSamePackage p q × AreSamePackages ps qs
AreSamePackages _ _ = ⊥

-- The same graph: the roots, the packages and the dependencies of each may stand in another order.
pub record IsSameGraph (a b : PackageLock) : Type 0 where
  pub schema_version : a.schema_version ≡ b.schema_version
  pub roots : Permᴰ a.roots b.roots
  pub between : List LockedPackage
  pub packages : Permᴰ a.packages between
  pub same : AreSamePackages between b.packages

canonical_package-same :
    (p q : LockedPackage) → IsSamePackage p q → canonical_package p ≡ canonical_package q
canonical_package-same p q s = λ i. record {
  ref = s.ref i;
  full_name = s.full_name i;
  download_url = s.download_url i;
  file_size = s.file_size i;
  sha256 = s.sha256 i;
  dependencies = sort_package_refs-perm s.dependencies i;
}

canonical_packages-same :
    (ps qs : List LockedPackage)
    → AreSamePackages ps qs
    → map canonical_package ps ≡ map canonical_package qs
canonical_packages-same [] [] s = refl
canonical_packages-same (p ∷ ps) (q ∷ qs) s =
    ap₂ ◌∷◌ (canonical_package-same p q s.0) (canonical_packages-same ps qs s.1)
canonical_packages-same [] (q ∷ qs) s = absurd s
canonical_packages-same (p ∷ ps) [] s = absurd s

map-Permᴰ :
    {ps qs : List LockedPackage}
    → Permᴰ ps qs
    → Permᴰ (map canonical_package ps) (map canonical_package qs)
map-Permᴰ Permᴰ.nil = Permᴰ.nil
map-Permᴰ (Permᴰ.cons e p) = Permᴰ.cons (ap canonical_package e) (map-Permᴰ p)
map-Permᴰ (Permᴰ.swap e f) = Permᴰ.swap (ap canonical_package e) (ap canonical_package f)
map-Permᴰ (Permᴰ.trans p q) = Permᴰ.trans (map-Permᴰ p) (map-Permᴰ q)

distinct-IsTold :
    (ps : List LockedPackage)
    → HasDistinctRefs ps
    → IsTold package_before (map canonical_package ps)
distinct-IsTold [] d = tt
distinct-IsTold (p ∷ ps) d = (every ps d.0, distinct-IsTold ps d.1)
  where
    every :
        (qs : List LockedPackage)
        → All (λ q. ref_beq p.ref q.ref ≡ false) qs
        → All (IsApart package_before (canonical_package p)) (map canonical_package qs)
    every [] h = tt
    every (q ∷ qs) h = (
      λ l r.
          ground (arith, (ref_beq_iff p.ref q.ref).1 (ref_before-connected p.ref q.ref l r), h.0),
      every qs h.1,
    )

module _ (hash : CanonicalPackageLock → Bytes) where
  -- `PackageLockDigest`
  unfoldable pub package_lock_digest : PackageLock → Bytes
  package_lock_digest lock = hash (canonical_package_lock lock)

  -- The digest depends on the graph alone: locks with the same roots and the same packages, in any
  -- order and with dependencies in any order, have the same digest, if no two packages of the first
  -- have the same reference.
  pub package_lock_digest-IsSameGraph :
      (a b : PackageLock)
      → HasDistinctRefs a.packages
      → IsSameGraph a b
      → package_lock_digest a ≡ package_lock_digest b
  unfolding package_lock_digest
  package_lock_digest-IsSameGraph a b d s =
      let sorted =
        sort-perm package_before package_before-IsOrder (map-Permᴰ s.packages)
          (distinct-IsTold a.packages d) in
      let same = ap (sort package_before) (canonical_packages-same s.between b.packages s.same) in
      ap hash (λ i. record {
        schema_version = s.schema_version i;
        roots = sort_package_refs-perm s.roots i;
        packages = (sorted ∙ same) i;
      })

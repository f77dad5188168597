-- ===== src/Staging/Lock/Accepted.antt =====
-- What `validateManagedPackageLock` accepts.
use docker_vrising.Prelude.{
  suc, ◌∙◌, true, ◌≡◌, refl, sym, ap, ◌⊎◌, inl, inr, none, some, List, [], ◌∷◌, ◌==◌, nat_eq,
  bytes_eq, Bytes, bytes_beq_iff, length, map, arith, All, ap₂, Option-cases, subst,
}
use docker_vrising.Prelude.Result.{Result-cases, ok, ◌>>=◌, ◌>>◌, guard, >>=-eq-ok}
use docker_vrising.State.{PackageRef, LockedPackage, PackageLock, package_ref_eq, ref_beq_iff}
use docker_vrising.Graph.Roots.{validate_managed_root_refs}
use docker_vrising.Graph.Canonical.{
  canonical_package_order, Dependencies, visit, visit_all, fresh_walk, outside_roots,
}
use docker_vrising.Graph.Canonical.Ordered.{IsCanonical, canonical_package_order-IsCanonical}
use docker_vrising.Graph.Digest.{CanonicalPackageLock, package_lock_digest}
use docker_vrising.Staging.{
  PackageKind, bepinex, vcf, kindred_commands, hook_dots, satisvampory_mod, managed_package_kind,
}
use docker_vrising.Staging.Lock.{
  bad_package, SeenKinds, seen_at, is_seen, is_ref, is_locked, note_kind, note_packages,
  require_kinds, kinds, kind_beq_iff, has_roots, locked_dependencies, stands_in_order,
  package_ref_for_kind, validate_managed_package_lock, check_packages, check_order,
}

-- A kind that was noted was noted before, or it is that of the first package of the kind.
abbrev Noted : SeenKinds → List LockedPackage → PackageKind → PackageRef → Type 0
Noted seen packages kind r =
    (seen_at seen kind ≡ some r)
    ⊎ ((seen_at seen kind ≡ none)
        × ((package_ref_for_kind packages kind ≡ r) × (managed_package_kind r ≡ some kind)))

note_packages-Noted :
    (packages : List LockedPackage) (seen : SeenKinds) {seen' : SeenKinds}
    → note_packages seen packages ≡ ok seen'
    → (kind : PackageKind) {r : PackageRef} → seen_at seen' kind ≡ some r
    → Noted seen packages kind r
unfolding note_packages package_ref_for_kind
note_packages-Noted [] seen h kind e = inl (ground arith)
note_packages-Noted (p ∷ packages) seen {seen' = seen'} h kind {r = r} e =
    elim (Option-cases (managed_package_kind p.ref)) [
      | inl n ↦ ground arith
      | inr (j, n) ↦
          let rest : note_packages ((j, p.ref) ∷ seen) packages ≡ ok seen' = ground arith in
          ground (
            arith,
            note_packages-Noted packages ((j, p.ref) ∷ seen) rest kind e,
            kind_beq_iff j kind,
          )
    ]

require_kinds-seen :
    (seen : SeenKinds)
    → require_kinds seen kinds ≡ ok tt
    → (kind : PackageKind) → is_seen (seen_at seen kind) ≡ true
unfolding require_kinds
require_kinds-seen seen h bepinex = ground arith
require_kinds-seen seen h vcf = ground arith
require_kinds-seen seen h kindred_commands = ground arith
require_kinds-seen seen h hook_dots = ground arith
require_kinds-seen seen h satisvampory_mod = ground arith

note_packages-locked :
    (packages : List LockedPackage) (seen : SeenKinds) {seen' : SeenKinds}
    → note_packages seen packages ≡ ok seen'
    → All (λ p. is_locked p ≡ true) packages
unfolding note_packages
note_packages-locked [] seen h = tt
note_packages-locked (p ∷ packages) seen h =
    let (u, checked, noting) =
      >>=-eq-ok (guard (is_locked p) (bad_package p.ref))
        (λ u.
          note_kind seen p.ref (managed_package_kind p.ref)
          >>= (λ next. note_packages next packages))
        h in
    let (next, noted, rest) =
      >>=-eq-ok (note_kind seen p.ref (managed_package_kind p.ref))
        (λ next. note_packages next packages) noting in
    (ground arith, note_packages-locked packages next rest)

stands_in_order-refs :
    (order : List PackageRef) (packages : List LockedPackage)
    → stands_in_order order packages ≡ true
    → length order ≡ length packages
    → map (λ (p : LockedPackage). p.ref) packages ≡ order
stands_in_order-refs [] [] h e = refl
stands_in_order-refs [] (p ∷ packages) h e = ground arith
stands_in_order-refs (r ∷ order) [] h e = ground arith
stands_in_order-refs (r ∷ order) (p ∷ packages) h e =
    ap₂ ◌∷◌ ((ref_beq_iff p.ref r).0 (ground arith))
      (stands_in_order-refs order packages (ground arith) (ground arith))

-- The lock has a package of the kind, and the code that looks for it finds it.
abbrev HasKind : PackageLock → PackageKind → Type 0
HasKind lock kind = managed_package_kind (package_ref_for_kind lock.packages kind) ≡ some kind

order-length :
    (packages : Dependencies) (roots : List PackageRef) {order : List PackageRef}
    → canonical_package_order roots packages ≡ ok order
    → length order ≡ length packages
unfolding canonical_package_order
order-length packages roots h =
    let (w, first, second) =
      >>=-eq-ok (visit_all (visit packages (suc (length packages))) roots fresh_walk)
        (λ w. guard (length w.ordered == length packages) outside_roots >> ok w.ordered) h in
    ground arith

length-locked_dependencies :
    (packages : List LockedPackage) → length (locked_dependencies packages) ≡ length packages
length-locked_dependencies [] = refl
length-locked_dependencies (p ∷ packages) = ap suc (length-locked_dependencies packages)

-- The packages stand in an order of their graph.
check_order-IsCanonical :
    (lock : PackageLock)
    → check_order lock ≡ ok tt
    → IsCanonical
        (locked_dependencies lock.packages)
        lock.roots
        (map (λ (p : LockedPackage). p.ref) lock.packages)
unfolding check_order
check_order-IsCanonical lock h =
    let graph = locked_dependencies lock.packages in
    elim (Result-cases (canonical_package_order lock.roots graph)) [
      | inl (order, e) ↦
          subst (IsCanonical graph lock.roots)
            (sym (
              stands_in_order-refs order lock.packages (ground arith)
                (order-length graph lock.roots e ∙ length-locked_dependencies lock.packages)))
            (canonical_package_order-IsCanonical graph lock.roots e)
      | inr (e, k) ↦ ground arith
    ]

module _ (lock : PackageLock) (accepted : check_packages lock ≡ ok tt) where
  -- The kinds that the loop over the packages has noted.
  noted_kinds :
      (seen : SeenKinds) × (note_packages [] lock.packages ≡ ok seen)
      × (require_kinds seen kinds ≡ ok tt)
      × (has_roots seen lock.roots ≡ true)
  unfolding check_packages
  noted_kinds = elim (Result-cases (note_packages [] lock.packages)) [
    | inl (seen, e) ↦ elim (Result-cases (require_kinds seen kinds)) [
      | inl (u, k) ↦ (seen, e, ground arith, ground arith)
      | inr (r, k) ↦ ground arith
    ]
    | inr (r, e) ↦ ground arith
  ]

  kind-found :
      (kind : PackageKind) {r : PackageRef}
      → seen_at noted_kinds.0 kind ≡ some r
      → (package_ref_for_kind lock.packages kind ≡ r) × (managed_package_kind r ≡ some kind)
  kind-found kind e = elim (note_packages-Noted lock.packages [] noted_kinds.1 kind e) [
    | inl k ↦ ground arith
    | inr k ↦ k.1
  ]

  has_kind : (kind : PackageKind) → HasKind lock kind
  has_kind kind = elim (Option-cases (seen_at noted_kinds.0 kind)) [
    | inl e ↦ ground (arith, require_kinds-seen noted_kinds.0 noted_kinds.2 kind)
    | inr (r, e) ↦ ground (arith, kind-found kind e)
  ]

  root-kind :
      (kind : PackageKind) (root : PackageRef)
      → is_ref (seen_at noted_kinds.0 kind) root ≡ true
      → root ≡ package_ref_for_kind lock.packages kind
  root-kind kind root h = elim (Option-cases (seen_at noted_kinds.0 kind)) [
    | inl e ↦ ground arith
    | inr (r, e) ↦ ground (arith, kind-found kind e, ref_beq_iff r root)
  ]

  -- The two roots are the packages that the code finds for their kinds.
  roots-kinds :
      validate_managed_root_refs lock.roots ≡ ok tt
      → lock.roots
        ≡ package_ref_for_kind lock.packages kindred_commands
          ∷ package_ref_for_kind lock.packages satisvampory_mod
          ∷ []
  unfolding validate_managed_root_refs
  roots-kinds h = from lock.roots h noted_kinds.3
    where
      from :
          (roots : List PackageRef)
          → validate_managed_root_refs roots ≡ ok tt
          → has_roots noted_kinds.0 roots ≡ true
          → roots
            ≡ package_ref_for_kind lock.packages kindred_commands
              ∷ package_ref_for_kind lock.packages satisvampory_mod
              ∷ []
      from (first ∷ second ∷ []) k r =
          ap₂ ◌∷◌ (root-kind kindred_commands first (ground arith))
            (ap (λ s. s ∷ []) (root-kind satisvampory_mod second (ground arith)))
      from [] k r = ground arith
      from (first ∷ []) k r = ground arith
      from (first ∷ second ∷ third ∷ rest) k r = ground arith

module _ (hash : CanonicalPackageLock → Bytes) where
  pub record IsManagedLock (lock : PackageLock) : Type 0 where
    pub digest : lock.digest ≡ package_lock_digest hash lock
    pub locked : All (λ p. is_locked p ≡ true) lock.packages
    pub has_five : length lock.packages ≡ 5
    pub has_kinds : (kind : PackageKind) → HasKind lock kind
    pub roots :
        lock.roots
        ≡ package_ref_for_kind lock.packages kindred_commands
          ∷ package_ref_for_kind lock.packages satisvampory_mod
          ∷ []
    pub canonical :
        IsCanonical
          (locked_dependencies lock.packages)
          lock.roots
          (map (λ (p : LockedPackage). p.ref) lock.packages)

  -- An accepted lock has the digest of its graph and five packages with checked metadata, one that
  -- the code finds for each kind; its roots are those found for KindredCommands and Satisvampory; and
  -- its packages stand in an order of their graph, each once and after its dependencies.
  pub validate_managed_package_lock-IsManagedLock :
      (lock : PackageLock) → validate_managed_package_lock hash lock ≡ ok tt → IsManagedLock lock
  unfolding validate_managed_package_lock
  validate_managed_package_lock-IsManagedLock lock h = record {
    digest = ground (arith, bytes_beq_iff lock.digest (package_lock_digest hash lock));
    locked = note_packages-locked lock.packages [] (noted_kinds lock packages_ok).1;
    has_five = ground arith;
    has_kinds = has_kind lock packages_ok;
    roots = roots-kinds lock packages_ok roots_ok;
    canonical = check_order-IsCanonical lock order_ok;
  }
    where
      packages_ok : check_packages lock ≡ ok tt
      packages_ok = ground arith

      roots_ok : validate_managed_root_refs lock.roots ≡ ok tt
      roots_ok = ground arith

      order_ok : check_order lock ≡ ok tt
      order_ok = ground arith

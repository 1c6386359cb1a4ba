-- ===== src/Compiler/Compile/Canonical.antt =====
-- The canonical order of resource types: the same types, as often, whatever their order was.
use native.Mathlib.Omega.{arith}
use rogatio.Prelude.{
  ℕ, zero, suc, ◌+◌, ◌*◌, ◌≡◌, refl, ap, List, [], ◌∷◌, ◌++◌, if◌then◌else◌, Bool-cases, inl, inr,
}
use rogatio.Schema.Types.{ResourceType, type_rank, same_type, resource_types}
use rogatio.Compiler.Compile.{copies, canonical_from, canonical_resource_types}

-- How often a type stands in a list.
abbrev pub count : ResourceType → List ResourceType → ℕ
count t [] = 0
count t (type ∷ types) = let n = count t types in if same_type type t then suc n else n

count-append :
    (t : ResourceType) (xs ys : List ResourceType) → count t (xs ++ ys) ≡ count t xs + count t ys
count-append t [] ys = omega arith
count-append t (x ∷ xs) ys = ground (arith, count-append t xs ys)

count-copies :
    (t canonical : ResourceType) (types : List ResourceType)
    → count t (copies canonical types) ≡ (if same_type canonical t then count t types else 0)
unfolding copies
count-copies t canonical [] = ground arith
count-copies t canonical (type ∷ types) = ground (arith, count-copies t canonical types)

count-canonical_from :
    (t : ResourceType) (order types : List ResourceType)
    → count t (canonical_from order types) ≡ count t order * count t types
unfolding canonical_from
count-canonical_from t [] types = omega arith
count-canonical_from t (canonical ∷ more) types =
    let parts = count-append t (copies canonical types) (canonical_from more types) in
    let first = count-copies t canonical types in
    let later = count-canonical_from t more types in
    elim (Bool-cases (same_type canonical t)) [
      | inl same ↦ rw same (omega (arith, parts, rw same at first, later))
      | inr differ ↦ rw differ (omega (arith, parts, rw differ at first, later))
    ]

count-resource_types : (t : ResourceType) → count t resource_types ≡ 1
unfolding type_rank
count-resource_types ResourceType.main_frame = refl
count-resource_types _ = refl

-- The compiled list holds each resource type exactly as often as the rule does.
pub count-canonical_resource_types :
    (t : ResourceType) (types : List ResourceType)
    → count t (canonical_resource_types types) ≡ count t types
unfolding canonical_resource_types
count-canonical_resource_types t types = omega (
  arith,
  count-canonical_from t resource_types types,
  ap (λ (n : ℕ). n * count t types) (count-resource_types t),
)

abbrev replicate : ℕ → ResourceType → List ResourceType
replicate zero t = []
replicate (suc n) t = t ∷ replicate n t

copies-eq-replicate :
    (canonical : ResourceType) (types : List ResourceType)
    → copies canonical types ≡ replicate (count canonical types) canonical
unfolding copies
copies-eq-replicate canonical [] = refl
copies-eq-replicate canonical (type ∷ types) = ground (arith, copies-eq-replicate canonical types)

canonical_from_of_count :
    (order types others : List ResourceType)
    → ((t : ResourceType) → count t types ≡ count t others)
    → canonical_from order types ≡ canonical_from order others
unfolding canonical_from
canonical_from_of_count [] types others h = refl
canonical_from_of_count (canonical ∷ more) types others h = cc (
  copies-eq-replicate canonical types,
  copies-eq-replicate canonical others,
  h canonical,
  canonical_from_of_count more types others h,
)

-- Two rules that list the same resource types, as often, compile to the same list of them, and
-- that list holds each type exactly as often as the rule does.
pub canonical_resource_types_of_count :
    (types others : List ResourceType)
    → ((t : ResourceType) → count t types ≡ count t others)
    → (canonical_resource_types types ≡ canonical_resource_types others)
      × ((t : ResourceType) → count t (canonical_resource_types types) ≡ count t types)
unfolding canonical_resource_types
canonical_resource_types_of_count types others h = (
  canonical_from_of_count resource_types types others h,
  λ t. count-canonical_resource_types t types,
)

-- ===== src/Compiler/Matcher/Winner.antt =====
-- The winner of a request is the best enabled operation that matches, and there is one whenever
-- some enabled operation matches.
use mathlib.Core.List.{Memᴰ}
use rogatio.Prelude.{
  ◌≡◌, ◌≤◌, ◌<◌, refl, true, false, Bool, List, [], ◌∷◌, ◌⊎◌, inl, inr, arith, All, Bool-cases,
  if◌then◌else◌, String, filter,
}
use rogatio.Compiler.Types.{RogatioOperation}
use rogatio.Compiler.Matcher.{
  Platform, RuleMatchContext, WinnerResult, winner, no_winner, is_candidate, get_source_order,
  comes_first, pick, select_winning_operation,
}
use rogatio.Prelude.Sorting.{HeadIsFirst, sort-HeadIsFirst}

-- The order of precedence, in numbers.
abbrev pub Precedes : List RogatioOperation → RogatioOperation → RogatioOperation → Type 0
Precedes operations a b =
    (b.matcher.priority < a.matcher.priority)
    ⊎ ((a.matcher.priority ≡ b.matcher.priority)
        × (get_source_order a operations ≤ get_source_order b operations))

module _ (operations : List RogatioOperation) where
  comes_first-Precedes :
      (a b : RogatioOperation) → comes_first operations a b ≡ true → Precedes operations a b
  unfolding comes_first
  comes_first-Precedes a b h = ground arith

  comes_first-total :
      (a b : RogatioOperation)
      → (comes_first operations a b ≡ true) ⊎ (comes_first operations b a ≡ true)
  unfolding comes_first
  comes_first-total a b = ground arith

  comes_first-trans :
      (a b c : RogatioOperation)
      → comes_first operations a b ≡ true
      → comes_first operations b c ≡ true
      → comes_first operations a c ≡ true
  unfolding comes_first
  comes_first-trans a b c h k = ground arith

module _ (p : RogatioOperation → Bool) where
  mem_kept :
      (a x : RogatioOperation) (xs kept : List RogatioOperation) (b : Bool)
      → p x ≡ b
      → (Memᴰ a kept → Memᴰ a xs × (p a ≡ true))
      → Memᴰ a (if b then x ∷ kept else kept)
      → Memᴰ a (x ∷ xs) × (p a ≡ true)
  mem_kept a x xs kept true e ih (Memᴰ.head h) = (Memᴰ.head h, rw h e)
  mem_kept a x xs kept true e ih (Memᴰ.tail h) = (Memᴰ.tail (ih h).0, (ih h).1)
  mem_kept a x xs kept false e ih h = (Memᴰ.tail (ih h).0, (ih h).1)

  mem-filter :
      (a : RogatioOperation) (xs : List RogatioOperation)
      → Memᴰ a (filter p xs)
      → Memᴰ a xs × (p a ≡ true)
  mem-filter a [] h = elim h [ ]
  mem-filter a (x ∷ xs) h = mem_kept a x xs (filter p xs) (p x) refl (mem-filter a xs) h

  All-of_filter {κ} :
      (P : RogatioOperation → Type κ) (xs : List RogatioOperation)
      → All P (filter p xs)
      → All (λ x. p x ≡ true → P x) xs
  All-of_filter P [] h = tt
  All-of_filter P (x ∷ xs) h = elim (Bool-cases (p x)) [
    | inl kept ↦ let (here, later) = rw kept at h in (λ _. here, All-of_filter P xs later)
    | inr dropped ↦ (λ kept. cc, All-of_filter P xs (rw dropped at h))
  ]

  filter-eq-nil : (xs : List RogatioOperation) → filter p xs ≡ [] → All (λ x. p x ≡ false) xs
  filter-eq-nil [] h = tt
  filter-eq-nil (x ∷ xs) h = elim (Bool-cases (p x)) [
    | inl kept ↦ absurd (cc (rw kept at h))
    | inr dropped ↦ (dropped, filter-eq-nil xs (rw dropped at h))
  ]

-- What each result promises.
abbrev pub IsRight :
    Platform → List RogatioOperation → List String → RuleMatchContext → WinnerResult → Type 0
IsRight platform operations enabled context no_winner =
    All (λ op. is_candidate platform enabled context op ≡ false) operations
IsRight platform operations enabled context (winner best order) =
    Memᴰ best operations
    × (is_candidate platform enabled context best ≡ true)
    × (order ≡ get_source_order best operations)
    × All (λ op. is_candidate platform enabled context op ≡ true → Precedes operations best op)
        operations

All-imp :
    (P Q R : RogatioOperation → Type 0)
    → ((x : RogatioOperation) → P x → Q x)
    → (xs : List RogatioOperation) → All (λ x. R x → P x) xs
    → All (λ x. R x → Q x) xs
All-imp P Q R f [] h = tt
All-imp P Q R f (x ∷ xs) h = (λ r. f x (h.0 r), All-imp P Q R f xs h.1)

pick-IsRight :
    (platform : Platform) (operations : List RogatioOperation) (enabled : List String)
    (context : RuleMatchContext) (sorted : List RogatioOperation)
    → HeadIsFirst
        (comes_first operations)
        (comes_first-total operations)
        (comes_first-trans operations)
        (filter (is_candidate platform enabled context) operations)
        sorted
    → IsRight platform operations enabled context (pick operations sorted)
pick-IsRight platform operations enabled context [] h =
    filter-eq-nil (is_candidate platform enabled context) operations h
pick-IsRight platform operations enabled context (best ∷ rest) (member, first) =
    let test = is_candidate platform enabled context in
    let (listed, passes) = mem-filter test best operations member in
    (
      listed,
      passes,
      refl,
      All-imp _ _ _ (comes_first-Precedes operations best) operations
          (All-of_filter test (λ op. comes_first operations best op ≡ true) operations first),
    )

-- If a winner is returned, it is one of the operations, a candidate, returned with its place in
-- the source, and precedes every candidate: by a higher priority, or by the same priority and an
-- equal or earlier place. If none is returned, no operation is a candidate.
pub select_winning_operation-IsRight :
    (platform : Platform) (operations : List RogatioOperation) (enabled : List String)
    (context : RuleMatchContext)
    → IsRight platform operations enabled context
        (select_winning_operation platform operations enabled context)
unfolding select_winning_operation
select_winning_operation-IsRight platform operations enabled context =
    pick-IsRight platform operations enabled context _ (
      sort-HeadIsFirst (comes_first operations) (comes_first-total operations)
        (comes_first-trans operations) (filter (is_candidate platform enabled context) operations))

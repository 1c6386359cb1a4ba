-- ===== src/Prelude/Sorting.antt =====
-- `Array.prototype.sort`, which is stable, as an insertion sort, and the head of its result for a
-- total and transitive comparison.
use mathlib.Core.List.{Memᴰ, List, [], ◌∷◌}
use mathlib.Core.Path.{◌≡◌, refl}
use mathlib.Core.Bool.{Bool, true, false}
use mathlib.Core.Logic.{◌⊎◌, inl, inr}
use rogatio.Prelude.Lists.{All}
use rogatio.Prelude.Tests.{Bool-cases, if◌then◌else◌}

-- `first a b`: the comparator finds that `a` comes no later than `b`.
module _ {ℓ} {A : Type ℓ} (first : A → A → Bool) where
  unfoldable pub insert : A → List A → List A
  insert a [] = a ∷ []
  insert a (b ∷ sorted) =
      let later = insert a sorted in if first a b then a ∷ b ∷ sorted else b ∷ later

  unfoldable pub sort : List A → List A
  unfolding insert
  sort [] = []
  sort (a ∷ rest) = insert a (sort rest)

module _ {ℓ} {A : Type ℓ} (first : A → A → Bool)
    (total : (a b : A) → (first a b ≡ true) ⊎ (first b a ≡ true))
    (trans : (a b c : A) → first a b ≡ true → first b c ≡ true → first a c ≡ true) where
  abbrev pub IsFirstOf : A → List A → Type ℓ
  IsFirstOf a xs = Memᴰ a xs × All (λ x. first a x ≡ true) xs

  -- The head of the sorted list is in the list and comes before all of it.
  abbrev pub HeadIsFirst : List A → List A → Type ℓ
  HeadIsFirst xs [] = xs ≡ []
  HeadIsFirst xs (a ∷ rest) = IsFirstOf a xs

  first_refl : (a : A) → first a a ≡ true
  first_refl a = elim (total a a) [ inl h ↦ h | inr h ↦ h ]

  All-trans :
      (a b : A) (xs : List A)
      → first a b ≡ true
      → All (λ x. first b x ≡ true) xs
      → All (λ x. first a x ≡ true) xs
  All-trans a b [] h all = tt
  All-trans a b (x ∷ xs) h all = (trans a b x h all.0, All-trans a b xs h all.1)

  insert-HeadIsFirst :
      (a : A) (xs sorted : List A)
      → HeadIsFirst xs sorted
      → HeadIsFirst (a ∷ xs) (insert first a sorted)
  unfolding insert
  insert-HeadIsFirst a xs [] h = rw h (Memᴰ.head refl, (first_refl a, tt))
  insert-HeadIsFirst a xs (b ∷ sorted) h = elim (Bool-cases (first a b)) [
    | inl before ↦ rw before (Memᴰ.head refl, (first_refl a, All-trans a b xs before h.1))
    | inr after ↦ rw after (Memᴰ.tail h.0, (later after, h.1))
  ]
    where
      later : first a b ≡ false → first b a ≡ true
      later after = elim (total a b) [ inl before ↦ cc | inr h ↦ h ]

  pub sort-HeadIsFirst : (xs : List A) → HeadIsFirst xs (sort first xs)
  unfolding sort
  sort-HeadIsFirst [] = refl
  sort-HeadIsFirst (a ∷ xs) = insert-HeadIsFirst a xs (sort first xs) (sort-HeadIsFirst xs)

-- ===== src/Runtime/AddressPolicy/Resolved.antt =====
-- What `validateResolvedAddresses` lets through, and in which order.
use rogatio.Prelude.{
  ℕ, suc, ◌&&◌, ◌||◌, ◌<◌, ◌≤◌, All, ◌≡◌, refl, Bool, true, false, Option, none, some, List, [],
  ◌∷◌, ◌==◌, ltb, length, all, arith, Bool-cases, inl, inr, ◌⊎◌,
}
use mathlib.Core.List.{Permᴰ}
use rogatio.Prelude.Sorting.{insert, sort}
use rogatio.Prelude.Texts.{Text, text_lt, text_lt_asymm}
use rogatio.Runtime.AddressPolicy.{
  AddressClassification, public_address, ResolvedAddress, classify_address, is_public_class,
  is_public_address, address_comes_first, is_acceptable, validate_resolved_addresses,
}

module _ {ℓ} {A : Type ℓ} (first : A → A → Bool) where
  Perm-refl : (xs : List A) → Permᴰ xs xs
  Perm-refl [] = Permᴰ.nil
  Perm-refl (x ∷ xs) = Permᴰ.cons refl (Perm-refl xs)

  insert-Perm : (a : A) (xs : List A) → Permᴰ (insert first a xs) (a ∷ xs)
  unfolding insert
  insert-Perm a [] = Perm-refl (a ∷ [])
  insert-Perm a (b ∷ xs) = elim (Bool-cases (first a b)) [
    | inl before ↦ rw before (Perm-refl (a ∷ b ∷ xs))
    | inr after ↦ rw after (Permᴰ.trans (Permᴰ.cons refl (insert-Perm a xs)) (Permᴰ.swap refl refl))
  ]

  pub sort-Perm : (xs : List A) → Permᴰ (sort first xs) xs
  unfolding sort
  sort-Perm [] = Permᴰ.nil
  sort-Perm (a ∷ xs) = Permᴰ.trans (insert-Perm a (sort first xs)) (Permᴰ.cons refl (sort-Perm xs))

  -- Each element comes no later than the next one.
  abbrev IsBefore : A → List A → Type 0
  IsBefore a [] = Unit
  IsBefore a (b ∷ xs) = first a b ≡ true

  abbrev pub IsSorted : List A → Type 0
  IsSorted [] = Unit
  IsSorted (a ∷ xs) = IsBefore a xs × IsSorted xs

  module _ (total : (a b : A) → (first a b ≡ true) ⊎ (first b a ≡ true)) where
    later : (a b : A) → first a b ≡ false → first b a ≡ true
    later a b after = elim (total a b) [ inl before ↦ cc | inr h ↦ h ]

    insert-IsBefore :
        (a b : A) (xs : List A) → first b a ≡ true → IsBefore b xs → IsBefore b (insert first a xs)
    unfolding insert
    insert-IsBefore a b [] h before = h
    insert-IsBefore a b (c ∷ xs) h before = elim (Bool-cases (first a c)) [
      | inl ac ↦ rw ac h
      | inr ca ↦ rw ca before
    ]

    insert-IsSorted : (a : A) (xs : List A) → IsSorted xs → IsSorted (insert first a xs)
    unfolding insert
    insert-IsSorted a [] h = (tt, tt)
    insert-IsSorted a (b ∷ xs) (before, h) = elim (Bool-cases (first a b)) [
      | inl ab ↦ rw ab (ab, (before, h))
      | inr ba ↦ rw ba (insert-IsBefore a b xs (later a b ba) before, insert-IsSorted a xs h)
    ]

    pub sort-IsSorted : (xs : List A) → IsSorted (sort first xs)
    unfolding sort
    sort-IsSorted [] = tt
    sort-IsSorted (a ∷ xs) = insert-IsSorted a (sort first xs) (sort-IsSorted xs)

address_comes_first_total :
    (a b : ResolvedAddress) → (address_comes_first a b ≡ true) ⊎ (address_comes_first b a ≡ true)
unfolding address_comes_first
address_comes_first_total a b = elim (Bool-cases (address_comes_first a b)) [
  | inl h ↦ inl h
  | inr h ↦
      inr (ground (arith, h, text_lt_asymm a.address b.address, text_lt_asymm b.address a.address))
]

-- The lower family first, and in a family the text that is not after the other.
abbrev pub IsNoLater : ResolvedAddress → ResolvedAddress → Type 0
IsNoLater a b =
    (a.family < b.family) ⊎ ((a.family ≡ b.family) × (text_lt b.address a.address ≡ false))

abbrev pub AreInOrder : List ResolvedAddress → Type 0
AreInOrder [] = Unit
AreInOrder (a ∷ []) = Unit
AreInOrder (a ∷ b ∷ rest) = IsNoLater a b × AreInOrder (b ∷ rest)

address_comes_first-IsNoLater :
    (a b : ResolvedAddress) → address_comes_first a b ≡ true → IsNoLater a b
unfolding address_comes_first
address_comes_first-IsNoLater a b h = ground arith

AreInOrder-of_IsSorted :
    (addresses : List ResolvedAddress)
    → IsSorted address_comes_first addresses
    → AreInOrder addresses
AreInOrder-of_IsSorted [] h = tt
AreInOrder-of_IsSorted (a ∷ []) h = tt
AreInOrder-of_IsSorted (a ∷ b ∷ rest) h =
    (address_comes_first-IsNoLater a b (h.0), AreInOrder-of_IsSorted (b ∷ rest) (h.1))

family_and :
    (family : ℕ) (b : Bool)
    → ((family == 4 || family == 6) && b) ≡ true
    → ((family ≡ 4) ⊎ (family ≡ 6)) × (b ≡ true)
family_and family true h = (ground arith, refl)
family_and family false h = ground arith

module _ (is_ip : Text → ℕ) where
  -- An address of the internet, of one of the two families.
  abbrev pub MayBeUsed : ResolvedAddress → Type 0
  MayBeUsed resolved =
      ((resolved.family ≡ 4) ⊎ (resolved.family ≡ 6))
      × (classify_address is_ip (some resolved.address) ≡ public_address)

  is_public_class-public :
      (class : AddressClassification) → is_public_class class ≡ true → class ≡ public_address
  unfolding is_public_class
  is_public_class-public class h = ground arith

  MayBeUsed-of_acceptable :
      (resolved : ResolvedAddress) → is_acceptable is_ip resolved ≡ true → MayBeUsed resolved
  unfolding is_acceptable is_public_address
  MayBeUsed-of_acceptable resolved h =
      let both = family_and resolved.family (is_public_address is_ip (some resolved.address)) h in
      (both.0, is_public_class-public (classify_address is_ip (some resolved.address)) (both.1))

  acceptable-of_MayBeUsed :
      (resolved : ResolvedAddress) → MayBeUsed resolved → is_acceptable is_ip resolved ≡ true
  unfolding is_acceptable is_public_address is_public_class
  acceptable-of_MayBeUsed resolved h = rw (h.1) (ground (arith, h.0))

  All-of_all :
      (addresses : List ResolvedAddress)
      → all (is_acceptable is_ip) addresses ≡ true
      → All MayBeUsed addresses
  All-of_all [] h = tt
  All-of_all (a ∷ addresses) h = elim (Bool-cases (is_acceptable is_ip a)) [
    | inl good ↦ (MayBeUsed-of_acceptable a good, All-of_all addresses (ground (arith, h, good)))
    | inr bad ↦ absurd (ground (arith, h, bad))
  ]

  all-of_All :
      (addresses : List ResolvedAddress)
      → All MayBeUsed addresses
      → all (is_acceptable is_ip) addresses ≡ true
  all-of_All [] h = refl
  all-of_All (a ∷ addresses) h =
      ground (arith, acceptable-of_MayBeUsed a (h.0), all-of_All addresses (h.1))

  -- The promise, by the result.
  abbrev pub IsChecked : List ResolvedAddress → ℕ → Option (List ResolvedAddress) → Type 0
  IsChecked addresses max_addresses none =
      (length addresses ≡ 0)
      ⊎ ((suc max_addresses ≤ length addresses) ⊎ (All MayBeUsed addresses → ⊥))
  IsChecked addresses max_addresses (some checked) =
      ((1 ≤ length addresses) × (length addresses ≤ max_addresses))
      × (All MayBeUsed addresses × (Permᴰ checked addresses × AreInOrder checked))

  -- What `validateResolvedAddresses` answers is the addresses themselves, rearranged so that the
  -- lower family comes first and in a family no text comes after a greater one, when there are between one and the maximum of them and every one has family 4 or 6
  -- and a public address; and null only when one of these conditions fails.
  pub validate_resolved_addresses-IsChecked :
      (addresses : List ResolvedAddress) (max_addresses : ℕ)
      → IsChecked addresses max_addresses
          (validate_resolved_addresses is_ip addresses max_addresses)
  unfolding validate_resolved_addresses
  validate_resolved_addresses-IsChecked addresses max_addresses =
      elim (Bool-cases (length addresses == 0)) [
        | inl empty ↦ rw (empty, validate_resolved_addresses) (inl (ground (arith, empty)))
        | inr some_address ↦ elim (Bool-cases (ltb max_addresses (length addresses))) [
          | inl many ↦
              rw (some_address, validate_resolved_addresses, many)
                (inr (inl (ground (arith, many))))
          | inr few ↦ elim (Bool-cases (all (is_acceptable is_ip) addresses)) [
            | inr bad ↦
                rw (some_address, validate_resolved_addresses, few, bad)
                  (inr (inr (λ usable. cc (bad, all-of_All addresses usable))))
            | inl good ↦
                rw (some_address, validate_resolved_addresses, few, good)
                  (
                    (ground (arith, some_address), ground (arith, few)),
                    (
                      All-of_all addresses good,
                      (
                        sort-Perm address_comes_first addresses,
                        AreInOrder-of_IsSorted _
                            (sort-IsSorted address_comes_first address_comes_first_total addresses),
                      ),
                    ),
                  )
          ]
        ]
      ]

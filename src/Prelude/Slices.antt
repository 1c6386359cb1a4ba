-- ===== src/Prelude/Slices.antt =====
-- Lists that are cut and joined.
use Prim.Native.Nat.{ℕ, zero, suc, ◌-◌, ◌≤◌}
use mathlib.Core.Path.{◌≡◌, refl, ap, ◌∙◌}
use mathlib.Core.List.{List, [], ◌∷◌, ◌++◌}
use native.Mathlib.Omega.{arith}
use rogatio.Prelude.Lists.{length, take, drop}

pub length-drop {ℓ} : {A : Type ℓ} (n : ℕ) (xs : List A) → length (drop n xs) ≡ length xs - n
length-drop zero xs = omega arith
length-drop (suc n) [] = omega arith
length-drop (suc n) (x ∷ xs) = omega (arith, length-drop n xs)

zero_not_ge : (n : ℕ) → suc n ≤ 0 → ⊥
zero_not_ge n h = omega (arith, h)

pub drop-append {ℓ} :
    {A : Type ℓ} (n : ℕ) (xs ys : List A) → n ≤ length xs → drop n (xs ++ ys) ≡ drop n xs ++ ys
drop-append zero xs ys h = refl
drop-append (suc n) [] ys h = absurd (zero_not_ge n h)
drop-append (suc n) (x ∷ xs) ys h = drop-append n xs ys (omega (arith, h))

pub take-append {ℓ} :
    {A : Type ℓ} (n : ℕ) (xs ys : List A) → n ≤ length xs → take n (xs ++ ys) ≡ take n xs
take-append zero xs ys h = refl
take-append (suc n) [] ys h = absurd (zero_not_ge n h)
take-append (suc n) (x ∷ xs) ys h = ap (λ zs. x ∷ zs) (take-append n xs ys (omega (arith, h)))

pub drop_beyond {ℓ} :
    {A : Type ℓ} (n : ℕ) (xs ys : List A)
    → length xs ≤ n
    → drop n (xs ++ ys) ≡ drop (n - length xs) ys
drop_beyond n [] ys h = ap (λ k. drop k ys) (omega arith)
drop_beyond zero (x ∷ xs) ys h = absurd (zero_not_ge (length xs) h)
drop_beyond (suc n) (x ∷ xs) ys h =
    drop_beyond n xs ys (omega (arith, h)) ∙ ap (λ k. drop k ys) (omega arith)

pub append_nil {ℓ} : {A : Type ℓ} (xs : List A) → xs ++ [] ≡ xs
append_nil [] = refl
append_nil (x ∷ xs) = ap (λ ys. x ∷ ys) (append_nil xs)

pub drop_all {ℓ} : {A : Type ℓ} (n : ℕ) (xs : List A) → length xs ≤ n → drop n xs ≡ []
drop_all zero [] h = refl
drop_all zero (x ∷ xs) h = absurd (zero_not_ge (length xs) h)
drop_all (suc n) [] h = refl
drop_all (suc n) (x ∷ xs) h = drop_all n xs (omega (arith, h))

pub append_assoc {ℓ} : {A : Type ℓ} (xs ys zs : List A) → (xs ++ ys) ++ zs ≡ xs ++ (ys ++ zs)
append_assoc [] ys zs = refl
append_assoc (x ∷ xs) ys zs = ap (λ rest. x ∷ rest) (append_assoc xs ys zs)

-- The parts of a list, joined.
abbrev pub concat {ℓ} : {A : Type ℓ} → List (List A) → List A
concat [] = []
concat (xs ∷ parts) = xs ++ concat parts

pub take_all {ℓ} : {A : Type ℓ} (xs : List A) → take (length xs) xs ≡ xs
take_all [] = refl
take_all (x ∷ xs) = ap (λ ys. x ∷ ys) (take_all xs)

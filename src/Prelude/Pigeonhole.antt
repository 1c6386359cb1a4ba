-- ===== src/Prelude/Pigeonhole.antt =====
-- Distinct numbers below a bound are no more than the bound, and as many as the bound are all of
-- them.
use rogatio.Prelude.Tests.{◌==◌, Bool-cases, ==_iff}
use rogatio.Prelude.Lists.{length, any, filter, All}
use Prim.Native.Nat.{ℕ, zero, suc, ◌≤◌, ◌<◌}
use mathlib.Core.Path.{◌≡◌, refl, subst}
use mathlib.Core.Bool.{Bool, true, false, not}
use mathlib.Core.Logic.{inl, inr}
use mathlib.Core.List.{List, [], ◌∷◌}
use native.Mathlib.Omega.{arith}

abbrev pub has : ℕ → List ℕ → Bool
has n ks = any (λ k. k == n) ks

abbrev pub AreDistinct : List ℕ → Type 0
AreDistinct [] = Unit
AreDistinct (k ∷ ks) = (has k ks ≡ false) × AreDistinct ks

abbrev pub AreBelow : ℕ → List ℕ → Type 0
AreBelow n ks = All (λ k. k < n) ks

abbrev without : ℕ → List ℕ → List ℕ
without n ks = filter (λ k. not (k == n)) ks

has-without : (j n : ℕ) (ks : List ℕ) → has j ks ≡ false → has j (without n ks) ≡ false
has-without j n [] h = refl
has-without j n (k ∷ ks) h = ground (arith, has-without j n ks)

AreDistinct-without : (n : ℕ) (ks : List ℕ) → AreDistinct ks → AreDistinct (without n ks)
AreDistinct-without n [] d = tt
AreDistinct-without n (k ∷ ks) d = elim (Bool-cases (k == n)) [
  | inl same ↦ rw same (AreDistinct-without n ks (d.1))
  | inr other ↦ rw other (has-without k n ks (d.0), AreDistinct-without n ks (d.1))
]

AreBelow-without : (n : ℕ) (ks : List ℕ) → AreBelow (suc n) ks → AreBelow n (without n ks)
AreBelow-without n [] b = tt
AreBelow-without n (k ∷ ks) b = elim (Bool-cases (k == n)) [
  | inl same ↦ rw same (AreBelow-without n ks (b.1))
  | inr other ↦ rw other (ground (arith, b.0), AreBelow-without n ks (b.1))
]

without_of_absent : (n : ℕ) (ks : List ℕ) → has n ks ≡ false → length (without n ks) ≡ length ks
without_of_absent n [] h = refl
without_of_absent n (k ∷ ks) h = ground (arith, without_of_absent n ks)

length-without : (n : ℕ) (ks : List ℕ) → AreDistinct ks → length ks ≤ suc (length (without n ks))
length-without n [] d = omega arith
length-without n (k ∷ ks) d = elim (Bool-cases (k == n)) [
  | inl same ↦ rw same (
      omega
        (arith, without_of_absent n ks (subst (λ j. has j ks ≡ false) ((==_iff k n).0 same) (d.0))))
  | inr other ↦ rw other (omega (arith, length-without n ks (d.1)))
]

length-AreBelow : (n : ℕ) (ks : List ℕ) → AreDistinct ks → AreBelow n ks → length ks ≤ n
length-AreBelow zero [] d b = omega arith
length-AreBelow zero (k ∷ ks) d b = absurd (omega (arith, b.0))
length-AreBelow (suc n) ks d b = omega (
  arith,
  length-without n ks d,
  length-AreBelow n (without n ks) (AreDistinct-without n ks d) (AreBelow-without n ks b),
)

pub has_of_full :
    (n : ℕ) (ks : List ℕ)
    → AreDistinct ks
    → AreBelow n ks
    → length ks ≡ n
    → (i : ℕ) → i < n
    → has i ks ≡ true
has_of_full n ks d b full i below = elim (Bool-cases (has i ks)) [
  | inl there ↦ there
  | inr absent ↦ absurd (omega (arith, length-AreBelow n (i ∷ ks) (absent, d) (below, b), full))
]

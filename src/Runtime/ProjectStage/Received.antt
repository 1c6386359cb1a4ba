-- ===== src/Runtime/ProjectStage/Received.antt =====
-- packages/runtime/src/native-framing.ts: the parts that a stage has received.
use rogatio.Prelude.{
  ℕ, zero, suc, ◌+◌, ◌<◌, ◌≡◌, refl, sym, ◌∙◌, ap, true, ◌||◌, some, List, [], ◌∷◌, inl, inr, arith,
  ◌==◌, length, get_elem?, Bool-cases,
}
use rogatio.Prelude.Pigeonhole.{has, AreDistinct, AreBelow, has_of_full}
use rogatio.Runtime.Framing.{Bytes}
use rogatio.Runtime.ProjectStage.{part_at, has_part}
use rogatio.Runtime.ProjectStage.Assembly.{HoldsFrom}

abbrev pub indices : List (ℕ × Bytes) → List ℕ
indices [] = []
indices ((i, part) ∷ parts) = i ∷ indices parts

length-indices : (parts : List (ℕ × Bytes)) → length (indices parts) ≡ length parts
length-indices [] = refl
length-indices ((i, part) ∷ parts) = ap (λ n. suc n) (length-indices parts)

pub has_part-indices :
    (index : ℕ) (parts : List (ℕ × Bytes)) → has_part index parts ≡ has index (indices parts)
unfolding has_part
has_part-indices index [] = refl
has_part-indices index ((i, part) ∷ parts) =
    ap (λ b. i == index || b) (has_part-indices index parts)

part_at_of_has :
    (index : ℕ) (parts : List (ℕ × Bytes))
    → has index (indices parts) ≡ true
    → (part : Bytes) × (part_at index parts ≡ some part)
unfolding part_at
part_at_of_has index [] h = cc
part_at_of_has index ((i, part) ∷ parts) h = elim (Bool-cases (i == index)) [
  | inl same ↦ (part, rw same refl)
  | inr other ↦ rw other (part_at_of_has index parts (rw other at h))
]

-- What a stage has received: parts at distinct indices below the count.
pub record IsReceived (count : ℕ) (parts : List (ℕ × Bytes)) : Type 0 where
  pub distinct : AreDistinct (indices parts)
  pub below : AreBelow count (indices parts)

HoldsFrom-of_all :
    (n index : ℕ) (received : List (ℕ × Bytes))
    → ((i : ℕ) → i < index + n → (part : Bytes) × (part_at i received ≡ some part))
    → (parts : List Bytes) × (length parts ≡ n) × HoldsFrom index parts received
HoldsFrom-of_all zero index received all = ([], refl, tt)
HoldsFrom-of_all (suc n) index received all =
    let first = all index (omega arith) in
    let rest = HoldsFrom-of_all n (suc index) received (λ i below. all i (omega (arith, below))) in
    (first.0 ∷ rest.0, ap (λ m. suc m) (rest.1), (first.1, rest.2))

pub part_at_of_complete :
    (count : ℕ) (received : List (ℕ × Bytes))
    → IsReceived count received
    → length received ≡ count
    → (i : ℕ) → i < count
    → (part : Bytes) × (part_at i received ≡ some part)
part_at_of_complete count received good complete i below = part_at_of_has i received (
    has_of_full count (indices received) good.distinct good.below
      (length-indices received ∙ complete) i below)

-- As many parts as announced are the parts of a list of that length.
pub HoldsFrom-of_complete :
    (count : ℕ) (received : List (ℕ × Bytes))
    → IsReceived count received
    → length received ≡ count
    → (parts : List Bytes) × (length parts ≡ count) × HoldsFrom 0 parts received
HoldsFrom-of_complete count received good complete =
    HoldsFrom-of_all count 0 received
      (λ i below. part_at_of_complete count received good complete i (omega (arith, below)))

pub part_at-HoldsFrom :
    (parts : List Bytes) (index i : ℕ) (part : Bytes) (received : List (ℕ × Bytes))
    → HoldsFrom index parts received
    → part_at (index + i) received ≡ some part
    → i < length parts
    → get_elem? parts i ≡ some part
part_at-HoldsFrom [] index i part received holds found below = absurd (omega (arith, below))
part_at-HoldsFrom (p ∷ parts) index zero part received holds found below =
    sym (holds.0) ∙ ap (λ n. part_at n received) (plus_zero index) ∙ found
  where
    plus_zero : (n : ℕ) → n ≡ n + 0
    plus_zero n = omega arith
part_at-HoldsFrom (p ∷ parts) index (suc i) part received holds found below =
    part_at-HoldsFrom parts (suc index) i part received (holds.1)
      (ap (λ n. part_at n received) (plus_suc index i) ∙ found) (omega (arith, below))
  where
    plus_suc : (n m : ℕ) → suc n + m ≡ n + suc m
    plus_suc n m = omega arith

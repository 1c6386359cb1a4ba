-- ===== src/Runtime/AddressPolicy/Prefix.antt =====
-- The rounds of `prefixMatches`.
use rogatio.Prelude.{
  ℕ, zero, suc, ◌+◌, ◌-◌, ◌≤◌, ◌≡◌, refl, min, List, ◌==◌, arith, Bool-cases, inl, inr,
}
use rogatio.Runtime.AddressPolicy.{prefix_from}

-- As many rounds as bits remain are enough: any two such numbers of rounds agree.
pub prefix_from_enough :
    (fuel more : ℕ) (value prefix : List ℕ) (index remaining : ℕ)
    → remaining ≤ fuel
    → remaining ≤ more
    → prefix_from fuel value prefix index remaining ≡ prefix_from more value prefix index remaining
unfolding prefix_from
prefix_from_enough zero zero value prefix index remaining h k = refl
prefix_from_enough zero (suc more) value prefix index remaining h k = ground (arith, h)
prefix_from_enough (suc fuel) zero value prefix index remaining h k = ground (arith, k)
prefix_from_enough (suc fuel) (suc more) value prefix index remaining h k =
    elim (Bool-cases (remaining == 0)) [
      | inl done ↦ rw done refl
      | inr some_bit ↦
          let rest =
            prefix_from_enough fuel more value prefix (index + 1) (remaining - min remaining 16)
              (ground (arith, some_bit, h)) (ground (arith, some_bit, k)) in
          rw (some_bit, rest) refl
    ]

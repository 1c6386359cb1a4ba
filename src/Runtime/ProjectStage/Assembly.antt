-- ===== src/Runtime/ProjectStage/Assembly.antt =====
-- packages/runtime/src/native-framing.ts: `commitPolicyStage` on parts that are all there.
use rogatio.Prelude.{
  ℕ, zero, suc, ◌+◌, ◌≡◌, refl, sym, ◌∙◌, ap, false, some, List, [], ◌∷◌, ◌++◌, inl, inr, arith,
  ◌==◌, if◌then◌else◌, length, Bool-cases, length-append, ==_iff,
}
use rogatio.Prelude.Slices.{concat, append_assoc}
use rogatio.Runtime.Framing.{Bytes}
use rogatio.Runtime.Results.{ok, failed, policy_byte_count_mismatch}
use rogatio.Runtime.ProjectStage.{
  PolicyStageState, part_at, is_late, total_from, zeros, write_at, assemble_from, assembled_of,
  commit_policy_stage,
}

-- The stage holds these parts from an index on.
abbrev pub HoldsFrom : ℕ → List Bytes → List (ℕ × Bytes) → Type 0
HoldsFrom index [] received = Unit
HoldsFrom index (part ∷ parts) received =
    (part_at index received ≡ some part) × HoldsFrom (suc index) parts received

total_from-HoldsFrom :
    (parts : List Bytes) (index total : ℕ) (received : List (ℕ × Bytes))
    → HoldsFrom index parts received
    → total_from (length parts) index total received ≡ some (total + length (concat parts))
unfolding total_from
total_from-HoldsFrom [] index total received holds = ap some (omega arith)
total_from-HoldsFrom (part ∷ parts) index total received holds =
    rw (total_from, holds.0)
      (total_from-HoldsFrom parts (suc index) (total + length part) received (holds.1)
        ∙ ap some (omega (arith, length-append part (concat parts))))

write_nothing : (array : Bytes) → write_at zero [] array ≡ array
unfolding write_at
write_nothing [] = refl
write_nothing (x ∷ array) = refl

-- Writing a part over the zeros that follow what has been written.
write_at_front :
    (part : Bytes) (left : ℕ) → write_at zero part (zeros (length part + left)) ≡ part ++ zeros left
unfolding write_at zeros
write_at_front [] left = write_nothing (zeros (0 + left)) ∙ ap zeros (omega arith)
write_at_front (byte ∷ part) left =
    ap (λ n. write_at zero (byte ∷ part) (zeros n)) (suc_plus (length part) left)
    ∙ ap (λ rest. byte ∷ rest) (write_at_front part left)
  where
    suc_plus : (n m : ℕ) → suc n + m ≡ suc (n + m)
    suc_plus n m = omega arith

write_at_end :
    (done part : Bytes) (left : ℕ)
    → write_at (length done) part (done ++ zeros (length part + left))
      ≡ done ++ (part ++ zeros left)
unfolding write_at
write_at_end [] part left = write_at_front part left
write_at_end (x ∷ done) part left = ap (λ rest. x ∷ rest) (write_at_end done part left)

assemble_from-HoldsFrom :
    (parts : List Bytes) (index : ℕ) (done : Bytes) (received : List (ℕ × Bytes))
    → HoldsFrom index parts received
    → assemble_from
        (length parts)
        index
        (length done)
        (done ++ zeros (length (concat parts)))
        received
      ≡ some (done ++ concat parts)
unfolding assemble_from zeros
assemble_from-HoldsFrom [] index done received holds = refl
assemble_from-HoldsFrom (part ∷ parts) index done received holds =
    rw (assemble_from, holds.0)
      (ap
          (λ array.
            assemble_from (length parts) (suc index) (length done + length part) array received)
          written
        ∙ ap
            (λ offset.
              assemble_from (length parts) (suc index) offset
                ((done ++ part) ++ zeros (length (concat parts))) received)
            (sym (length-append done part))
        ∙ assemble_from-HoldsFrom parts (suc index) (done ++ part) received (holds.1)
        ∙ ap some (append_assoc done part (concat parts)))
  where
    written :
        write_at (length done) part (done ++ zeros (length (part ++ concat parts)))
        ≡ (done ++ part) ++ zeros (length (concat parts))
    written =
        ap (λ n. write_at (length done) part (done ++ zeros n)) (length-append part (concat parts))
        ∙ write_at_end done part (length (concat parts))
        ∙ sym (append_assoc done part (zeros (length (concat parts))))

assembled_of-HoldsFrom :
    (parts : List Bytes) (state : PolicyStageState)
    → length parts ≡ state.part_count
    → HoldsFrom 0 parts state.received_parts
    → assembled_of state (some (0 + length (concat parts))) ≡ (
        if length (concat parts) == state.total_bytes
        then ok (concat parts)
        else failed policy_byte_count_mismatch)
unfolding assembled_of
assembled_of-HoldsFrom parts state same holds =
    elim (Bool-cases (length (concat parts) == state.total_bytes)) [
      | inl exact ↦
          rw
            (
              assembled_of,
              no_more,
              exact,
              ← same,
              assemble_from-HoldsFrom parts 0 [] state.received_parts holds,
            )
            refl
      | inr other ↦ rw (assembled_of, no_more, other) refl
    ]
  where
    no_more : 0 + length (concat parts) ≡ length (concat parts)
    no_more = omega arith

-- In time, with as many parts as announced and the parts of some text at the numbers from 0 on, the
-- commit answers the text, or the mismatch of its length.
pub commit_policy_stage-HoldsFrom :
    (parts : List Bytes) (state : PolicyStageState) (now : ℕ)
    → is_late state now ≡ false
    → length state.received_parts ≡ state.part_count
    → length parts ≡ state.part_count
    → HoldsFrom 0 parts state.received_parts
    → commit_policy_stage state now ≡ (
        if length (concat parts) == state.total_bytes
        then ok (concat parts)
        else failed policy_byte_count_mismatch)
unfolding commit_policy_stage
commit_policy_stage-HoldsFrom parts state now timely complete same holds =
    rw
      (
        commit_policy_stage,
        timely,
        (==_iff (length state.received_parts) state.part_count).1 complete,
      )
      (ap (λ count. assembled_of state (total_from count 0 0 state.received_parts)) (sym same)
        ∙ ap (assembled_of state) (total_from-HoldsFrom parts 0 0 state.received_parts holds)
        ∙ assembled_of-HoldsFrom parts state same holds)

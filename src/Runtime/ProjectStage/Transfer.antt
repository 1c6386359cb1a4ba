-- ===== src/Runtime/ProjectStage/Transfer.antt =====
-- packages/runtime/src/project-stage.ts: a whole transfer, from the begin of a stage to its end.
use rogatio.Prelude.{
  ℕ, ◌<◌, ◌≡◌, refl, sym, ◌∙◌, ap, true, false, some, List, [], ◌∷◌, ◌++◌, inl, inr, arith, ◌==◌,
  length, get_elem?, All, Bool-cases, ==_iff,
}
use mathlib.Core.Path.{subst}
use rogatio.Prelude.Texts.{Text, codes}
use rogatio.Prelude.Slices.{concat}
use rogatio.Runtime.Capability.{text_eq}
use rogatio.Runtime.Framing.{Bytes}
use rogatio.Runtime.Results.{
  RuntimeError, RuntimeResult, ok, failed, policy_stage_timeout, policy_incomplete,
}
use rogatio.Runtime.ProjectStage.{
  PolicyStageState, part_at, is_late, create_policy_stage_state, commit_policy_stage, check_digest,
  finish_project_stage,
}
use rogatio.Runtime.ProjectStage.Assembly.{HoldsFrom, commit_policy_stage-HoldsFrom}
use rogatio.Runtime.ProjectStage.Received.{IsReceived, HoldsFrom-of_complete, part_at-HoldsFrom}
use rogatio.Runtime.ProjectStage.Receive.{Arrival, receive, receive-HasReceived}

pub create-IsReceived : (count : ℕ) → IsReceived count []
create-IsReceived count = record { distinct = tt; below = tt }

commit_policy_stage_late :
    (st : PolicyStageState) (now : ℕ)
    → is_late st now ≡ true
    → commit_policy_stage st now ≡ failed policy_stage_timeout
unfolding commit_policy_stage
commit_policy_stage_late st now late = rw (commit_policy_stage, late) refl

commit_policy_stage_incomplete :
    (st : PolicyStageState) (now : ℕ)
    → (length st.received_parts == st.part_count) ≡ false
    → (error : RuntimeError) × (commit_policy_stage st now ≡ failed error)
unfolding commit_policy_stage
commit_policy_stage_incomplete st now less = elim (Bool-cases (is_late st now)) [
  | inl late ↦ (policy_stage_timeout, commit_policy_stage_late st now late)
  | inr timely ↦ (policy_incomplete, not_all st now timely less)
]
  where
    not_all :
        (st : PolicyStageState) (now : ℕ)
        → is_late st now ≡ false
        → (length st.received_parts == st.part_count) ≡ false
        → commit_policy_stage st now ≡ failed policy_incomplete
    not_all st now timely less = rw (commit_policy_stage, timely, less) refl

module _ (sha256_hex : Bytes → Text) where
  abbrev pub the_digest : Bytes → Text
  the_digest bytes = codes "sha256:" ++ sha256_hex bytes

  -- What a stage that holds the parts answers in the end.
  pub IsFinished : List Bytes → PolicyStageState → RuntimeResult Bytes → Type 0
  IsFinished parts st (failed error) = Unit
  IsFinished parts st (ok bytes) =
      (concat parts ≡ bytes)
      × (length (concat parts) ≡ st.total_bytes)
      × (text_eq (the_digest bytes) st.expected_digest ≡ true)

  check_digest-IsFinished :
      (parts : List Bytes) (st : PolicyStageState)
      → length (concat parts) ≡ st.total_bytes
      → IsFinished parts st (check_digest sha256_hex st (ok (concat parts)))
  unfolding IsFinished check_digest
  check_digest-IsFinished parts st exact =
      elim (Bool-cases (text_eq (the_digest (concat parts)) st.expected_digest)) [
        | inl right ↦ rw right (refl, exact, right)
        | inr wrong ↦ rw wrong tt
      ]

  finish-eq :
      (st : PolicyStageState) (now : ℕ)
      → finish_project_stage sha256_hex st now
        ≡ check_digest sha256_hex st (commit_policy_stage st now)
  unfolding finish_project_stage
  finish-eq st now = refl

  pub finish_project_stage-IsFinished :
      (parts : List Bytes) (st : PolicyStageState) (now : ℕ)
      → length st.received_parts ≡ st.part_count
      → length parts ≡ st.part_count
      → HoldsFrom 0 parts st.received_parts
      → IsFinished parts st (finish_project_stage sha256_hex st now)
  unfolding IsFinished check_digest
  finish_project_stage-IsFinished parts st now complete same holds =
      subst (IsFinished parts st) (sym (finish-eq st now)) (elim (Bool-cases (is_late st now)) [
        | inl late ↦ rw (commit_policy_stage_late st now late) tt
        | inr timely ↦ elim (Bool-cases (length (concat parts) == st.total_bytes)) [
          | inl exact ↦
              rw (commit_policy_stage-HoldsFrom parts st now timely complete same holds, exact)
                (check_digest-IsFinished parts st
                  ((==_iff (length (concat parts)) st.total_bytes).0 exact))
          | inr other ↦
              rw (commit_policy_stage-HoldsFrom parts st now timely complete same holds, other) tt
        ]
      ])

  -- A stage that ends with a result has as many parts as announced.
  complete-of_finish :
      (st : PolicyStageState) (now : ℕ) (bytes : Bytes)
      → finish_project_stage sha256_hex st now ≡ ok bytes
      → length st.received_parts ≡ st.part_count
  unfolding check_digest
  complete-of_finish st now bytes finished =
      elim (Bool-cases (length st.received_parts == st.part_count)) [
        | inl complete ↦ (==_iff (length st.received_parts) st.part_count).0 complete
        | inr less ↦
            let refused = commit_policy_stage_incomplete st now less in
            absurd (
              not_ok (refused.0)
                (sym (finish-eq st now ∙ ap (check_digest sha256_hex st) (refused.1)) ∙ finished))
      ]
    where
      not_ok : (error : RuntimeError) → failed error ≡ ok bytes → ⊥
      not_ok error h = cc

  -- A stage of well received parts that ends with bytes has the parts of just these bytes.
  pub finish_project_stage-ok :
      (st : PolicyStageState) (now : ℕ) (bytes : Bytes)
      → IsReceived st.part_count st.received_parts
      → finish_project_stage sha256_hex st now ≡ ok bytes
      → (parts : List Bytes) × (length parts ≡ st.part_count)
        × HoldsFrom 0 parts st.received_parts
        × (concat parts ≡ bytes)
        × (length bytes ≡ st.total_bytes)
        × (text_eq (the_digest bytes) st.expected_digest ≡ true)
  unfolding IsFinished
  finish_project_stage-ok st now bytes good finished =
      let complete = complete-of_finish st now bytes finished in
      let held = HoldsFrom-of_complete st.part_count st.received_parts good complete in
      let end =
        subst (IsFinished (held.0) st) finished
          (finish_project_stage-IsFinished (held.0) st now complete (held.1) (held.2)) in
      (held.0, held.1, held.2, end.0, ap length (sym (end.0)) ∙ end.1, end.2)

  arrived_parts :
      (parts : List Bytes) (arrivals : List Arrival) (received : List (ℕ × Bytes))
      → HoldsFrom 0 parts received
      → All (λ arrival. part_at arrival.index received ≡ some arrival.part) arrivals
      → All (λ arrival. arrival.index < length parts) arrivals
      → All (λ arrival. get_elem? parts arrival.index ≡ some arrival.part) arrivals
  arrived_parts parts [] received holds there below = tt
  arrived_parts parts (arrival ∷ arrivals) received holds there below = (
    part_at-HoldsFrom parts 0 arrival.index arrival.part received holds
        (ap (λ i. part_at i received) (omega arith) ∙ there.0) (below.0),
    arrived_parts parts arrivals received holds (there.1) (below.1),
  )

  -- When parts were received into a new stage and the stage ended with bytes, the bytes are the
  -- parts joined in the order of their numbers, whatever the order in which they arrived, as many
  -- as announced, of the announced length and with the announced digest.
  pub finish_project_stage-receive :
      (total count : ℕ) (digest : Text) (start now : ℕ) (arrivals : List Arrival)
      (st : PolicyStageState) (bytes : Bytes)
      → receive (create_policy_stage_state total count digest start) arrivals ≡ ok st
      → finish_project_stage sha256_hex st now ≡ ok bytes
      → (parts : List Bytes) × (length parts ≡ count)
        × (concat parts ≡ bytes)
        × (length bytes ≡ total)
        × (text_eq (codes "sha256:" ++ sha256_hex bytes) digest ≡ true)
        × All (λ arrival. get_elem? parts arrival.index ≡ some arrival.part) arrivals
  unfolding create_policy_stage_state
  finish_project_stage-receive total count digest start now arrivals st bytes received finished =
      let done =
        receive-HasReceived (create_policy_stage_state total count digest start) st arrivals
          (create-IsReceived count) received in
      let end = finish_project_stage-ok st now bytes done.good finished in
      (
        end.0,
        end.1 ∙ done.same_count,
        end.3,
        end.4 ∙ done.same_total,
        rw (← done.same_digest) (end.5),
        arrived_parts (end.0) arrivals st.received_parts (end.2) done.arrived
            (subst (λ n. All (λ arrival. arrival.index < n) arrivals) (sym (end.1)) done.in_range),
      )

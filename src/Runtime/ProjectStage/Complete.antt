-- ===== src/Runtime/ProjectStage/Complete.antt =====
-- packages/runtime/src/project-stage.ts: a transfer in which every part arrives in time.
use rogatio.Prelude.{
  ℕ, zero, suc, ◌+◌, ◌≤◌, ◌<◌, ◌≡◌, refl, sym, ◌∙◌, ap, true, false, some, List, [], ◌∷◌, ◌++◌, inl,
  inr, arith, ◌==◌, length, get_elem?, All, Bool-cases, ==_iff,
}
use rogatio.Prelude.Texts.{Text, codes}
use rogatio.Prelude.Slices.{concat}
use rogatio.Prelude.Pigeonhole.{has, AreDistinct}
use rogatio.Runtime.Capability.{text_eq}
use rogatio.Runtime.Framing.{Bytes}
use rogatio.Runtime.Results.{ok}
use rogatio.Runtime.ProjectStage.{
  PolicyStageState, part_at, has_part, is_late, create_policy_stage_state, check_digest,
  finish_project_stage, native_policy_stage_timeout_ms,
}
use rogatio.Runtime.ProjectStage.Assembly.{HoldsFrom, commit_policy_stage-HoldsFrom}
use rogatio.Runtime.ProjectStage.Receive.{
  Arrival, receive, with_part, IsWelcome, receive_welcome, receive-HasReceived,
}
use rogatio.Runtime.ProjectStage.Received.{part_at_of_complete}
use rogatio.Runtime.ProjectStage.Transfer.{create-IsReceived}

-- All received parts are those of the list.
abbrev AreParts : List Bytes → List (ℕ × Bytes) → Type 0
AreParts parts received = All (λ entry. get_elem? parts (entry.0) ≡ some (entry.1)) received

part_at-AreParts :
    (parts : List Bytes) (received : List (ℕ × Bytes)) (i : ℕ) (part : Bytes)
    → AreParts parts received
    → part_at i received ≡ some part
    → get_elem? parts i ≡ some part
unfolding part_at
part_at-AreParts parts [] i part are found = cc
part_at-AreParts parts ((j, p) ∷ received) i part are found = elim (Bool-cases (j == i)) [
  | inl same ↦ rw (← (==_iff j i).0 same) (are.0) ∙ (rw same at found)
  | inr other ↦ part_at-AreParts parts received i part (are.1) (rw other at found)
]

HoldsFrom-of_agreement :
    (parts : List Bytes) (index : ℕ) (received : List (ℕ × Bytes))
    → ((j : ℕ)
        → j < length parts
        → (part : Bytes) × (part_at (index + j) received ≡ some part)
          × (get_elem? parts j ≡ some part))
    → HoldsFrom index parts received
HoldsFrom-of_agreement [] index received agree = tt
HoldsFrom-of_agreement (p ∷ parts) index received agree =
    let first = agree 0 (omega arith) in
    (
      ap (λ i. part_at i received) (omega arith) ∙ first.1 ∙ sym (first.2),
      HoldsFrom-of_agreement parts (suc index) received (λ j below.
          let next = agree (suc j) (omega (arith, below)) in
          (next.0, ap (λ i. part_at i received) (omega arith) ∙ next.1, next.2)),
    )

-- The numbers of the arrivals.
abbrev pub arrival_indices : List Arrival → List ℕ
arrival_indices [] = []
arrival_indices (arrival ∷ arrivals) = arrival.index ∷ arrival_indices arrivals

-- An arrival brings one of the parts, before the time is over.
abbrev pub IsPart : List Bytes → ℕ → Arrival → Type 0
IsPart parts start arrival =
    (get_elem? parts arrival.index ≡ some arrival.part)
    × (arrival.at ≤ start + native_policy_stage_timeout_ms)

-- A stage that can take all the arrivals.
record CanReceive (parts : List Bytes) (state : PolicyStageState) (arrivals : List Arrival)
    : Type 0 where
  count : state.part_count ≡ length parts
  are_parts : AreParts parts state.received_parts
  arriving : All (IsPart parts state.start_time) arrivals
  distinct : AreDistinct (arrival_indices arrivals)
  fresh : All (λ arrival. has_part arrival.index state.received_parts ≡ false) arrivals

get_elem?-below :
    (parts : List Bytes) (i : ℕ) (part : Bytes) → get_elem? parts i ≡ some part → i < length parts
get_elem?-below [] i part h = cc
get_elem?-below (p ∷ parts) zero part h = omega arith
get_elem?-below (p ∷ parts) (suc i) part h = omega (arith, get_elem?-below parts i part h)

still_fresh :
    (arrival : Arrival) (received : List (ℕ × Bytes)) (arrivals : List Arrival)
    → has arrival.index (arrival_indices arrivals) ≡ false
    → All (λ other. has_part other.index received ≡ false) arrivals
    → All
        (λ other. has_part other.index ((arrival.index, arrival.part) ∷ received) ≡ false)
        arrivals
unfolding has_part
still_fresh arrival received [] new old = tt
still_fresh arrival received (other ∷ arrivals) new old =
    (ground (arith, old.0), still_fresh arrival received arrivals (ground arith) (old.1))

in_time :
    (state : PolicyStageState) (now : ℕ)
    → now ≤ state.start_time + native_policy_stage_timeout_ms
    → is_late state now ≡ false
unfolding is_late
in_time state now h = ground arith

can_later :
    (parts : List Bytes) (state : PolicyStageState) (arrival : Arrival) (arrivals : List Arrival)
    → CanReceive parts state (arrival ∷ arrivals)
    → CanReceive parts (with_part state arrival) arrivals
can_later parts state arrival arrivals can = record {
  count = can.count;
  are_parts = (can.arriving.0.0, can.are_parts);
  arriving = can.arriving.1;
  distinct = can.distinct.1;
  fresh = still_fresh arrival state.received_parts arrivals (can.distinct.0) (can.fresh.1);
}

is_welcome :
    (parts : List Bytes) (state : PolicyStageState) (arrival : Arrival) (arrivals : List Arrival)
    → CanReceive parts state (arrival ∷ arrivals)
    → IsWelcome state arrival
is_welcome parts state arrival arrivals can = record {
  timely = in_time state arrival.at (can.arriving.0.1);
  in_range =
      omega (arith, get_elem?-below parts arrival.index arrival.part (can.arriving.0.0), can.count);
  fresh = can.fresh.0;
}

receive-nil : (state : PolicyStageState) → receive state [] ≡ ok state
unfolding receive
receive-nil state = refl

receive-CanReceive :
    (parts : List Bytes) (state : PolicyStageState) (arrivals : List Arrival)
    → CanReceive parts state arrivals
    → (st : PolicyStageState) × (receive state arrivals ≡ ok st)
      × AreParts parts st.received_parts
      × (st.start_time ≡ state.start_time)
receive-CanReceive parts state [] can = (state, receive-nil state, can.are_parts, refl)
receive-CanReceive parts state (arrival ∷ arrivals) can =
    let later =
      receive-CanReceive parts (with_part state arrival) arrivals
        (can_later parts state arrival arrivals can) in
    (
      later.0,
      receive_welcome state arrival arrivals (is_welcome parts state arrival arrivals can)
          ∙ later.1,
      later.2,
      later.3,
    )

fresh_in_new :
    (arrivals : List Arrival) → All (λ arrival. has_part arrival.index [] ≡ false) arrivals
unfolding has_part
fresh_in_new [] = tt
fresh_in_new (arrival ∷ arrivals) = (refl, fresh_in_new arrivals)

finish_good :
    (sha256_hex : Bytes → Text) (parts : List Bytes) (st : PolicyStageState) (now : ℕ)
    → is_late st now ≡ false
    → length st.received_parts ≡ st.part_count
    → length parts ≡ st.part_count
    → HoldsFrom 0 parts st.received_parts
    → length (concat parts) ≡ st.total_bytes
    → text_eq (codes "sha256:" ++ sha256_hex (concat parts)) st.expected_digest ≡ true
    → finish_project_stage sha256_hex st now ≡ ok (concat parts)
unfolding finish_project_stage check_digest
finish_good sha256_hex parts st now timely complete same holds exact right =
    rw
      (
        finish_project_stage,
        commit_policy_stage-HoldsFrom parts st now timely complete same holds,
        (==_iff (length (concat parts)) st.total_bytes).1 exact,
        right,
      )
      refl

-- When each of as many parts as announced arrives once, in any order, and all within five seconds,
-- then the parts are received and the stage ends with the parts joined, if they have the announced
-- digest.
pub finish_project_stage-in_any_order :
    (sha256_hex : Bytes → Text) (parts : List Bytes) (digest : Text) (start now : ℕ)
    (arrivals : List Arrival)
    → length arrivals ≡ length parts
    → AreDistinct (arrival_indices arrivals)
    → All (IsPart parts start) arrivals
    → now ≤ start + native_policy_stage_timeout_ms
    → text_eq (codes "sha256:" ++ sha256_hex (concat parts)) digest ≡ true
    → (st : PolicyStageState) × (receive
          (create_policy_stage_state (length (concat parts)) (length parts) digest start)
          arrivals
        ≡ ok st)
      × (finish_project_stage sha256_hex st now ≡ ok (concat parts))
unfolding create_policy_stage_state
finish_project_stage-in_any_order sha256_hex parts digest start now arrivals each once good timely
      right =
    let stage = create_policy_stage_state (length (concat parts)) (length parts) digest start in
    let received = receive-CanReceive parts stage arrivals record {
      count = refl;
      are_parts = tt;
      arriving = good;
      distinct = once;
      fresh = fresh_in_new arrivals;
    } in
    let st = received.0 in
    let done =
      receive-HasReceived stage st arrivals (create-IsReceived (length parts)) (received.1) in
    let complete : length st.received_parts ≡ st.part_count =
      omega (arith, done.more, done.same_count, each) in
    (
      st,
      received.1,
      finish_good sha256_hex parts st now (in_time st now (omega (arith, timely, received.3)))
          complete (sym done.same_count)
          (HoldsFrom-of_agreement parts 0 st.received_parts (λ j below.
            let there =
              part_at_of_complete st.part_count st.received_parts done.good complete j
                (omega (arith, below, done.same_count)) in
            (
              there.0,
              ap (λ i. part_at i st.received_parts) (omega arith) ∙ there.1,
              part_at-AreParts parts st.received_parts j (there.0) (received.2) (there.1),
            )))
          (sym done.same_total) (rw (done.same_digest) right),
    )

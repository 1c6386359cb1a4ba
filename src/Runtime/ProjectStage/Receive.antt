-- ===== src/Runtime/ProjectStage/Receive.antt =====
-- packages/runtime/src/project-stage.ts, host.ts: the parts of a project as they arrive.
use rogatio.Prelude.{
  ℕ, ◌+◌, ◌<◌, ◌≡◌, refl, sym, ◌∙◌, ap, false, none, some, List, [], ◌∷◌, inl, inr, ◌⊎◌, arith,
  ◌==◌, leb, length, All, Bool-cases, ==_iff,
}
use mathlib.Core.Path.{subst}
use rogatio.Prelude.Json.{pos}
use rogatio.Runtime.Framing.{Bytes}
use rogatio.Runtime.Results.{
  RuntimeError, RuntimeResult, ok, failed, policy_stage_timeout, policy_invalid_part_index,
  policy_duplicate_part,
}
use rogatio.Runtime.ProjectStage.{PolicyStageState, part_at, has_part, is_late, add_policy_part}
use rogatio.Runtime.ProjectStage.Received.{has_part-indices, IsReceived}

pub record Arrival : Type 0 where
  pub index : ℕ
  pub part : Bytes
  pub at : ℕ

-- The host adds the parts as they arrive, and gives the stage up at the first error.
abbrev pub or_refused :
    RuntimeResult (Unit {0}) × PolicyStageState
    → (PolicyStageState → RuntimeResult PolicyStageState)
    → RuntimeResult PolicyStageState
or_refused (failed error, state) rest = failed error
or_refused (ok done, state) rest = rest state

unfoldable pub receive : PolicyStageState → List Arrival → RuntimeResult PolicyStageState
unfolding add_policy_part
receive state [] = ok state
receive state (arrival ∷ arrivals) =
    or_refused (add_policy_part state (pos arrival.index) arrival.part arrival.at)
      (λ next. receive next arrivals)

abbrev pub with_part : PolicyStageState → Arrival → PolicyStageState
with_part state arrival = record state {
  received_parts = (arrival.index, arrival.part) ∷ state.received_parts;
}

pub record IsWelcome (state : PolicyStageState) (arrival : Arrival) : Type 0 where
  pub timely : is_late state arrival.at ≡ false
  pub in_range : arrival.index < state.part_count
  pub fresh : has_part arrival.index state.received_parts ≡ false

abbrev pub added : PolicyStageState → Arrival → RuntimeResult (Unit {0}) × PolicyStageState
added state arrival = add_policy_part state (pos arrival.index) arrival.part arrival.at

pub added_welcome :
    (state : PolicyStageState) (arrival : Arrival)
    → IsWelcome state arrival
    → added state arrival ≡ (ok tt, with_part state arrival)
unfolding add_policy_part
added_welcome state arrival welcome =
    rw
      (
        add_policy_part,
        welcome.timely,
        not_beyond state.part_count arrival.index welcome.in_range,
        welcome.fresh,
      )
      refl
  where
    not_beyond : (n m : ℕ) → m < n → leb n m ≡ false
    not_beyond n m h = ground arith

-- A part is welcome, or it is refused.
pub added-cases :
    (state : PolicyStageState) (arrival : Arrival)
    → IsWelcome state arrival
      ⊎ ((error : RuntimeError) × (added state arrival ≡ (failed error, state)))
unfolding add_policy_part
added-cases state arrival = elim (Bool-cases (is_late state arrival.at)) [
  | inl late ↦ inr (policy_stage_timeout, rw (add_policy_part, late) refl)
  | inr timely ↦ elim (Bool-cases (leb state.part_count arrival.index)) [
    | inl beyond ↦ inr (policy_invalid_part_index, rw (add_policy_part, timely, beyond) refl)
    | inr in_range ↦ elim (Bool-cases (has_part arrival.index state.received_parts)) [
      | inl again ↦ inr (policy_duplicate_part, rw (add_policy_part, timely, in_range, again) refl)
      | inr fresh ↦ inl record { timely = timely; in_range = ground arith; fresh = fresh }
    ]
  ]
]

pub receive_welcome :
    (state : PolicyStageState) (arrival : Arrival) (arrivals : List Arrival)
    → IsWelcome state arrival
    → receive state (arrival ∷ arrivals) ≡ receive (with_part state arrival) arrivals
unfolding receive
receive_welcome state arrival arrivals welcome =
    ap (λ result. or_refused result (λ next. receive next arrivals))
      (added_welcome state arrival welcome)

receive_refused :
    (state : PolicyStageState) (arrival : Arrival) (arrivals : List Arrival) (error : RuntimeError)
    → added state arrival ≡ (failed error, state)
    → receive state (arrival ∷ arrivals) ≡ failed error
unfolding receive
receive_refused state arrival arrivals error refused =
    ap (λ result. or_refused result (λ next. receive next arrivals)) refused

IsWelcome-of_receive :
    (state st : PolicyStageState) (arrival : Arrival) (arrivals : List Arrival)
    → receive state (arrival ∷ arrivals) ≡ ok st
    → IsWelcome state arrival
IsWelcome-of_receive state st arrival arrivals received = elim (added-cases state arrival) [
  | inl welcome ↦ welcome
  | inr refused ↦
      impossible (sym (receive_refused state arrival arrivals (refused.0) (refused.1)) ∙ received)
]
  where
    impossible : {error : RuntimeError} → failed error ≡ ok st → IsWelcome state arrival
    impossible h = cc

-- What receiving arrivals does to a stage.
pub record HasReceived (state st : PolicyStageState) (arrivals : List Arrival) : Type 0 where
  pub same_count : st.part_count ≡ state.part_count
  pub same_total : st.total_bytes ≡ state.total_bytes
  pub same_digest : st.expected_digest ≡ state.expected_digest
  pub good : IsReceived st.part_count st.received_parts
  pub kept :
      (i : ℕ) (part : Bytes)
      → part_at i state.received_parts ≡ some part
      → part_at i st.received_parts ≡ some part
  pub arrived :
      All (λ arrival. part_at arrival.index st.received_parts ≡ some arrival.part) arrivals
  pub in_range : All (λ arrival. arrival.index < st.part_count) arrivals
  pub more : length st.received_parts ≡ length state.received_parts + length arrivals

pub with_part-IsReceived :
    (state : PolicyStageState) (arrival : Arrival)
    → IsReceived state.part_count state.received_parts
    → IsWelcome state arrival
    → IsReceived state.part_count ((arrival.index, arrival.part) ∷ state.received_parts)
with_part-IsReceived state arrival good welcome = record {
  distinct =
      (sym (has_part-indices arrival.index state.received_parts) ∙ welcome.fresh, good.distinct);
  below = (welcome.in_range, good.below);
}

part_at_new :
    (state : PolicyStageState) (arrival : Arrival)
    → part_at arrival.index ((arrival.index, arrival.part) ∷ state.received_parts)
      ≡ some arrival.part
unfolding part_at
part_at_new state arrival = rw ((==_iff arrival.index arrival.index).1 refl) refl

part_at_fresh :
    (i : ℕ) (received : List (ℕ × Bytes)) → has_part i received ≡ false → part_at i received ≡ none
unfolding part_at has_part
part_at_fresh i [] h = refl
part_at_fresh i ((j, p) ∷ received) h = ground (arith, part_at_fresh i received)

part_at_old :
    (i j : ℕ) (p part : Bytes) (received : List (ℕ × Bytes))
    → has_part j received ≡ false
    → part_at i received ≡ some part
    → part_at i ((j, p) ∷ received) ≡ some part
unfolding part_at
part_at_old i j p part received fresh found = elim (Bool-cases (j == i)) [
  | inl same ↦ absurd (
      clash (
        part_at_fresh i received
          (subst (λ k. has_part k received ≡ false) ((==_iff j i).0 same) fresh)))
  | inr other ↦ rw other found
]
  where
    clash : part_at i received ≡ none → ⊥
    clash h = cc

abbrev the_state : PolicyStageState → RuntimeResult PolicyStageState → PolicyStageState
the_state state (ok s) = s
the_state state (failed error) = state

ok_injective : (state st : PolicyStageState) → ok state ≡ ok st → state ≡ st
ok_injective state st h = ap (the_state state) h

pub receive-HasReceived :
    (state st : PolicyStageState) (arrivals : List Arrival)
    → IsReceived state.part_count state.received_parts
    → receive state arrivals ≡ ok st
    → HasReceived state st arrivals
unfolding receive
receive-HasReceived state st [] good received =
    subst (λ s. HasReceived state s []) (ok_injective state st received)
      record {
        same_count = refl;
        same_total = refl;
        same_digest = refl;
        good = good;
        kept = λ i part found. found;
        arrived = tt;
        in_range = tt;
        more = omega arith;
      }
receive-HasReceived state st (arrival ∷ arrivals) good received =
    let welcome = IsWelcome-of_receive state st arrival arrivals received in
    let later =
      receive-HasReceived (with_part state arrival) st arrivals
        (with_part-IsReceived state arrival good welcome)
        (sym (receive_welcome state arrival arrivals welcome) ∙ received) in
    record {
      same_count = later.same_count;
      same_total = later.same_total;
      same_digest = later.same_digest;
      good = later.good;
      kept = λ i part found.
          later.kept i part (
            part_at_old i arrival.index arrival.part part state.received_parts welcome.fresh found);
      arrived = (later.kept arrival.index arrival.part (part_at_new state arrival), later.arrived);
      in_range = (omega (arith, later.same_count, welcome.in_range), later.in_range);
      more = omega (arith, later.more);
    }

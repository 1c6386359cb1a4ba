-- ===== src/Runtime/Host/Stage.antt =====
-- packages/runtime/src/host.ts: the stage that it holds.
use rogatio.Prelude.{
  ℕ, ap, All, ◌≤◌, ◌≡◌, refl, sym, true, false, ◌&&◌, Bool, Option, none, some, inl, inr, arith,
  leb, Bool-cases, String,
}
use mathlib.Core.Path.{subst}
use rogatio.Prelude.Texts.{Text, codes}
use rogatio.Prelude.Json.{ℤ, pos, negsuc, Number, integer, is_safe_integer, Fields, own}
use rogatio.Runtime.Capability.{is_sha256_digest}
use rogatio.Runtime.Envelope.{string_of, number_of}
use rogatio.Runtime.Framing.{Bytes}
use rogatio.Runtime.Results.{RuntimeResult, ok, failed}
use rogatio.Runtime.ProjectStage.{
  PolicyStageState, begin_project_stage, accept_project_part, add_policy_part,
  create_policy_stage_state, bounded, is_late, native_policy_max_bytes, native_policy_max_frames,
  begin_with, accept_with,
}
use rogatio.Runtime.ProjectStage.Receive.{Arrival, added-cases, added_welcome, with_part-IsReceived}
use rogatio.Runtime.ProjectStage.Received.{IsReceived}
use rogatio.Runtime.ProjectStage.Transfer.{create-IsReceived}

bounded-some : (limit : ℕ) (n : Option Number) (m : ℕ) → bounded limit n ≡ some m → m ≤ limit
unfolding bounded
bounded-some limit none m h = cc
bounded-some limit (some (integer (pos n))) m h =
    elim (Bool-cases (is_safe_integer (integer (pos n)) && (leb 1 n && leb n limit))) [
      | inl inside ↦ omega (arith, some_injective n m (rw inside at h), within _ _ inside)
      | inr outside ↦ absurd (not_some m (rw outside at h))
    ]
  where
    some_injective : (n m : ℕ) → some n ≡ some m → n ≡ m
    some_injective n m h = cc

    not_some : (m : ℕ) → none ≡ some m → ⊥
    not_some m h = cc

    within : (a b : Bool) → (a && (b && leb n limit)) ≡ true → n ≤ limit
    within true true h = ground arith
    within true false h = cc
    within false b h = cc
bounded-some limit (some (integer (negsuc n))) m h = cc
bounded-some limit (some (Number.fractional n)) m h = cc

add_policy_part-negative :
    (stage : PolicyStageState) (n : ℕ) (part : Bytes) (now : ℕ)
    → (add_policy_part stage (negsuc n) part now).1 ≡ stage
unfolding add_policy_part
add_policy_part-negative stage n part now = elim (Bool-cases (is_late stage now)) [
  | inl late ↦ rw late refl
  | inr timely ↦ rw timely refl
]

-- What was announced for a digest, and what carried a part at an index.
module _ (Announced : Text → Type 0) (Carried : ℕ → Bytes → Type 0) where
  -- A stage that the host may hold.
  pub record IsStaged (stage : PolicyStageState) : Type 0 where
    pub small : stage.total_bytes ≤ native_policy_max_bytes
    pub few : stage.part_count ≤ native_policy_max_frames
    pub digest : is_sha256_digest stage.expected_digest ≡ true
    pub received : IsReceived stage.part_count stage.received_parts
    pub announced : Announced stage.expected_digest
    pub carried : All (λ entry. Carried entry.0 entry.1) stage.received_parts

  abbrev pub HoldsStaged : Option PolicyStageState → Type 0
  HoldsStaged none = Unit
  HoldsStaged (some stage) = IsStaged stage

  abbrev pub IsBegun : RuntimeResult PolicyStageState → Type 0
  IsBegun (failed error) = Unit
  IsBegun (ok stage) = IsStaged stage

  begin_with-IsBegun :
      (total count : Option ℕ) (digest : Option String) (now : ℕ)
      → ((m : ℕ) → total ≡ some m → m ≤ native_policy_max_bytes)
      → ((m : ℕ) → count ≡ some m → m ≤ native_policy_max_frames)
      → ((text : String) → digest ≡ some text → Announced (codes text))
      → IsBegun (begin_with total count digest now)
  unfolding create_policy_stage_state
  begin_with-IsBegun none count digest now t c d = tt
  begin_with-IsBegun (some total) none digest now t c d = tt
  begin_with-IsBegun (some total) (some count) none now t c d = tt
  begin_with-IsBegun (some total) (some count) (some digest) now t c d =
      elim (Bool-cases (is_sha256_digest (codes digest))) [
        | inl good ↦ rw good record {
          small = t total refl;
          few = c count refl;
          digest = good;
          received = create-IsReceived count;
          announced = d digest refl;
          carried = tt;
        }
        | inr bad ↦ rw bad tt
      ]

  pub begin_project_stage-IsBegun :
      (frame : Fields) (now : ℕ)
      → ((text : String)
          → string_of (own "policyDigest" frame) ≡ some text
          → Announced (codes text))
      → IsBegun (begin_project_stage frame now)
  unfolding begin_project_stage
  begin_project_stage-IsBegun frame now d =
      begin_with-IsBegun (bounded native_policy_max_bytes (number_of (own "totalBytes" frame)))
        (bounded native_policy_max_frames (number_of (own "partCount" frame)))
        (string_of (own "policyDigest" frame)) now
        (bounded-some native_policy_max_bytes (number_of (own "totalBytes" frame)))
        (bounded-some native_policy_max_frames (number_of (own "partCount" frame))) d

  add_policy_part-IsStaged :
      (stage : PolicyStageState) (index : ℤ) (part : Bytes) (now : ℕ)
      → IsStaged stage
      → ((i : ℕ) → index ≡ pos i → Carried i part)
      → IsStaged ((add_policy_part stage index part now).1)
  add_policy_part-IsStaged stage (negsuc n) part now staged c =
      subst IsStaged (sym (add_policy_part-negative stage n part now)) staged
  add_policy_part-IsStaged stage (pos i) part now staged c =
      elim (added-cases stage (arrival i part now)) [
        | inl welcome ↦
            subst (λ result. IsStaged (result.1))
              (sym (added_welcome stage (arrival i part now) welcome))
              record {
                small = staged.small;
                few = staged.few;
                digest = staged.digest;
                received = with_part-IsReceived stage (arrival i part now) staged.received welcome;
                announced = staged.announced;
                carried = (c i refl, staged.carried);
              }
        | inr refused ↦ subst (λ result. IsStaged (result.1)) (sym (refused.1)) staged
      ]
    where
      arrival : ℕ → Bytes → ℕ → Arrival
      arrival i part now = record { index = i; part = part; at = now }

  accept_with-IsStaged :
      (from_base64 : String → Bytes) (stage : PolicyStageState) (n : Option Number)
      (text : Option String) (now : ℕ)
      → IsStaged stage
      → ((i : ℕ) (t : String)
          → n ≡ some (integer (pos i))
          → text ≡ some t
          → Carried i (from_base64 t))
      → IsStaged ((accept_with from_base64 stage n text now).1)
  accept_with-IsStaged from_base64 stage none text now staged c = staged
  accept_with-IsStaged from_base64 stage (some (Number.fractional t)) text now staged c = staged
  accept_with-IsStaged from_base64 stage (some (integer i)) none now staged c = staged
  accept_with-IsStaged from_base64 stage (some (integer i)) (some text) now staged c =
      elim (Bool-cases (is_safe_integer (integer i))) [
        | inl safe ↦ rw safe (
            add_policy_part-IsStaged stage i (from_base64 text) now staged
              (λ j same. c j text (ap (λ k. some (integer k)) same) refl))
        | inr other ↦ rw other staged
      ]

  pub accept_project_part-IsStaged :
      (from_base64 : String → Bytes) (stage : PolicyStageState) (frame : Fields) (now : ℕ)
      → IsStaged stage
      → ((i : ℕ) (t : String)
          → number_of (own "index" frame) ≡ some (integer (pos i))
          → string_of (own "data" frame) ≡ some t
          → Carried i (from_base64 t))
      → IsStaged ((accept_project_part from_base64 stage frame now).1)
  unfolding accept_project_part
  accept_project_part-IsStaged from_base64 stage frame now staged c =
      accept_with-IsStaged from_base64 stage (number_of (own "index" frame))
        (string_of (own "data" frame)) now staged c

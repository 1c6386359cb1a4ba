-- ===== src/Runtime/Host/Session.antt =====
-- packages/runtime/src/host.ts: every sequence of messages, and the envelopes that it hands on.
use rogatio.Prelude.{
  ℕ, ◌≤◌, ◌≡◌, refl, true, Option, none, some, List, [], ◌∷◌, ◌++◌, inl, inr, ◌⊎◌, arith, length,
  drop, All, Bool-cases, String, str_eq, eq_iff,
}
use mathlib.Core.List.{Memᴰ}
use mathlib.Core.Path.{subst}
use rogatio.Prelude.Slices.{length-drop, concat}
use rogatio.Runtime.Host.Payload.{IsFrame, decode_envelope_frame-IsFrame}
use rogatio.Runtime.Host.Carried.{IsMessage, IsAnnounced, IsPart, AreParts, AreParts-of_HoldsFrom}
use rogatio.Prelude.Texts.{Text, codes}
use rogatio.Prelude.Json.{Json, object, Fields, own}
use rogatio.Runtime.Capability.{text_eq, is_sha256_digest}
use rogatio.Runtime.Envelope.{Envelope, EnvelopeResult, string_of, parse_envelope}
use rogatio.Runtime.Envelope.{ok as accepted, thrown}
use rogatio.Runtime.Framing.{Bytes, native_frame_max_bytes, decode_native_frame}
use rogatio.Runtime.Results.{RuntimeResult, ok, failed}
use rogatio.Runtime.ProjectStage.{
  PolicyStageState, begin_project_stage, accept_project_part, finish_project_stage,
  native_policy_max_bytes,
}
use rogatio.Runtime.ProjectStage.Transfer.{finish_project_stage-ok}
use rogatio.Runtime.Host.Stage.{
  HoldsStaged, IsBegun, begin_project_stage-IsBegun, accept_project_part-IsStaged,
}
use rogatio.Runtime.Host.{
  HostAnswer, no_response, stage_ack, handle_envelope, decode_envelope_frame, is_project_stage_type,
  begun, accepted_part, committed_envelope, committed, envelope_answer, part_step, commit_step,
  process_typed, process_decoded, handle_project_stage, process_frame, process_frames,
}

module _ (parse : Bytes → Option Json) (from_base64 : String → Bytes) (sha256_hex : Bytes → Text)
    (frames : List (Bytes × ℕ)) where
  abbrev Held : Option PolicyStageState → Type 0
  Held = HoldsStaged (IsAnnounced parse from_base64 frames) (IsPart parse from_base64 frames)

  -- The bytes are the payload of one of the messages.
  abbrev IsPayload : Bytes → Type 0
  IsPayload bytes =
      (frame : Bytes) × (now : ℕ) × Memᴰ (frame, now) frames
      × (bytes ≡ drop 4 frame)
      × (length bytes ≤ native_frame_max_bytes)

  -- The bytes are joined from the parts that messages carry, and have the digest that a message
  -- announces.
  pub record IsTransferred (bytes : Bytes) : Type 0 where
    pub parts : List Bytes
    pub carried : AreParts parse from_base64 frames 0 parts
    pub joined : concat parts ≡ bytes
    pub small : length bytes ≤ native_policy_max_bytes
    pub digest : Text
    pub announced : IsAnnounced parse from_base64 frames digest
    pub well_formed : is_sha256_digest digest ≡ true
    pub hashed : text_eq (codes "sha256:" ++ sha256_hex bytes) digest ≡ true

  -- What an envelope was parsed from.
  abbrev pub IsCarried : Envelope → Bytes → Type 0
  IsCarried envelope bytes =
      IsPayload bytes ⊎ ((envelope.type ≡ "runtime.project.set") × IsTransferred bytes)

  abbrev pub IsHandled : HostAnswer → Type 0
  IsHandled no_response = Unit
  IsHandled (stage_ack type request_id error) = Unit
  IsHandled (handle_envelope envelope) =
      (bytes : Bytes) × (parse_envelope parse bytes ≡ accepted envelope) × IsCarried envelope bytes

  abbrev IsStep : HostAnswer × Option PolicyStageState → Type 0
  IsStep step = IsHandled (step.0) × Held (step.1)

  begun-IsStep :
      (request_id : Option Json) (result : RuntimeResult PolicyStageState)
      → IsBegun (IsAnnounced parse from_base64 frames) (IsPart parse from_base64 frames) result
      → IsStep (begun parse from_base64 sha256_hex request_id result)
  begun-IsStep request_id (failed error) good = (tt, tt)
  begun-IsStep request_id (ok stage) good = (tt, good)

  accepted_part-IsStep :
      (request_id : Option Json) (result : RuntimeResult (Unit {0}) × PolicyStageState)
      → Held (some (result.1))
      → IsStep (accepted_part parse from_base64 sha256_hex request_id result)
  accepted_part-IsStep request_id (failed error, stage) good = (tt, tt)
  accepted_part-IsStep request_id (ok done, stage) good = (tt, good)

  part_step-IsStep :
      (request_id : Option Json) (frame : Fields) (now : ℕ) (stage : Option PolicyStageState)
      → IsMessage parse from_base64 frames "policy-part" frame
      → Held stage
      → IsStep (part_step parse from_base64 sha256_hex request_id frame now stage)
  part_step-IsStep request_id frame now none sent held = (tt, tt)
  part_step-IsStep request_id frame now (some stage) sent held =
      accepted_part-IsStep request_id (accept_project_part from_base64 stage frame now) (
        accept_project_part-IsStaged (IsAnnounced parse from_base64 frames)
          (IsPart parse from_base64 frames) from_base64 stage frame now held
          (λ index text numbered holds. record {
            fields = frame;
            text = text;
            sends = sent;
            numbered = numbered;
            holds = holds;
            decodes = refl;
          }))

  committed_envelope-IsHandled :
      (request_id : Option Json) (bytes : Bytes) (result : EnvelopeResult Envelope)
      → IsTransferred bytes
      → parse_envelope parse bytes ≡ result
      → IsHandled (committed_envelope parse from_base64 sha256_hex request_id result)
  committed_envelope-IsHandled request_id bytes (thrown error) right parsed = tt
  committed_envelope-IsHandled request_id bytes (accepted envelope) right parsed =
      elim (Bool-cases (str_eq envelope.type "runtime.project.set")) [
        | inl sets ↦
            rw sets
              (bytes, parsed, inr ((eq_iff envelope.type "runtime.project.set").0 sets, right))
        | inr other ↦ rw other tt
      ]

  finish_project_stage-IsTransferred :
      (stage : PolicyStageState) (now : ℕ) (bytes : Bytes)
      → Held (some stage)
      → finish_project_stage sha256_hex stage now ≡ ok bytes
      → IsTransferred bytes
  finish_project_stage-IsTransferred stage now bytes held finished =
      let end = finish_project_stage-ok sha256_hex stage now bytes held.received finished in
      record {
        parts = end.0;
        carried =
            AreParts-of_HoldsFrom parse from_base64 frames 0 (end.0) stage.received_parts
              held.carried (end.2);
        joined = end.3;
        small = omega (arith, end.4, held.small);
        digest = stage.expected_digest;
        announced = held.announced;
        well_formed = held.digest;
        hashed = end.5;
      }

  committed-IsStep :
      (request_id : Option Json) (stage : PolicyStageState) (now : ℕ) (result : RuntimeResult Bytes)
      → Held (some stage)
      → finish_project_stage sha256_hex stage now ≡ result
      → IsStep (committed parse from_base64 sha256_hex request_id result)
  committed-IsStep request_id stage now (failed error) held finished = (tt, tt)
  committed-IsStep request_id stage now (ok bytes) held finished = (
    committed_envelope-IsHandled request_id bytes (parse_envelope parse bytes)
        (finish_project_stage-IsTransferred stage now bytes held finished) refl,
    tt,
  )

  commit_step-IsStep :
      (request_id : Option Json) (now : ℕ) (stage : Option PolicyStageState)
      → Held stage
      → IsStep (commit_step parse from_base64 sha256_hex request_id now stage)
  commit_step-IsStep request_id now none held = (tt, tt)
  commit_step-IsStep request_id now (some stage) held =
      committed-IsStep request_id stage now (finish_project_stage sha256_hex stage now) held refl

  handle_project_stage-IsStep :
      (type : String) (frame : Fields) (now : ℕ) (stage : Option PolicyStageState)
      → IsMessage parse from_base64 frames type frame
      → Held stage
      → IsStep (handle_project_stage parse from_base64 sha256_hex type frame now stage)
  unfolding handle_project_stage
  handle_project_stage-IsStep type frame now stage sent held =
      elim (Bool-cases (str_eq type "policy-begin")) [
        | inl begins ↦
            rw (handle_project_stage, begins)
              (begun-IsStep request_id (begin_project_stage frame now) (
                begin_project_stage-IsBegun (IsAnnounced parse from_base64 frames)
                  (IsPart parse from_base64 frames) frame now
                  (λ text states. record {
                    fields = frame;
                    text = text;
                    begins = of_type "policy-begin" begins;
                    states = states;
                    codes_of = refl;
                  })))
        | inr other ↦ elim (Bool-cases (str_eq type "policy-part")) [
          | inl part ↦
              rw (handle_project_stage, other, part)
                (part_step-IsStep request_id frame now stage (of_type "policy-part" part) held)
          | inr last ↦
              rw (handle_project_stage, other, last) (commit_step-IsStep request_id now stage held)
        ]
      ]
    where
      request_id : Option Json
      request_id = own "requestId" frame

      of_type :
          (other : String)
          → str_eq type other ≡ true
          → IsMessage parse from_base64 frames other frame
      of_type other same =
          subst (λ t. IsMessage parse from_base64 frames t frame) ((eq_iff type other).0 same) sent

  decode_envelope_frame-IsHandled :
      (frame : Bytes) (now : ℕ)
      → Memᴰ (frame, now) frames
      → IsHandled (envelope_answer parse from_base64 sha256_hex (decode_envelope_frame parse frame))
  decode_envelope_frame-IsHandled frame now sent =
      go (decode_envelope_frame parse frame) (decode_envelope_frame-IsFrame parse frame)
    where
      go :
          (envelope : Option Envelope)
          → IsFrame parse envelope frame
          → IsHandled (envelope_answer parse from_base64 sha256_hex envelope)
      go none is = tt
      go (some envelope) is = (
        drop 4 frame,
        is.1,
        inl (frame, now, sent, refl, omega (arith, length-drop 4 frame, is.0)),
      )

  process_typed-IsStep :
      (frame : Bytes) (fields : Fields) (now : ℕ) (stage : Option PolicyStageState)
      (type : Option String)
      → Memᴰ (frame, now) frames
      → decode_native_frame parse frame ≡ ok (object fields)
      → string_of (own "type" fields) ≡ type
      → Held stage
      → IsStep (process_typed parse from_base64 sha256_hex frame fields now stage type)
  process_typed-IsStep frame fields now stage none sent decoded typed held =
      (decode_envelope_frame-IsHandled frame now sent, held)
  process_typed-IsStep frame fields now stage (some type) sent decoded typed held =
      elim (Bool-cases (is_project_stage_type type)) [
        | inl staged ↦ rw staged (handle_project_stage-IsStep type fields now stage message held)
        | inr other ↦ rw other (decode_envelope_frame-IsHandled frame now sent, held)
      ]
    where
      message : IsMessage parse from_base64 frames type fields
      message = record { frame = frame; now = now; sent = sent; decoded = decoded; typed = typed }

  process_decoded-IsStep :
      (frame : Bytes) (now : ℕ) (stage : Option PolicyStageState) (result : RuntimeResult Json)
      → Memᴰ (frame, now) frames
      → decode_native_frame parse frame ≡ result
      → Held stage
      → IsStep (process_decoded parse from_base64 sha256_hex frame now stage result)
  process_decoded-IsStep frame now stage (failed error) sent decoded held = (tt, held)
  process_decoded-IsStep frame now stage (ok (object fields)) sent decoded held =
      process_typed-IsStep frame fields now stage (string_of (own "type" fields)) sent decoded refl
        held
  process_decoded-IsStep frame now stage (ok Json.null) sent decoded held =
      (decode_envelope_frame-IsHandled frame now sent, held)
  process_decoded-IsStep frame now stage (ok (Json.boolean b)) sent decoded held =
      (decode_envelope_frame-IsHandled frame now sent, held)
  process_decoded-IsStep frame now stage (ok (Json.number n)) sent decoded held =
      (decode_envelope_frame-IsHandled frame now sent, held)
  process_decoded-IsStep frame now stage (ok (Json.string t)) sent decoded held =
      (decode_envelope_frame-IsHandled frame now sent, held)
  process_decoded-IsStep frame now stage (ok (Json.array items)) sent decoded held =
      (decode_envelope_frame-IsHandled frame now sent, held)

  process_frame-IsStep :
      (stage : Option PolicyStageState) (frame : Bytes) (now : ℕ)
      → Memᴰ (frame, now) frames
      → Held stage
      → IsStep (process_frame parse from_base64 sha256_hex stage frame now)
  unfolding process_frame
  process_frame-IsStep stage frame now sent held =
      process_decoded-IsStep frame now stage (decode_native_frame parse frame) sent refl held

  abbrev pub AreSteps : List HostAnswer × Option PolicyStageState → Type 0
  AreSteps steps = All IsHandled (steps.0) × Held (steps.1)

  -- Of the messages, those that are left.
  pub process_frames-AreSteps :
      (stage : Option PolicyStageState) (left : List (Bytes × ℕ))
      → ((message : Bytes × ℕ) → Memᴰ message left → Memᴰ message frames)
      → Held stage
      → AreSteps (process_frames parse from_base64 sha256_hex stage left)
  unfolding process_frames
  process_frames-AreSteps stage [] sent held = (tt, held)
  process_frames-AreSteps stage ((frame, now) ∷ left) sent held =
      let first = process_frame-IsStep stage frame now (sent (frame, now) (Memᴰ.head refl)) held in
      let later =
        process_frames-AreSteps ((process_frame parse from_base64 sha256_hex stage frame now).1)
          left (λ message there. sent message (Memᴰ.tail there)) (first.1) in
      ((first.0, later.0), later.1)

-- Whatever messages a new host gets, and at whatever times, each envelope that it hands on parses
-- from the payload of one of the messages, at most 64 KiB, or sets the project and parses from at
-- most 256 KiB that are the parts that messages carry as the numbers 0, 1 and so on, decoded and
-- joined, and that have the well-formed digest that a message announces.
pub process_frames-IsHandled :
    (parse : Bytes → Option Json) (from_base64 : String → Bytes) (sha256_hex : Bytes → Text)
    (frames : List (Bytes × ℕ))
    → All
        (IsHandled parse from_base64 sha256_hex frames)
        ((process_frames parse from_base64 sha256_hex none frames).0)
process_frames-IsHandled parse from_base64 sha256_hex frames =
    (process_frames-AreSteps parse from_base64 sha256_hex frames none frames
      (λ message there. there) tt).0

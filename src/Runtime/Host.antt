-- ===== src/Runtime/Host.antt =====
-- packages/runtime/src/host.ts: one message of standard input, up to the call of the controller or
-- of the doctor. The stage of a project is the state; JSON with the UTF-8 codec, base64 and SHA-256
-- are parameters. An acknowledgement is its type, request id and error; its printing as a frame is
-- left out.
pub mod Carried
pub mod Payload
pub mod Session
pub mod Stage
use rogatio.Prelude.{
  ℕ, ◌+◌, Bool, true, false, not, ◌||◌, Option, none, some, List, [], ◌∷◌, String, str_eq, ◌==◌,
  if◌then◌else◌, length, drop,
}
use rogatio.Prelude.Json.{Json, object, Fields, own}
use rogatio.Prelude.Texts.{Text}
use rogatio.Runtime.Envelope.{
  Envelope, EnvelopeResult, string_of, parse_envelope, serialize_envelope,
}
use rogatio.Runtime.Envelope.{ok as accepted, thrown}
use rogatio.Runtime.Framing.{
  Bytes, NativeFrameType, policy_begin, policy_part, policy_commit, framed,
  read_native_payload_length, decode_native_frame,
}
use rogatio.Runtime.ProjectStage.{
  PolicyStageState, begin_project_stage, accept_project_part, finish_project_stage,
}
use rogatio.Runtime.Results.{RuntimeError, RuntimeResult, ok, failed, project_stage_invalid}

-- What the host does with a message: nothing, an acknowledgement, or the reply to an envelope.
pub data HostAnswer : Type 0 where
  no_response : HostAnswer
  stage_ack : NativeFrameType → Option Json → Option RuntimeError → HostAnswer
  handle_envelope : Envelope → HostAnswer

unfoldable pub encode_envelope_frame : (Json → Bytes) → Envelope → Option Bytes
unfolding serialize_envelope framed
encode_envelope_frame print envelope = elim (serialize_envelope print envelope) [
  | thrown error ↦ none
  | accepted json ↦ some (framed json)
]

abbrev pub payload_of : (Bytes → Option Json) → Bytes → RuntimeResult ℕ → Option Envelope
payload_of parse buffer (failed error) = none
payload_of parse buffer (ok size) =
    if not (length buffer == 4 + size) then none else elim (parse_envelope parse (drop 4 buffer)) [
      | thrown error ↦ none
      | accepted envelope ↦ some envelope
    ]

-- No result stands for an exception.
unfoldable pub decode_envelope_frame : (Bytes → Option Json) → Bytes → Option Envelope
unfolding read_native_payload_length parse_envelope
decode_envelope_frame parse buffer = payload_of parse buffer (read_native_payload_length buffer)

-- packages/runtime/src/project-stage.ts
unfoldable pub is_project_stage_type : String → Bool
is_project_stage_type type =
    str_eq type "policy-begin" || (str_eq type "policy-part" || str_eq type "policy-commit")

module _ (parse : Bytes → Option Json) (from_base64 : String → Bytes)
    (sha256_hex : Bytes → Text) where
  abbrev pub HostStep : Type 0
  HostStep = HostAnswer × Option PolicyStageState

  abbrev pub begun : Option Json → RuntimeResult PolicyStageState → HostStep
  begun request_id (failed error) = (stage_ack policy_begin request_id (some error), none)
  begun request_id (ok stage) = (stage_ack policy_begin request_id none, some stage)

  abbrev pub accepted_part : Option Json → RuntimeResult (Unit {0}) × PolicyStageState → HostStep
  accepted_part request_id (failed error, stage) =
      (stage_ack policy_part request_id (some error), none)
  accepted_part request_id (ok done, stage) = (stage_ack policy_part request_id none, some stage)

  -- The assembled text must be an envelope that sets the project.
  abbrev pub committed_envelope : Option Json → EnvelopeResult Envelope → HostAnswer
  committed_envelope request_id (thrown error) =
      stage_ack policy_commit request_id (some project_stage_invalid)
  committed_envelope request_id (accepted envelope) =
      if not (str_eq envelope.type "runtime.project.set")
      then stage_ack policy_commit request_id (some project_stage_invalid)
      else handle_envelope envelope

  abbrev pub committed : Option Json → RuntimeResult Bytes → HostStep
  committed request_id (failed error) = (stage_ack policy_commit request_id (some error), none)
  committed request_id (ok assembled) =
      (committed_envelope request_id (parse_envelope parse assembled), none)

  abbrev pub part_step : Option Json → Fields → ℕ → Option PolicyStageState → HostStep
  part_step request_id frame now none =
      (stage_ack policy_part request_id (some project_stage_invalid), none)
  part_step request_id frame now (some stage) =
      accepted_part request_id (accept_project_part from_base64 stage frame now)

  abbrev pub commit_step : Option Json → ℕ → Option PolicyStageState → HostStep
  commit_step request_id now none =
      (stage_ack policy_commit request_id (some project_stage_invalid), none)
  commit_step request_id now (some stage) =
      committed request_id (finish_project_stage sha256_hex stage now)

  unfoldable pub handle_project_stage : String → Fields → ℕ → Option PolicyStageState → HostStep
  unfolding begin_project_stage accept_project_part finish_project_stage parse_envelope own
  handle_project_stage type frame now stage =
      if str_eq type "policy-begin"
      then begun (own "requestId" frame) (begin_project_stage frame now)
      else if str_eq type "policy-part"
      then part_step (own "requestId" frame) frame now stage
      else commit_step (own "requestId" frame) now stage

  abbrev pub envelope_answer : Option Envelope → HostAnswer
  envelope_answer none = no_response
  envelope_answer (some envelope) = handle_envelope envelope

  abbrev pub process_typed : Bytes → Fields → ℕ → Option PolicyStageState → Option String → HostStep
  process_typed frame fields now stage none =
      (envelope_answer (decode_envelope_frame parse frame), stage)
  process_typed frame fields now stage (some type) =
      if is_project_stage_type type
      then handle_project_stage type fields now stage
      else (envelope_answer (decode_envelope_frame parse frame), stage)

  abbrev pub process_decoded : Bytes → ℕ → Option PolicyStageState → RuntimeResult Json → HostStep
  process_decoded frame now stage (failed error) = (no_response, stage)
  process_decoded frame now stage (ok (object fields)) =
      process_typed frame fields now stage (string_of (own "type" fields))
  process_decoded frame now stage (ok value) =
      (envelope_answer (decode_envelope_frame parse frame), stage)

  unfoldable pub process_frame : Option PolicyStageState → Bytes → ℕ → HostStep
  unfolding decode_native_frame is_project_stage_type decode_envelope_frame handle_project_stage
  process_frame stage frame now = process_decoded frame now stage (decode_native_frame parse frame)

  -- The messages of a session, each with its time, and the answers to them.
  unfoldable pub process_frames :
      Option PolicyStageState → List (Bytes × ℕ) → List HostAnswer × Option PolicyStageState
  unfolding process_frame
  process_frames stage [] = ([], stage)
  process_frames stage ((frame, now) ∷ frames) =
      let first = process_frame stage frame now in
      let later = process_frames (first.1) frames in (first.0 ∷ later.0, later.1)

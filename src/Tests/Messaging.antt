-- ===== src/Tests/Messaging.antt =====
-- The messages of the native host: frames in chunks, envelopes, and a project in two parts.
use rogatio.Prelude.{
  ℕ, ◌+◌, ◌≡◌, ◌≤◌, refl, true, Option, none, some, List, [], ◌∷◌, ◌++◌, inl, arith, length, All,
  String, if◌then◌else◌, get_elem?, ◌==◌,
}
use rogatio.Prelude.Texts.{Text, codes}
use rogatio.Prelude.Json.{
  integer, pos, Json, null, number, string, array, object, nil, item, Fields, end, field,
}
use rogatio.Prelude.Slices.{concat}
use rogatio.Runtime.Capability.{text_eq}
use rogatio.Runtime.Results.{ok}
use rogatio.Runtime.Framing.{
  Bytes, NativeFrame, ai_status, frame_value, framed, encode_native_frame, decode_native_frame,
  policy_begin, policy_part,
}
use rogatio.Runtime.Framing.Roundtrip.{
  IsDecoded, decode_native_frame-encode_native_frame, decode_native_frame-IsDecoded,
}
use rogatio.Runtime.InputPump.{create_native_input_pump, feed_native_input_pump, feed_chunks}
use rogatio.Runtime.InputPump.Frames.{
  IsSettled, feed_native_input_pump-IsSettled, delivered, feed_chunks-stream,
}
use rogatio.Runtime.Envelope.{
  Envelope, envelope_max_bytes, contains_body_key, envelope_value, serialize_envelope,
  parse_envelope,
}
use rogatio.Runtime.Envelope.{ok as accepted}
use rogatio.Runtime.Envelope.Confidential.{HasNoBody}
use rogatio.Runtime.Envelope.Parse.{parse_envelope-serialize_envelope, envelope-HasNoBody}
use rogatio.Runtime.ProjectStage.{PolicyStageState, create_policy_stage_state, finish_project_stage}
use rogatio.Runtime.ProjectStage.Receive.{Arrival, receive}
use rogatio.Runtime.ProjectStage.Transfer.{finish_project_stage-receive}
use rogatio.Runtime.ProjectStage.Complete.{finish_project_stage-in_any_order}
use rogatio.Runtime.Host.{process_frames, stage_ack, handle_envelope}
use rogatio.Runtime.Host.Session.{IsHandled, process_frames-IsHandled}

abbrev status_frame : NativeFrame
status_frame = record {
  type = ai_status;
  request_id = some "r1";
  extension_id = none;
  policy_digest = none;
  total_bytes = none;
  part_count = some 2;
  index = none;
  part_data = none;
}

abbrev print_one : Json → Bytes
print_one value = 1 ∷ 2 ∷ 3 ∷ []

abbrev parse_as : Json → Bytes → Option Json
parse_as value bytes = some value

decode_native_frame-encode_native_frame_example :
    (bytes : Bytes) × (encode_native_frame print_one status_frame ≡ some bytes)
    × (length bytes ≡ 4 + 3)
    × (decode_native_frame (parse_as (frame_value status_frame)) bytes
        ≡ ok (frame_value status_frame))
decode_native_frame-encode_native_frame_example =
    decode_native_frame-encode_native_frame print_one (parse_as (frame_value status_frame))
      status_frame (omega arith) refl

encode_status : encode_native_frame print_one status_frame ≡ some (3 ∷ 0 ∷ 0 ∷ 0 ∷ 1 ∷ 2 ∷ 3 ∷ [])
unfolding encode_native_frame
encode_status = refl

decode_native_frame-IsDecoded_example :
    IsDecoded
      (parse_as null)
      (1 ∷ 0 ∷ 0 ∷ 0 ∷ 9 ∷ [])
      (decode_native_frame (parse_as null) (1 ∷ 0 ∷ 0 ∷ 0 ∷ 9 ∷ []))
decode_native_frame-IsDecoded_example =
    decode_native_frame-IsDecoded (parse_as null) (1 ∷ 0 ∷ 0 ∷ 0 ∷ 9 ∷ [])

abbrev payloads : List Bytes
payloads = (7 ∷ 8 ∷ []) ∷ [] ∷ (9 ∷ []) ∷ []

abbrev chunks : List Bytes
chunks =
    (2 ∷ 0 ∷ []) ∷ (0 ∷ 0 ∷ 7 ∷ []) ∷ [] ∷ (8 ∷ 0 ∷ 0 ∷ 0 ∷ 0 ∷ 1 ∷ 0 ∷ 0 ∷ 0 ∷ []) ∷ (9 ∷ []) ∷ []

feed_chunks-stream_example :
    feed_chunks create_native_input_pump chunks ≡ (delivered payloads, create_native_input_pump)
unfolding framed
feed_chunks-stream_example =
    feed_chunks-stream payloads chunks (omega arith, (omega arith, (omega arith, tt))) refl

feed_native_input_pump-IsSettled_example :
    IsSettled ((feed_native_input_pump create_native_input_pump (1 ∷ 0 ∷ 2 ∷ [])).1)
feed_native_input_pump-IsSettled_example =
    feed_native_input_pump-IsSettled create_native_input_pump (1 ∷ 0 ∷ 2 ∷ [])

-- A frame that announces 65537 bytes is dropped as it arrives.
drop_oversized :
    (feed_native_input_pump create_native_input_pump (1 ∷ 0 ∷ 1 ∷ 0 ∷ 5 ∷ 5 ∷ [])).1
    ≡ record { buffer = []; discard_payload_bytes = 65535 }
unfolding feed_native_input_pump create_native_input_pump
drop_oversized = refl

abbrev start_envelope : Envelope
start_envelope = record {
  type = "runtime.start";
  metadata = object (field "origins" (array (item (string "a") nil)) end);
  request_id = some "r2";
  timestamp = some (integer (pos 5));
}

parse_envelope-serialize_envelope_example :
    (3 ≤ envelope_max_bytes)
    × (parse_envelope (parse_as (envelope_value start_envelope)) (1 ∷ 2 ∷ 3 ∷ [])
        ≡ accepted start_envelope)
unfolding serialize_envelope
parse_envelope-serialize_envelope_example =
    parse_envelope-serialize_envelope print_one (parse_as (envelope_value start_envelope))
      start_envelope (1 ∷ 2 ∷ 3 ∷ []) refl refl (λ h. cc)

envelope-HasNoBody_example : HasNoBody (start_envelope.metadata)
unfolding serialize_envelope
envelope-HasNoBody_example =
    envelope-HasNoBody print_one (parse_as null) start_envelope (1 ∷ 2 ∷ 3 ∷ []) (inl refl) refl

-- A key deep inside is found.
find_body :
    contains_body_key
      (object (field "a" (array (item (object (field "mockBody" null end)) nil)) end))
    ≡ true
unfolding contains_body_key
find_body = refl

abbrev hex : Text
hex = codes "0123456789abcdef0123456789abcdef0123456789abcdef0123456789abcdef"

abbrev sha256_one : Bytes → Text
sha256_one bytes = hex

abbrev parts : List Bytes
parts = (5 ∷ 6 ∷ []) ∷ (7 ∷ []) ∷ []

abbrev first_part : Arrival
first_part = record { index = 0; part = 5 ∷ 6 ∷ []; at = 30 }

abbrev second_part : Arrival
second_part = record { index = 1; part = 7 ∷ []; at = 20 }

abbrev whole_stage : PolicyStageState
whole_stage = record {
  total_bytes = 3;
  part_count = 2;
  received_parts = (0, 5 ∷ 6 ∷ []) ∷ (1, 7 ∷ []) ∷ [];
  expected_digest = codes "sha256:" ++ hex;
  start_time = 10;
}

abbrev joined_parts : Bytes
joined_parts = 5 ∷ 6 ∷ 7 ∷ []

finish_project_stage-receive_example :
    (ps : List Bytes) × (length ps ≡ 2)
    × (concat ps ≡ 5 ∷ 6 ∷ 7 ∷ [])
    × (length joined_parts ≡ 3)
    × (text_eq (codes "sha256:" ++ hex) (codes "sha256:" ++ hex) ≡ true)
    × All
        (λ arrival. get_elem? ps arrival.index ≡ some arrival.part)
        (second_part ∷ first_part ∷ [])
unfolding receive create_policy_stage_state finish_project_stage text_eq
finish_project_stage-receive_example =
    finish_project_stage-receive sha256_one 3 2 (codes "sha256:" ++ hex) 10 40
      (second_part ∷ first_part ∷ []) whole_stage (5 ∷ 6 ∷ 7 ∷ []) refl refl

finish_project_stage-in_any_order_example :
    (st : PolicyStageState) × (receive
        (create_policy_stage_state 3 2 (codes "sha256:" ++ hex) 10)
        (second_part ∷ first_part ∷ [])
      ≡ ok st)
    × (finish_project_stage sha256_one st 40 ≡ ok (5 ∷ 6 ∷ 7 ∷ []))
unfolding text_eq
finish_project_stage-in_any_order_example =
    finish_project_stage-in_any_order sha256_one parts (codes "sha256:" ++ hex) 10 40
      (second_part ∷ first_part ∷ []) refl (refl, (refl, tt))
      ((refl, omega arith), ((refl, omega arith), tt)) (omega arith) refl

-- A session: a begin, the second part, the first, and the commit, each a message of one byte.
abbrev stage_field : String → Fields → Json
stage_field type fields =
    object (field "protocol" (string "v1") (field "type" (string type) fields))

abbrev whole : ℕ → Json
whole n = number (integer (pos n))

abbrev announced : String
announced = "sha256:0123456789abcdef0123456789abcdef0123456789abcdef0123456789abcdef"

abbrev parse_session : Bytes → Option Json
parse_session [] = none
parse_session (n ∷ bytes) =
    if n == 1
    then some (
        stage_field "policy-begin" (
          field "totalBytes" (whole 2)
            (field "partCount" (whole 2) (field "policyDigest" (string announced) end))))
    else if n == 2
    then some (stage_field "policy-part" (field "index" (whole 1) (field "data" (string "b") end)))
    else if n == 3
    then some (stage_field "policy-part" (field "index" (whole 0) (field "data" (string "a") end)))
    else if n == 4
    then some (stage_field "policy-commit" end)
    else some (stage_field "runtime.project.set" (field "metadata" (object end) end))

abbrev message : ℕ → Bytes
message n = 1 ∷ 0 ∷ 0 ∷ 0 ∷ n ∷ []

abbrev session : List (Bytes × ℕ)
session = (message 1, 10) ∷ (message 2, 20) ∷ (message 3, 30) ∷ (message 4, 40) ∷ []

process_frames-IsHandled_example :
    All
      (IsHandled parse_session codes sha256_one session)
      ((process_frames parse_session codes sha256_one none session).0)
process_frames-IsHandled_example = process_frames-IsHandled parse_session codes sha256_one session

-- The last message hands on the envelope that both parts make up.
set_project :
    (process_frames parse_session codes sha256_one none session).0
    ≡ stage_ack policy_begin none none
      ∷ stage_ack policy_part none none
      ∷ stage_ack policy_part none none
      ∷ handle_envelope record {
        type = "runtime.project.set";
        metadata = object end;
        request_id = none;
        timestamp = none;
      }
      ∷ []
unfolding process_frames
set_project = refl

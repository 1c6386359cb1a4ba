-- ===== src/Runtime/Framing.antt =====
-- packages/runtime/src/native-framing.ts: a message of the native host is four bytes that hold its
-- length, the least significant first, and the bytes of its JSON text. Printing and parsing JSON
-- with the UTF-8 codec are parameters.
pub mod Roundtrip
use rogatio.Prelude.{
  ℕ, ◌+◌, ◌*◌, ◌/◌, ◌%◌, ◌^◌, String, Bool, true, false, not, Option, none, some, List, [], ◌∷◌,
  ◌++◌, str_eq, ltb, ◌==◌, if◌then◌else◌, length, drop,
}
use rogatio.Prelude.Json.{
  ℤ, pos, Number, integer, Json, number, string, object, null, Fields, end, field, own,
}
use rogatio.Runtime.Results.{
  RuntimeResult, ok, failed, native_frame_too_small, native_frame_too_large,
  native_frame_length_mismatch, native_frame_invalid_protocol, native_frame_invalid_json,
}

abbrev pub Bytes : Type 0
Bytes = List ℕ

abbrev pub native_frame_max_bytes : ℕ
native_frame_max_bytes = 65536

-- `NativeFrameType`
pub data NativeFrameType : Type 0 where
  policy_begin policy_part policy_commit runtime_start runtime_stop runtime_status : NativeFrameType
  request_prepare ai_complete ai_stream_chunk ai_error ai_status : NativeFrameType

abbrev pub type_text : NativeFrameType → String
type_text policy_begin = "policy-begin"
type_text policy_part = "policy-part"
type_text policy_commit = "policy-commit"
type_text runtime_start = "runtime.start"
type_text runtime_stop = "runtime.stop"
type_text runtime_status = "runtime.status"
type_text request_prepare = "request.prepare"
type_text ai_complete = "ai.complete"
type_text ai_stream_chunk = "ai.stream.chunk"
type_text ai_error = "ai.error"
type_text ai_status = "ai.status"

-- `NativeFrame`, whose protocol is always "v1".
pub record NativeFrame : Type 0 where
  pub type : NativeFrameType
  pub request_id : Option String
  pub extension_id : Option String
  pub policy_digest : Option String
  pub total_bytes : Option ℕ
  pub part_count : Option ℕ
  pub index : Option ℕ
  pub part_data : Option String

abbrev pub text_field : String → Option String → Fields → Fields
text_field key none fields = fields
text_field key (some text) fields = field key (string text) fields

abbrev pub number_field : String → Option ℕ → Fields → Fields
number_field key none fields = fields
number_field key (some n) fields = field key (number (integer (pos n))) fields

-- The JSON value of a frame: a field that is undefined is left out.
unfoldable pub frame_value : NativeFrame → Json
frame_value frame = object (
    field "protocol" (string "v1") (
      field "type" (string (type_text frame.type)) (
        text_field "requestId" frame.request_id (
          text_field "extensionId" frame.extension_id (
            text_field "policyDigest" frame.policy_digest (
              number_field "totalBytes" frame.total_bytes (
                number_field "partCount" frame.part_count
                  (number_field "index" frame.index (text_field "data" frame.part_data end)))))))))

-- `setUint32(0, n, true)`
unfoldable pub uint32_bytes : ℕ → Bytes
uint32_bytes n = n % 256 ∷ n / 256 % 256 ∷ n / 65536 % 256 ∷ n / 16777216 % 256 ∷ []

-- `getUint32(0, true)` of at least four bytes.
unfoldable pub read_uint32 : Bytes → ℕ
read_uint32 (a ∷ b ∷ c ∷ d ∷ rest) = a + 256 * b + 65536 * c + 16777216 * d
read_uint32 _ = 0

-- The length and then the payload.
unfoldable pub framed : Bytes → Bytes
unfolding uint32_bytes
framed payload = uint32_bytes (length payload) ++ payload

-- `print`: the bytes of `JSON.stringify`. No result stands for the exception.
unfoldable pub encode_native_frame : (Json → Bytes) → NativeFrame → Option Bytes
unfolding frame_value framed
encode_native_frame print frame =
    let bytes = print (frame_value frame) in
    if ltb native_frame_max_bytes (length bytes) then none else some (framed bytes)

unfoldable pub read_native_payload_length : Bytes → RuntimeResult ℕ
unfolding read_uint32
read_native_payload_length buffer =
    if ltb (length buffer) 4
    then failed native_frame_too_small
    else if ltb native_frame_max_bytes (read_uint32 buffer)
    then failed native_frame_too_large
    else ok (read_uint32 buffer)

-- `protocol !== "v1"`, negated.
unfoldable pub is_v1 : Option Json → Bool
is_v1 (some (string text)) = str_eq text "v1"
is_v1 _ = false

-- The test of the protocol, where reading the property of `null` throws.
unfoldable pub check_protocol : Json → RuntimeResult Json
unfolding own is_v1
check_protocol null = failed native_frame_invalid_json
check_protocol (object fields) =
    if is_v1 (own "protocol" fields)
    then ok (object fields)
    else failed native_frame_invalid_protocol
check_protocol _ = failed native_frame_invalid_protocol

-- `parse`: the strict UTF-8 decoder and `JSON.parse`, with no result where one of them throws.
unfoldable pub decode_native_frame : (Bytes → Option Json) → Bytes → RuntimeResult Json
unfolding read_native_payload_length check_protocol
decode_native_frame parse buffer = elim (read_native_payload_length buffer) [
  | failed error ↦ failed error
  | ok size ↦
      if not (length buffer == 4 + size)
      then failed native_frame_length_mismatch
      else elim (parse (drop 4 buffer)) [
        | none ↦ failed native_frame_invalid_json
        | some value ↦ check_protocol value
      ]
]

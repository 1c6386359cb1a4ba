-- ===== src/Runtime/Envelope.antt =====
-- packages/runtime/src/envelope.ts: the messages between the extension and the native host. A JSON
-- text is given by its UTF-8 bytes, and JSON values have no cycles.
pub mod Confidential
pub mod Parse
use rogatio.Prelude.{
  ℕ, Bool, true, false, not, ◌&&◌, ◌||◌, Option, none, some, List, [], ◌∷◌, String, str_eq, ltb,
  if◌then◌else◌, length,
}
use rogatio.Prelude.Json.{
  Number, Json, null, boolean, number, string, array, object, Items, nil, item, Fields, end, field,
  own,
}
use rogatio.Prelude.Texts.{includes}
use rogatio.Runtime.Framing.{Bytes}

abbrev pub envelope_max_bytes : ℕ
envelope_max_bytes = 65536

abbrev pub forbidden_body_keys : List String
forbidden_body_keys = "body" ∷ "requestBody" ∷ "responseBody" ∷ "mockBody" ∷ []

abbrev pub body_check_exempt_types : List String
body_check_exempt_types = "runtime.project.set" ∷ "runtime.doctor" ∷ []

abbrev pub envelope_message_types : List String
envelope_message_types =
    "runtime.start" ∷ "runtime.stop" ∷ "runtime.status" ∷ "runtime.project.set"
    ∷ "runtime.pac.install" ∷ "runtime.pac.remove" ∷ "authority.grant" ∷ "authority.revoke"
    ∷ "transform.request" ∷ "transform.result" ∷ "pair.request" ∷ "pair.response"
    ∷ "authorize.request" ∷ "authorize.response" ∷ "mock.connect" ∷ "ai.complete"
    ∷ "ai.stream.chunk" ∷ "ai.error" ∷ "ai.status" ∷ "runtime.pick-directory"
    ∷ "runtime.check-directory" ∷ "runtime.set-file-root" ∷ "runtime.doctor" ∷ []

unfoldable pub is_message_type : String → Bool
is_message_type type = includes envelope_message_types type

pub data EnvelopeError : Type 0 where
  unknown_type metadata_required carries_body too_large : EnvelopeError
  not_json not_object protocol_mismatch type_invalid metadata_missing : EnvelopeError

pub data EnvelopeResult (A : Type 0) : Type 0 where
  ok : A → EnvelopeResult A
  thrown : EnvelopeError → EnvelopeResult A

pub record Envelope : Type 0 where
  pub type : String
  pub metadata : Json
  pub request_id : Option String
  pub timestamp : Option Number

unfoldable mutual
  pub contains_body_key : Json → Bool
  contains_body_key (array items) = items_contain items
  contains_body_key (object fields) = fields_contain fields
  contains_body_key _ = false

  pub items_contain : Items → Bool
  items_contain nil = false
  items_contain (item value items) = contains_body_key value || items_contain items

  pub fields_contain : Fields → Bool
  fields_contain end = false
  fields_contain (field key value fields) =
      includes forbidden_body_keys key || (contains_body_key value || fields_contain fields)

-- `assertNoBodyContent` does not throw.
unfoldable pub may_carry : String → Json → Bool
unfolding contains_body_key
may_carry type metadata = includes body_check_exempt_types type || not (contains_body_key metadata)

abbrev pub is_object : Json → Bool
is_object null = true
is_object (array items) = true
is_object (object fields) = true
is_object _ = false

abbrev pub request_id_field : Option String → Fields → Fields
request_id_field none fields = fields
request_id_field (some id) fields = field "requestId" (string id) fields

abbrev pub timestamp_field : Option Number → Fields → Fields
timestamp_field none fields = fields
timestamp_field (some at) fields = field "timestamp" (number at) fields

abbrev pub fields_of : String → Json → Option String → Option Number → Fields
fields_of type metadata request_id timestamp = field "protocol" (string "v1") (
    field "type" (string type)
      (field "metadata" metadata (request_id_field request_id (timestamp_field timestamp end))))

unfoldable pub envelope_value : Envelope → Json
envelope_value envelope =
    object (fields_of envelope.type envelope.metadata envelope.request_id envelope.timestamp)

-- The UTF-8 bytes of the text, for `print` the bytes of `JSON.stringify`.
unfoldable pub serialize_envelope : (Json → Bytes) → Envelope → EnvelopeResult Bytes
unfolding may_carry envelope_value is_message_type
serialize_envelope print input =
    let serialized = print (envelope_value input) in
    if not (is_message_type input.type)
    then thrown unknown_type
    else if not (is_object input.metadata)
    then thrown metadata_required
    else if not (may_carry input.type input.metadata)
    then thrown carries_body
    else if ltb envelope_max_bytes (length serialized)
    then thrown too_large
    else ok serialized

abbrev pub string_of : Option Json → Option String
string_of (some (string text)) = some text
string_of _ = none

abbrev pub number_of : Option Json → Option Number
number_of (some (number n)) = some n
number_of _ = none

-- `typeof value === "object" && value !== null`
abbrev pub object_of : Option Json → Option Json
object_of (some (array items)) = some (array items)
object_of (some (object fields)) = some (object fields)
object_of _ = none

abbrev pub is_protocol : Option String → Bool
is_protocol none = false
is_protocol (some text) = str_eq text "v1"

abbrev pub of_metadata : Fields → String → Option Json → EnvelopeResult Envelope
of_metadata fields type none = thrown metadata_missing
of_metadata fields type (some metadata) =
    if not (may_carry type metadata)
    then thrown carries_body
    else ok record {
      type = type;
      metadata = metadata;
      request_id = string_of (own "requestId" fields);
      timestamp = number_of (own "timestamp" fields);
    }

abbrev pub of_type : Fields → Option String → EnvelopeResult Envelope
of_type fields none = thrown type_invalid
of_type fields (some type) =
    if not (is_message_type type)
    then thrown type_invalid
    else of_metadata fields type (object_of (own "metadata" fields))

-- An array is an object without these properties.
unfoldable pub envelope_of : Json → EnvelopeResult Envelope
unfolding may_carry own is_message_type
envelope_of (object fields) =
    if not (is_protocol (string_of (own "protocol" fields)))
    then thrown protocol_mismatch
    else of_type fields (string_of (own "type" fields))
envelope_of (array items) = thrown protocol_mismatch
envelope_of _ = thrown not_object

unfoldable pub parse_envelope : (Bytes → Option Json) → Bytes → EnvelopeResult Envelope
unfolding envelope_of
parse_envelope parse json = elim (parse json) [
  | none ↦ thrown not_json
  | some value ↦ envelope_of value
]

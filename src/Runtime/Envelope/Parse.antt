-- ===== src/Runtime/Envelope/Parse.antt =====
-- packages/runtime/src/envelope.ts: what is serialized is parsed, and what either accepts.
use rogatio.Prelude.{
  ◌≡◌, ◌≢◌, refl, Bool, true, false, not, ◌||◌, Option, none, some, String, inl, inr, ◌⊎◌,
  Bool-cases, Option-cases, length, ltb, ◌≤◌, arith,
}
use mathlib.Core.Path.{subst}
use rogatio.Prelude.Json.{Number, Json, null, boolean, number, string, array, object, Fields, own}
use rogatio.Prelude.Texts.{includes}
use rogatio.Runtime.Framing.{Bytes}
use rogatio.Runtime.Envelope.{
  body_check_exempt_types, is_message_type, envelope_max_bytes, EnvelopeResult, ok, thrown,
  Envelope, contains_body_key, may_carry, is_object, fields_of, envelope_value, serialize_envelope,
  string_of, number_of, object_of, is_protocol, of_metadata, of_type, envelope_of, parse_envelope,
}
use rogatio.Runtime.Envelope.Confidential.{HasNoBody, contains_body_key-HasNoBody}

-- What an accepted message satisfies.
abbrev IsAllowed : EnvelopeResult Envelope → Type 0
IsAllowed (thrown error) = Unit
IsAllowed (ok envelope) =
    (is_message_type envelope.type ≡ true) × (may_carry envelope.type envelope.metadata ≡ true)

of_metadata-IsAllowed :
    (fields : Fields) (type : String) (metadata : Option Json)
    → is_message_type type ≡ true
    → IsAllowed (of_metadata fields type metadata)
of_metadata-IsAllowed fields type none known = tt
of_metadata-IsAllowed fields type (some metadata) known =
    elim (Bool-cases (may_carry type metadata)) [
      | inl clean ↦ rw clean (known, clean)
      | inr body ↦ rw body tt
    ]

of_type-IsAllowed : (fields : Fields) (type : Option String) → IsAllowed (of_type fields type)
of_type-IsAllowed fields none = tt
of_type-IsAllowed fields (some type) = elim (Bool-cases (is_message_type type)) [
  | inl known ↦
      rw known (of_metadata-IsAllowed fields type (object_of (own "metadata" fields)) known)
  | inr unknown ↦ rw unknown tt
]

envelope_of-IsAllowed : (value : Json) → IsAllowed (envelope_of value)
unfolding envelope_of
envelope_of-IsAllowed null = tt
envelope_of-IsAllowed (boolean b) = tt
envelope_of-IsAllowed (number n) = tt
envelope_of-IsAllowed (string t) = tt
envelope_of-IsAllowed (array items) = tt
envelope_of-IsAllowed (object fields) =
    elim (Bool-cases (is_protocol (string_of (own "protocol" fields)))) [
      | inl v1 ↦ rw v1 (of_type-IsAllowed fields (string_of (own "type" fields)))
      | inr other ↦ rw other tt
    ]

abbrev IsSent : (Json → Bytes) → Envelope → EnvelopeResult Bytes → Type 0
IsSent print envelope (thrown error) = Unit
IsSent print envelope (ok bytes) =
    (is_message_type envelope.type ≡ true)
    × (may_carry envelope.type envelope.metadata ≡ true)
    × (is_object envelope.metadata ≡ true)
    × (bytes ≡ print (envelope_value envelope))
    × (length bytes ≤ envelope_max_bytes)

serialize_envelope-IsSent :
    (print : Json → Bytes) (envelope : Envelope)
    → IsSent print envelope (serialize_envelope print envelope)
unfolding serialize_envelope
serialize_envelope-IsSent print envelope = elim (Bool-cases (is_message_type envelope.type)) [
  | inr unknown ↦ rw unknown tt
  | inl known ↦ elim (Bool-cases (is_object envelope.metadata)) [
    | inr none_there ↦ rw (known, none_there) tt
    | inl metadata ↦ elim (Bool-cases (may_carry envelope.type envelope.metadata)) [
      | inr body ↦ rw (known, metadata, body) tt
      | inl clean ↦
          elim (Bool-cases (ltb envelope_max_bytes (length (print (envelope_value envelope))))) [
            | inl large ↦ rw (known, metadata, clean, large) tt
            | inr fits ↦
                rw (known, metadata, clean, fits) (known, clean, metadata, refl, ground arith)
          ]
    ]
  ]
]

object_of-metadata :
    (metadata : Json)
    → is_object metadata ≡ true
    → metadata ≢ null
    → object_of (some metadata) ≡ some metadata
object_of-metadata null h ne = absurd (ne refl)
object_of-metadata (boolean b) h ne = cc
object_of-metadata (number n) h ne = cc
object_of-metadata (string t) h ne = cc
object_of-metadata (array items) h ne = refl
object_of-metadata (object fields) h ne = refl

of_type-eq :
    (fields : Fields) (type : String) (metadata : Json)
    → is_message_type type ≡ true
    → may_carry type metadata ≡ true
    → object_of (own "metadata" fields) ≡ some metadata
    → of_type fields (some type)
      ≡ ok record {
        type = type;
        metadata = metadata;
        request_id = string_of (own "requestId" fields);
        timestamp = number_of (own "timestamp" fields);
      }
of_type-eq fields type metadata known clean found = rw (known, found, clean) refl

optional_fields :
    (type : String) (metadata : Json) (request_id : Option String) (timestamp : Option Number)
    → is_message_type type ≡ true
    → may_carry type metadata ≡ true
    → object_of (some metadata) ≡ some metadata
    → envelope_of (
        envelope_value record {
          type = type;
          metadata = metadata;
          request_id = request_id;
          timestamp = timestamp;
        })
      ≡ ok record {
        type = type;
        metadata = metadata;
        request_id = request_id;
        timestamp = timestamp;
      }
unfolding envelope_of envelope_value own
optional_fields type metadata none none known clean found =
    of_type-eq (fields_of type metadata none none) type metadata known clean found
optional_fields type metadata none (some at) known clean found =
    of_type-eq (fields_of type metadata none (some at)) type metadata known clean found
optional_fields type metadata (some id) none known clean found =
    of_type-eq (fields_of type metadata (some id) none) type metadata known clean found
optional_fields type metadata (some id) (some at) known clean found =
    of_type-eq (fields_of type metadata (some id) (some at)) type metadata known clean found

-- A message that was serialized, and whose text parses back to its value, is parsed to itself,
-- unless its metadata is null; it takes at most 64 KiB.
pub parse_envelope-serialize_envelope :
    (print : Json → Bytes) (parse : Bytes → Option Json) (envelope : Envelope) (bytes : Bytes)
    → serialize_envelope print envelope ≡ ok bytes
    → parse bytes ≡ some (envelope_value envelope)
    → envelope.metadata ≢ null
    → (length bytes ≤ envelope_max_bytes) × (parse_envelope parse bytes ≡ ok envelope)
unfolding parse_envelope
parse_envelope-serialize_envelope print parse envelope bytes sent parsed ne =
    let accepted : IsSent print envelope (ok bytes) =
      subst (λ result. IsSent print envelope result) sent
        (serialize_envelope-IsSent print envelope) in
    (
      accepted.4,
      rw (parse_envelope, parsed)
          (optional_fields envelope.type envelope.metadata envelope.request_id envelope.timestamp
            (accepted.0) (accepted.1) (object_of-metadata envelope.metadata (accepted.2) ne)),
    )

parse_envelope-IsAllowed :
    (parse : Bytes → Option Json) (bytes : Bytes) → IsAllowed (parse_envelope parse bytes)
unfolding parse_envelope
parse_envelope-IsAllowed parse bytes = elim (Option-cases (parse bytes)) [
  | inl thrown_away ↦ rw (parse_envelope, thrown_away) tt
  | inr parsed ↦ rw (parse_envelope, parsed.1) (envelope_of-IsAllowed (parsed.0))
]

or_not : (a b : Bool) → a ≡ false → (a || not b) ≡ true → b ≡ false
or_not true b h k = cc
or_not false true h k = cc
or_not false false h k = refl

may_carry-clean :
    (type : String) (metadata : Json)
    → includes body_check_exempt_types type ≡ false
    → may_carry type metadata ≡ true
    → contains_body_key metadata ≡ false
unfolding may_carry
may_carry-clean type metadata checked clean =
    or_not (includes body_check_exempt_types type) (contains_body_key metadata) checked clean

-- A message that is serialized or that parses, of another type than `runtime.project.set` and
-- `runtime.doctor`, has metadata in which no object, at any depth, has a key that names a body.
pub envelope-HasNoBody :
    (print : Json → Bytes) (parse : Bytes → Option Json) (envelope : Envelope) (bytes : Bytes)
    → (serialize_envelope print envelope ≡ ok bytes) ⊎ (parse_envelope parse bytes ≡ ok envelope)
    → includes body_check_exempt_types envelope.type ≡ false
    → HasNoBody envelope.metadata
envelope-HasNoBody print parse envelope bytes accepted checked =
    (contains_body_key-HasNoBody envelope.metadata).0 (
      may_carry-clean envelope.type envelope.metadata checked
        (elim accepted [ inl sent ↦ (is_sent sent).1 | inr parsed ↦ (is_parsed parsed).1 ]))
  where
    is_sent : serialize_envelope print envelope ≡ ok bytes → IsSent print envelope (ok bytes)
    is_sent sent =
        subst (λ result. IsSent print envelope result) sent
          (serialize_envelope-IsSent print envelope)

    is_parsed : parse_envelope parse bytes ≡ ok envelope → IsAllowed (ok envelope)
    is_parsed parsed = subst IsAllowed parsed (parse_envelope-IsAllowed parse bytes)

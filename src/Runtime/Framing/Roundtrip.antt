-- ===== src/Runtime/Framing/Roundtrip.antt =====
-- packages/runtime/src/native-framing.ts: what is encoded is decoded, and what is decoded is framed.
use rogatio.Prelude.{
  ℕ, ap, sym, false, eq_iff, ◌+◌, ◌≤◌, ◌<◌, ◌≡◌, refl, true, Option, none, some, ◌++◌, arith, inl,
  inr, ◌∙◌, ◌≢◌, ◌⊎◌, ltb, ◌==◌, length, drop, Bool-cases, Option-cases,
}
use rogatio.Prelude.Json.{Json, null, boolean, number, string, array, object, Fields, own}
use rogatio.Runtime.Results.{
  RuntimeResult, ok, failed, native_frame_too_small, native_frame_too_large,
  native_frame_length_mismatch, native_frame_invalid_protocol, native_frame_invalid_json,
}
use rogatio.Runtime.Framing.{
  Bytes, NativeFrame, native_frame_max_bytes, frame_value, uint32_bytes, read_uint32, framed,
  encode_native_frame, read_native_payload_length, check_protocol, is_v1, decode_native_frame,
}

==_refl : (n : ℕ) → (n == n) ≡ true
==_refl n = ground arith

pub read_uint32-uint32_bytes :
    (n : ℕ) (rest : Bytes) → n < 4294967296 → read_uint32 (uint32_bytes n ++ rest) ≡ n
unfolding read_uint32 uint32_bytes
read_uint32-uint32_bytes n rest bound = omega arith

pub length-framed : (payload : Bytes) → length (framed payload) ≡ 4 + length payload
unfolding framed uint32_bytes
length-framed payload = omega arith

read_native_payload_length-framed :
    (payload rest : Bytes)
    → length payload ≤ native_frame_max_bytes
    → read_native_payload_length (framed payload ++ rest) ≡ ok (length payload)
unfolding read_native_payload_length framed uint32_bytes
read_native_payload_length-framed payload rest bound =
    rw (read_uint32-uint32_bytes (length payload) (payload ++ rest) (omega (arith, bound))) ground
      arith

check_protocol-frame_value :
    (frame : NativeFrame) → check_protocol (frame_value frame) ≡ ok (frame_value frame)
unfolding check_protocol frame_value own is_v1
check_protocol-frame_value frame = refl

drop-framed : (payload : Bytes) → drop 4 (framed payload) ≡ payload
unfolding framed uint32_bytes
drop-framed payload = refl

read_native_payload_length-of_framed :
    (payload : Bytes)
    → length payload ≤ native_frame_max_bytes
    → read_native_payload_length (framed payload) ≡ ok (length payload)
unfolding read_native_payload_length framed uint32_bytes
read_native_payload_length-of_framed payload bound =
    rw (read_uint32-uint32_bytes (length payload) payload (omega (arith, bound))) ground arith

decode_native_frame-framed :
    (parse : Bytes → Option Json) (payload : Bytes) (value : Json)
    → length payload ≤ native_frame_max_bytes
    → parse payload ≡ some value
    → decode_native_frame parse (framed payload) ≡ check_protocol value
unfolding decode_native_frame
decode_native_frame-framed parse payload value bound parsed =
    rw
      (
        decode_native_frame,
        read_native_payload_length-of_framed payload bound,
        length-framed payload,
        drop-framed payload,
        parsed,
        ==_refl (4 + length payload),
      )
      refl

-- A frame whose JSON text takes at most 64 KiB, and whose text parses back to its value, is encoded
-- into four bytes and the text, and those bytes are decoded to the value of the frame.
pub decode_native_frame-encode_native_frame :
    (print : Json → Bytes) (parse : Bytes → Option Json) (frame : NativeFrame)
    → length (print (frame_value frame)) ≤ native_frame_max_bytes
    → parse (print (frame_value frame)) ≡ some (frame_value frame)
    → (bytes : Bytes) × (encode_native_frame print frame ≡ some bytes)
      × (length bytes ≡ 4 + length (print (frame_value frame)))
      × (decode_native_frame parse bytes ≡ ok (frame_value frame))
unfolding encode_native_frame
decode_native_frame-encode_native_frame print parse frame bound parsed =
    let text = print (frame_value frame) in
    (
      framed text,
      ground (arith, bound),
      length-framed text,
      decode_native_frame-framed parse text (frame_value frame) bound parsed
          ∙ check_protocol-frame_value frame,
    )

-- An object whose own protocol is "v1".
abbrev pub HasProtocol : Json → Type 0
HasProtocol value =
    (fields : Fields) × (value ≡ object fields) × (own "protocol" fields ≡ some (string "v1"))

is_v1-string : (value : Option Json) → is_v1 value ≡ true → value ≡ some (string "v1")
unfolding is_v1
is_v1-string none h = cc
is_v1-string (some null) h = cc
is_v1-string (some (boolean b)) h = cc
is_v1-string (some (number n)) h = cc
is_v1-string (some (string text)) h = ap (λ t. some (string t)) ((eq_iff text "v1").0 h)
is_v1-string (some (array items)) h = cc
is_v1-string (some (object fields)) h = cc

-- An object has the protocol only if the test finds it.
not_protocol :
    (fields : Fields) → is_v1 (own "protocol" fields) ≡ false → HasProtocol (object fields) → ⊥
unfolding is_v1
not_protocol fields other (others, same, v1) =
    clash (sym (ap (λ f. is_v1 (own "protocol" f)) (fields_of same) ∙ ap is_v1 v1) ∙ other)
  where
    fields_of : {a b : Fields} → object a ≡ object b → a ≡ b
    fields_of h = cc

    clash : true ≡ false → ⊥
    clash h = cc

-- What each answer of the decoder says of the buffer.
abbrev pub IsDecoded : (Bytes → Option Json) → Bytes → RuntimeResult Json → Type 0
IsDecoded parse buffer (ok value) =
    (4 ≤ length buffer)
    × (length buffer ≤ 4 + native_frame_max_bytes)
    × (length buffer ≡ 4 + read_uint32 buffer)
    × (parse (drop 4 buffer) ≡ some value)
    × HasProtocol value
IsDecoded parse buffer (failed native_frame_too_small) = length buffer < 4
IsDecoded parse buffer (failed native_frame_too_large) = native_frame_max_bytes < read_uint32 buffer
IsDecoded parse buffer (failed native_frame_length_mismatch) =
    length buffer ≢ 4 + read_uint32 buffer
IsDecoded parse buffer (failed native_frame_invalid_json) =
    (parse (drop 4 buffer) ≡ none) ⊎ (parse (drop 4 buffer) ≡ some null)
IsDecoded parse buffer (failed native_frame_invalid_protocol) =
    (value : Json) × (parse (drop 4 buffer) ≡ some value) × (HasProtocol value → ⊥)
IsDecoded parse buffer (failed error) = ⊥

IsDecoded-check_protocol :
    (parse : Bytes → Option Json) (buffer : Bytes) (value : Json)
    → 4 ≤ length buffer
    → read_uint32 buffer ≤ native_frame_max_bytes
    → length buffer ≡ 4 + read_uint32 buffer
    → parse (drop 4 buffer) ≡ some value
    → IsDecoded parse buffer (check_protocol value)
unfolding check_protocol
IsDecoded-check_protocol parse buffer null small large exact parsed = inr parsed
IsDecoded-check_protocol parse buffer (boolean b) small large exact parsed =
    (boolean b, parsed, λ h. cc (h.1))
IsDecoded-check_protocol parse buffer (number n) small large exact parsed =
    (number n, parsed, λ h. cc (h.1))
IsDecoded-check_protocol parse buffer (string t) small large exact parsed =
    (string t, parsed, λ h. cc (h.1))
IsDecoded-check_protocol parse buffer (array t) small large exact parsed =
    (array t, parsed, λ h. cc (h.1))
IsDecoded-check_protocol parse buffer (object t) small large exact parsed =
    elim (Bool-cases (is_v1 (own "protocol" t))) [
      | inl v1 ↦ rw v1 (
        small,
        omega (arith, exact, large),
        exact,
        parsed,
        (t, refl, is_v1-string (own "protocol" t) v1),
      )
      | inr other ↦ rw other (object t, parsed, not_protocol t other)
    ]

-- Each answer of the decoder is right of the buffer: a value has the prefix of its length, at most
-- 64 KiB, and parses to an object whose own protocol is "v1"; each error names the test that failed,
-- of which a wrong protocol is that of a parsed value that is no such object, and `null` counts as
-- text that does not parse.
pub decode_native_frame-IsDecoded :
    (parse : Bytes → Option Json) (buffer : Bytes)
    → IsDecoded parse buffer (decode_native_frame parse buffer)
unfolding decode_native_frame read_native_payload_length
decode_native_frame-IsDecoded parse buffer = elim (Bool-cases (ltb (length buffer) 4)) [
  | inl small ↦ rw (decode_native_frame, read_native_payload_length, small) (ground arith)
  | inr enough ↦ elim (Bool-cases (ltb native_frame_max_bytes (read_uint32 buffer))) [
    | inl large ↦ rw (decode_native_frame, read_native_payload_length, enough, large) (ground arith)
    | inr fits ↦ elim (Bool-cases (length buffer == 4 + read_uint32 buffer)) [
      | inl exact ↦ elim (Option-cases (parse (drop 4 buffer))) [
        | inl thrown ↦
            rw (decode_native_frame, read_native_payload_length, enough, fits, exact, thrown)
              (inl thrown)
        | inr parsed ↦
            rw (decode_native_frame, read_native_payload_length, enough, fits, exact, parsed.1)
              (IsDecoded-check_protocol parse buffer (parsed.0) (ground arith) (ground arith)
                (ground arith) (parsed.1))
      ]
      | inr other ↦
          rw (decode_native_frame, read_native_payload_length, enough, fits, other) (ground arith)
    ]
  ]
]

-- ===== src/Runtime/Host/Payload.antt =====
-- packages/runtime/src/host.ts: the payload of one message, as an envelope.
use rogatio.Prelude.{
  ℕ, ◌+◌, ◌≤◌, ◌≡◌, refl, false, Option, none, some, inl, inr, arith, ◌==◌, ltb, length, drop,
  Bool-cases, ==_iff,
}
use rogatio.Prelude.Json.{Json}
use rogatio.Runtime.Envelope.{Envelope, EnvelopeResult, parse_envelope}
use rogatio.Runtime.Envelope.{ok as accepted, thrown}
use rogatio.Runtime.Framing.{Bytes, native_frame_max_bytes, read_uint32, read_native_payload_length}
use rogatio.Runtime.Results.{
  RuntimeError, RuntimeResult, ok, failed, native_frame_too_small, native_frame_too_large,
}
use rogatio.Runtime.Host.{decode_envelope_frame, payload_of}

read_native_payload_length-ok :
    (buffer : Bytes) (size : ℕ)
    → read_native_payload_length buffer ≡ ok size
    → size ≤ native_frame_max_bytes
unfolding read_native_payload_length
read_native_payload_length-ok buffer size h = elim (Bool-cases (ltb (length buffer) 4)) [
  | inl small ↦ absurd (not_ok native_frame_too_small (rw (read_native_payload_length, small) at h))
  | inr enough ↦ elim (Bool-cases (ltb native_frame_max_bytes (read_uint32 buffer))) [
    | inl large ↦
        absurd (not_ok native_frame_too_large (rw (read_native_payload_length, enough, large) at h))
    | inr fits ↦ omega (
      arith,
      same (read_uint32 buffer) (rw (read_native_payload_length, enough, fits) at h),
      fits_leb fits,
    )
  ]
]
  where
    not_ok : (error : RuntimeError) → failed error ≡ ok size → ⊥
    not_ok error h = cc

    same : (n : ℕ) → ok n ≡ ok size → n ≡ size
    same n h = cc

    fits_leb :
        ltb native_frame_max_bytes (read_uint32 buffer) ≡ false
        → read_uint32 buffer ≤ native_frame_max_bytes
    fits_leb h = ground arith

module _ (parse : Bytes → Option Json) where
  abbrev pub IsFrame : Option Envelope → Bytes → Type 0
  IsFrame none frame = Unit
  IsFrame (some envelope) frame =
      (length frame ≤ 4 + native_frame_max_bytes)
      × (parse_envelope parse (drop 4 frame) ≡ accepted envelope)

  payload_of-IsFrame :
      (frame : Bytes) (result : RuntimeResult ℕ)
      → read_native_payload_length frame ≡ result
      → IsFrame (payload_of parse frame result) frame
  payload_of-IsFrame frame (failed error) read = tt
  payload_of-IsFrame frame (ok size) read = elim (Bool-cases (length frame == 4 + size)) [
    | inr other ↦ rw other tt
    | inl exact ↦ rw exact (
        parsed (parse_envelope parse (drop 4 frame)) refl (
          omega (
            arith,
            read_native_payload_length-ok frame size read,
            (==_iff (length frame) (4 + size)).0 exact,
          )))
  ]
    where
      parsed :
          (result : EnvelopeResult Envelope)
          → parse_envelope parse (drop 4 frame) ≡ result
          → length frame ≤ 4 + native_frame_max_bytes
          → IsFrame (elim result [ thrown error ↦ none | accepted envelope ↦ some envelope ]) frame
      parsed (thrown error) same bound = tt
      parsed (accepted envelope) same bound = (bound, same)

  pub decode_envelope_frame-IsFrame :
      (frame : Bytes) → IsFrame (decode_envelope_frame parse frame) frame
  unfolding decode_envelope_frame
  decode_envelope_frame-IsFrame frame =
      payload_of-IsFrame frame (read_native_payload_length frame) refl

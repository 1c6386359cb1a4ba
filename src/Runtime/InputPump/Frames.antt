-- ===== src/Runtime/InputPump/Frames.antt =====
-- packages/runtime/src/native-input-pump.ts: the frames that come out of any chunks.
use rogatio.Prelude.{
  ℕ, zero, suc, ◌+◌, ◌≤◌, ◌<◌, ◌≡◌, refl, sym, ◌∙◌, ap, List, [], ◌∷◌, ◌++◌, arith, inl, inr, leb,
  if◌then◌else◌, length, take, drop, Bool-cases, length-append, All,
}
use rogatio.Prelude.Slices.{
  drop-append, take-append, append_nil, drop_all, take_all, append_assoc, concat,
}
use rogatio.Runtime.Framing.{Bytes, native_frame_max_bytes, read_uint32, uint32_bytes, framed}
use rogatio.Runtime.Framing.Roundtrip.{read_uint32-uint32_bytes, length-framed}
use rogatio.Runtime.InputPump.{
  NativeInputPumpState, Turn, break, continue, push, turn, turns, create_native_input_pump,
  feed_native_input_pump, feed_chunks,
}
use rogatio.Runtime.InputPump.Turns.{
  without_header, first_frame, without_frame, IsTurn, drained, discards, short, oversized, partial,
  whole, turn-of_IsTurn, turn-IsTurn, IsTurn-IsShorter, drain, a_state, drain_break, drain_continue,
  drain_push,
}
use rogatio.Runtime.InputPump.Chunks.{with_more, drain-in_two, drain_cong, discarding_enough}

-- The loop has ended, and less than a whole frame is held back.
abbrev pub IsSettled : NativeInputPumpState → Type 0
IsSettled state = (turn state ≡ break) × (length state.buffer < 4 + native_frame_max_bytes)

IsTurn-IsSettled :
    (state : NativeInputPumpState) (t : Turn) → IsTurn state t → t ≡ break → IsSettled state
IsTurn-IsSettled state _ (drained d e) same = (turn-of_IsTurn state (drained d e), omega (arith, e))
IsTurn-IsSettled state _ (short d e) same = (turn-of_IsTurn state (short d e), omega (arith, e))
IsTurn-IsSettled state _ (partial d e m l) same =
    (turn-of_IsTurn state (partial d e m l), omega (arith, m, l))
IsTurn-IsSettled state _ (discards d e) same = cc
IsTurn-IsSettled state _ (oversized d e m) same = cc
IsTurn-IsSettled state _ (whole d e m) same = cc

IsSettled-step :
    (state : NativeInputPumpState) (t : Turn)
    → IsTurn state t
    → ((next : NativeInputPumpState)
        → length next.buffer < length state.buffer
        → IsSettled ((drain next).1))
    → IsSettled ((drain state).1)
IsSettled-step state break case later =
    rw (drain_break state case) (IsTurn-IsSettled state break case refl)
IsSettled-step state (continue next) case later =
    rw (drain_continue state next case) (later next (IsTurn-IsShorter state _ case))
IsSettled-step state (push frame next) case later =
    rw (drain_push state next frame case) (later next (IsTurn-IsShorter state _ case))

drain-IsSettled_below :
    (n : ℕ) (state : NativeInputPumpState) → length state.buffer < n → IsSettled ((drain state).1)
drain-IsSettled_below zero state h = absurd (omega (arith, h))
drain-IsSettled_below (suc n) state h =
    let case = turn-IsTurn state in
    IsSettled-step state (case.0) (case.1)
      (λ next shorter. drain-IsSettled_below n next (omega (arith, shorter, h)))

drain-IsSettled : (state : NativeInputPumpState) → IsSettled ((drain state).1)
drain-IsSettled state = drain-IsSettled_below (suc (length state.buffer)) state (omega arith)

-- Whatever the pump holds and whatever arrives, feeding it ends because the loop breaks, and the
-- pump then holds less than four bytes and 64 KiB.
pub feed_native_input_pump-IsSettled :
    (state : NativeInputPumpState) (chunk : Bytes)
    → IsSettled ((feed_native_input_pump state chunk).1)
unfolding feed_native_input_pump drain
feed_native_input_pump-IsSettled state chunk = drain-IsSettled (with_more state chunk)

feed_native_input_pump-eq :
    (state : NativeInputPumpState) (chunk : Bytes)
    → feed_native_input_pump state chunk ≡ drain (with_more state chunk)
unfolding feed_native_input_pump drain
feed_native_input_pump-eq state chunk = refl

drain_of_settled : (state : NativeInputPumpState) → IsSettled state → drain state ≡ ([], state)
unfolding drain turns
drain_of_settled state settled = rw (drain, turns, settled.0) refl

-- The frames of two feeds in a row.
abbrev joined :
    List Bytes × NativeInputPumpState
    → (NativeInputPumpState → List Bytes × NativeInputPumpState)
    → List Bytes × NativeInputPumpState
joined fed rest = (fed.0 ++ (rest (fed.1)).0, (rest (fed.1)).1)

feed_chunks-cons :
    (state : NativeInputPumpState) (chunk : Bytes) (chunks : List Bytes)
    → feed_chunks state (chunk ∷ chunks)
      ≡ joined (feed_native_input_pump state chunk) (λ next. feed_chunks next chunks)
unfolding feed_chunks
feed_chunks-cons state chunk chunks = refl

feed_chunks-nil : (state : NativeInputPumpState) → feed_chunks state [] ≡ ([], state)
unfolding feed_chunks
feed_chunks-nil state = refl

feed_chunks_of_settled :
    (state : NativeInputPumpState) (chunks : List Bytes)
    → IsSettled state
    → feed_chunks state chunks ≡ drain (with_more state (concat chunks))
feed_chunks_of_settled state [] settled =
    feed_chunks-nil state
    ∙ sym (drain_of_settled state settled)
    ∙ ap (λ buffer. drain (a_state buffer state.discard_payload_bytes))
        (sym (append_nil state.buffer))
feed_chunks_of_settled state (chunk ∷ chunks) settled =
    feed_chunks-cons state chunk chunks
    ∙ ap (λ fed. joined fed (λ next. feed_chunks next chunks))
        (feed_native_input_pump-eq state chunk)
    ∙ ap (λ rest. ((drain (with_more state chunk)).0 ++ rest.0, rest.1))
        (feed_chunks_of_settled ((drain (with_more state chunk)).1) chunks
          (drain-IsSettled (with_more state chunk)))
    ∙ sym (
        drain-in_two (suc (length (state.buffer ++ chunk))) (with_more state chunk) (concat chunks)
          (omega arith))
    ∙ ap (λ buffer. drain (a_state buffer state.discard_payload_bytes))
        (append_assoc state.buffer chunk (concat chunks))

create-IsSettled : IsSettled create_native_input_pump
unfolding create_native_input_pump turn
create-IsSettled = (refl, omega arith)

-- However the input is cut into chunks, the frames that come out and what the pump then holds are
-- those of the whole input fed at once.
pub feed_chunks-concat :
    (chunks : List Bytes)
    → feed_chunks create_native_input_pump chunks
      ≡ feed_native_input_pump create_native_input_pump (concat chunks)
unfolding create_native_input_pump
feed_chunks-concat chunks =
    feed_chunks_of_settled create_native_input_pump chunks create-IsSettled
    ∙ sym (feed_native_input_pump-eq create_native_input_pump (concat chunks))

-- The bytes that senders of these payloads write.
abbrev pub stream : List Bytes → Bytes
stream [] = []
stream (payload ∷ payloads) = framed payload ++ stream payloads

-- The frames of the payloads that are not too large.
abbrev pub delivered : List Bytes → List Bytes
delivered [] = []
delivered (payload ∷ payloads) =
    let later = delivered payloads in
    if leb (length payload) native_frame_max_bytes then framed payload ∷ later else later

abbrev pub FitsUint32 : Bytes → Type 0
FitsUint32 payload = length payload < 4294967296

read_uint32-framed :
    (payload rest : Bytes)
    → FitsUint32 payload
    → read_uint32 (framed payload ++ rest) ≡ length payload
unfolding framed uint32_bytes
read_uint32-framed payload rest fit =
    read_uint32-uint32_bytes (length payload) (payload ++ rest) fit

drop-framed : (payload rest : Bytes) → drop 4 (framed payload ++ rest) ≡ payload ++ rest
unfolding framed uint32_bytes
drop-framed payload rest = refl

length-framed_rest :
    (payload rest : Bytes) → length (framed payload ++ rest) ≡ 4 + length payload + length rest
length-framed_rest payload rest =
    length-append (framed payload) rest ∙ ap (λ n. n + length rest) (length-framed payload)

framed_first :
    (payload rest : Bytes) → take (4 + length payload) (framed payload ++ rest) ≡ framed payload
framed_first payload rest = rw (← length-framed payload) (
    take-append (length (framed payload)) (framed payload) rest (omega arith)
    ∙ take_all (framed payload))

framed_rest : (payload rest : Bytes) → drop (4 + length payload) (framed payload ++ rest) ≡ rest
framed_rest payload rest = rw (← length-framed payload) (
    drop-append (length (framed payload)) (framed payload) rest (omega arith)
    ∙ ap (λ left. left ++ rest) (drop_all (length (framed payload)) (framed payload) (omega arith)))

small_first :
    (payload rest : Bytes)
    → FitsUint32 payload
    → length payload ≤ native_frame_max_bytes
    → drain (a_state (framed payload ++ rest) 0)
      ≡ (framed payload ∷ (drain (a_state rest 0)).0, (drain (a_state rest 0)).1)
small_first payload rest fit small =
    let state = a_state (framed payload ++ rest) 0 in
    let size = read_uint32-framed payload rest fit in
    drain_push state (without_frame state) (first_frame state)
      (whole refl (rw (size, length-framed_rest payload rest) omega arith) (rw size small))
    ∙ rw (size, framed_first payload rest, framed_rest payload rest) refl

large_first :
    (payload rest : Bytes)
    → FitsUint32 payload
    → native_frame_max_bytes < length payload
    → drain (a_state (framed payload ++ rest) 0) ≡ drain (a_state rest 0)
large_first payload rest fit large =
    let state = a_state (framed payload ++ rest) 0 in
    let size = read_uint32-framed payload rest fit in
    drain_continue state (without_header state)
      (oversized refl (rw (length-framed_rest payload rest) omega arith) (rw size large))
    ∙ drain_cong (drop-framed payload rest) size
    ∙ discarding_enough payload rest (length payload) (omega (arith, large)) (omega arith)
    ∙ ap (λ buffer. drain (a_state (buffer ++ rest) 0))
        (drop_all (length payload) payload (omega arith))

drain-stream :
    (payloads : List Bytes)
    → All FitsUint32 payloads
    → drain (a_state (stream payloads) 0) ≡ (delivered payloads, create_native_input_pump)
unfolding create_native_input_pump
drain-stream [] fit = drain_break (a_state [] 0) (short refl (omega arith))
drain-stream (payload ∷ payloads) fit =
    elim (Bool-cases (leb (length payload) native_frame_max_bytes)) [
      | inl small ↦ rw small (
          small_first payload (stream payloads) (fit.0) (ground arith)
          ∙ ap (λ rest. (framed payload ∷ rest.0, rest.1)) (drain-stream payloads (fit.1)))
      | inr large ↦ rw large (
          large_first payload (stream payloads) (fit.0) (ground arith)
          ∙ drain-stream payloads (fit.1))
    ]

-- Whatever messages are sent, each of less than 4 GiB, and however their bytes are cut into chunks,
-- exactly the messages of at most 64 KiB come out, in order, and nothing is left in the pump.
pub feed_chunks-stream :
    (payloads chunks : List Bytes)
    → All FitsUint32 payloads
    → concat chunks ≡ stream payloads
    → feed_chunks create_native_input_pump chunks ≡ (delivered payloads, create_native_input_pump)
unfolding create_native_input_pump
feed_chunks-stream payloads chunks fit cut =
    feed_chunks_of_settled create_native_input_pump chunks create-IsSettled
    ∙ ap (λ buffer. drain (a_state buffer 0)) cut
    ∙ drain-stream payloads fit

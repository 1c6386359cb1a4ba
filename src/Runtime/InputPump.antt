-- ===== src/Runtime/InputPump.antt =====
-- packages/runtime/src/native-input-pump.ts: the bytes that arrive on standard input are cut into
-- whole frames; the payload of a frame that is too large is dropped as it arrives.
pub mod Chunks
pub mod Frames
pub mod Turns
use rogatio.Prelude.{
  ℕ, zero, suc, ◌+◌, ◌-◌, min, Bool, true, false, List, [], ◌∷◌, ◌++◌, ltb, if◌then◌else◌, length,
  take, drop,
}
use rogatio.Runtime.Framing.{Bytes, native_frame_max_bytes, read_uint32}

pub record NativeInputPumpState : Type 0 where
  pub buffer : Bytes
  pub discard_payload_bytes : ℕ

unfoldable pub create_native_input_pump : NativeInputPumpState
create_native_input_pump = record { buffer = []; discard_payload_bytes = 0 }

-- One turn of the loop: it breaks, goes on, or pushes a frame and goes on.
pub data Turn : Type 0 where
  break : Turn
  continue : NativeInputPumpState → Turn
  push : Bytes → NativeInputPumpState → Turn

unfoldable pub turn : NativeInputPumpState → Turn
unfolding read_uint32
turn state =
    let size = read_uint32 state.buffer in
    let skip = min (length state.buffer) state.discard_payload_bytes in
    if ltb 0 state.discard_payload_bytes
    then if ltb 0 (length state.buffer)
      then continue record {
        buffer = drop skip state.buffer;
        discard_payload_bytes = state.discard_payload_bytes - skip;
      }
      else break
    else if ltb (length state.buffer) 4
    then break
    else if ltb native_frame_max_bytes size
    then continue record { buffer = drop 4 state.buffer; discard_payload_bytes = size }
    else if ltb (length state.buffer) (4 + size)
    then break
    else push (take (4 + size) state.buffer)
        (record state { buffer = drop (4 + size) state.buffer })

-- The loop; every turn that goes on makes the buffer shorter.
unfoldable pub turns : ℕ → NativeInputPumpState → List Bytes × NativeInputPumpState
unfolding turn
turns zero state = ([], state)
turns (suc fuel) state = elim (turn state) [
  | break ↦ ([], state)
  | continue next ↦ turns fuel next
  | push frame next ↦ let later = turns fuel next in (frame ∷ later.0, later.1)
]

unfoldable pub feed_native_input_pump :
    NativeInputPumpState → Bytes → List Bytes × NativeInputPumpState
unfolding turns
feed_native_input_pump state chunk =
    let fed = record state { buffer = state.buffer ++ chunk } in turns (suc (length fed.buffer)) fed

-- Chunks fed one after another, and all the frames that come out.
unfoldable pub feed_chunks : NativeInputPumpState → List Bytes → List Bytes × NativeInputPumpState
unfolding feed_native_input_pump
feed_chunks state [] = ([], state)
feed_chunks state (chunk ∷ chunks) =
    let fed = feed_native_input_pump state chunk in
    let later = feed_chunks (fed.1) chunks in (fed.0 ++ later.0, later.1)

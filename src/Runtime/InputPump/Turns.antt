-- ===== src/Runtime/InputPump/Turns.antt =====
-- packages/runtime/src/native-input-pump.ts: the ways a turn of the loop goes, and the loop has
-- turns enough.
use rogatio.Prelude.{
  ℕ, zero, suc, ◌+◌, ◌-◌, ◌≤◌, ◌<◌, ◌≡◌, refl, sym, ◌∙◌, ap, min, List, [], ◌∷◌, arith, inl, inr,
  ltb, length, take, drop, Bool-cases,
}
use rogatio.Prelude.Slices.{length-drop}
use rogatio.Runtime.Framing.{Bytes, native_frame_max_bytes, read_uint32}
use rogatio.Runtime.InputPump.{NativeInputPumpState, Turn, break, continue, push, turn, turns}

abbrev pub discarded : NativeInputPumpState → NativeInputPumpState
discarded state = record {
  buffer = drop (min (length state.buffer) state.discard_payload_bytes) state.buffer;
  discard_payload_bytes =
      state.discard_payload_bytes - min (length state.buffer) state.discard_payload_bytes;
}

abbrev pub without_header : NativeInputPumpState → NativeInputPumpState
without_header state = record {
  buffer = drop 4 state.buffer;
  discard_payload_bytes = read_uint32 state.buffer;
}

abbrev pub first_frame : NativeInputPumpState → Bytes
first_frame state = take (4 + read_uint32 state.buffer) state.buffer

abbrev pub without_frame : NativeInputPumpState → NativeInputPumpState
without_frame state = record state { buffer = drop (4 + read_uint32 state.buffer) state.buffer }

-- The six ways a turn goes.
pub data IsTurn (state : NativeInputPumpState) : Turn → Type 0 where
  drained : 0 < state.discard_payload_bytes → length state.buffer ≡ 0 → IsTurn state break
  discards :
      0 < state.discard_payload_bytes
      → 0 < length state.buffer
      → IsTurn state (continue (discarded state))
  short : state.discard_payload_bytes ≡ 0 → length state.buffer < 4 → IsTurn state break
  oversized :
      state.discard_payload_bytes ≡ 0
      → 4 ≤ length state.buffer
      → native_frame_max_bytes < read_uint32 state.buffer
      → IsTurn state (continue (without_header state))
  partial :
      state.discard_payload_bytes ≡ 0
      → 4 ≤ length state.buffer
      → read_uint32 state.buffer ≤ native_frame_max_bytes
      → length state.buffer < 4 + read_uint32 state.buffer
      → IsTurn state break
  whole :
      state.discard_payload_bytes ≡ 0
      → 4 + read_uint32 state.buffer ≤ length state.buffer
      → read_uint32 state.buffer ≤ native_frame_max_bytes
      → IsTurn state (push (first_frame state) (without_frame state))

pub turn-of_IsTurn : (state : NativeInputPumpState) {t : Turn} → IsTurn state t → turn state ≡ t
unfolding turn
turn-of_IsTurn state (drained d e) = ground arith
turn-of_IsTurn state (discards d e) = ground arith
turn-of_IsTurn state (short d e) = ground arith
turn-of_IsTurn state (oversized d e m) = ground arith
turn-of_IsTurn state (partial d e m l) = ground arith
turn-of_IsTurn state (whole d e m) = ground arith

pub turn-IsTurn : (state : NativeInputPumpState) → (t : Turn) × IsTurn state t
turn-IsTurn state = elim (Bool-cases (ltb 0 state.discard_payload_bytes)) [
  | inl discarding ↦ elim (Bool-cases (ltb 0 (length state.buffer))) [
    | inl more ↦ (_, discards (ground arith) (ground arith))
    | inr empty ↦ (_, drained (ground arith) (ground arith))
  ]
  | inr reading ↦ elim (Bool-cases (ltb (length state.buffer) 4)) [
    | inl less ↦ (_, short (ground arith) (ground arith))
    | inr enough ↦ elim (Bool-cases (ltb native_frame_max_bytes (read_uint32 state.buffer))) [
      | inl large ↦ (_, oversized (ground arith) (ground arith) (ground arith))
      | inr fits ↦ elim (Bool-cases (ltb (length state.buffer) (4 + read_uint32 state.buffer))) [
        | inl less ↦ (_, partial (ground arith) (ground arith) (ground arith) (ground arith))
        | inr all_there ↦ (_, whole (ground arith) (ground arith) (ground arith))
      ]
    ]
  ]
]

-- Turns and fuel.
turns_break :
    (fuel : ℕ) (state : NativeInputPumpState)
    → turn state ≡ break
    → turns (suc fuel) state ≡ ([], state)
unfolding turns
turns_break fuel state e = rw (turns, e) refl

turns_continue :
    (fuel : ℕ) (state next : NativeInputPumpState)
    → turn state ≡ continue next
    → turns (suc fuel) state ≡ turns fuel next
unfolding turns
turns_continue fuel state next e = rw (turns, e) refl

turns_push :
    (fuel : ℕ) (state next : NativeInputPumpState) (frame : Bytes)
    → turn state ≡ push frame next
    → turns (suc fuel) state ≡ (frame ∷ (turns fuel next).0, (turns fuel next).1)
unfolding turns
turns_push fuel state next frame e = rw (turns, e) refl

-- What a turn does to the length of the buffer.
abbrev pub IsShorter : NativeInputPumpState → Turn → Type 0
IsShorter state break = Unit
IsShorter state (continue next) = length next.buffer < length state.buffer
IsShorter state (push frame next) = length next.buffer < length state.buffer

pub IsTurn-IsShorter :
    (state : NativeInputPumpState) (t : Turn) → IsTurn state t → IsShorter state t
IsTurn-IsShorter state _ (drained d e) = tt
IsTurn-IsShorter state _ (discards d e) =
    rw (length-drop (min (length state.buffer) state.discard_payload_bytes) state.buffer) omega
      (arith, d, e)
IsTurn-IsShorter state _ (short d e) = tt
IsTurn-IsShorter state _ (oversized d e m) = rw (length-drop 4 state.buffer) omega (arith, e)
IsTurn-IsShorter state _ (partial d e m l) = tt
IsTurn-IsShorter state _ (whole d e m) =
    rw (length-drop (4 + read_uint32 state.buffer) state.buffer) omega (arith, e)

turns_stable_step :
    (n m : ℕ) (state : NativeInputPumpState) (t : Turn)
    → turn state ≡ t
    → IsShorter state t
    → ((next : NativeInputPumpState)
        → length next.buffer < length state.buffer
        → turns n next ≡ turns m next)
    → turns (suc n) state ≡ turns (suc m) state
turns_stable_step n m state break e shorter later =
    turns_break n state e ∙ sym (turns_break m state e)
turns_stable_step n m state (continue next) e shorter later =
    turns_continue n state next e ∙ later next shorter ∙ sym (turns_continue m state next e)
turns_stable_step n m state (push frame next) e shorter later =
    rw (turns_push n state next frame e, turns_push m state next frame e, later next shorter) refl

-- Any two numbers of turns greater than the length of the buffer do the same.
pub turns_stable :
    (n m : ℕ) (state : NativeInputPumpState)
    → length state.buffer < n
    → length state.buffer < m
    → turns n state ≡ turns m state
turns_stable zero m state h k = absurd (omega (arith, h))
turns_stable (suc n) zero state h k = absurd (omega (arith, k))
turns_stable (suc n) (suc m) state h k =
    let case = turn-IsTurn state in
    turns_stable_step n m state (case.0) (turn-of_IsTurn state (case.1))
      (IsTurn-IsShorter state (case.0) (case.1))
      (λ next shorter.
        turns_stable n m next (omega (arith, shorter, h)) (omega (arith, shorter, k)))

-- The loop run to its end.
unfoldable pub drain : NativeInputPumpState → List Bytes × NativeInputPumpState
drain state = turns (suc (length state.buffer)) state

pub drain_break : (state : NativeInputPumpState) → IsTurn state break → drain state ≡ ([], state)
unfolding drain
drain_break state case = turns_break (length state.buffer) state (turn-of_IsTurn state case)

pub drain_continue :
    (state next : NativeInputPumpState) → IsTurn state (continue next) → drain state ≡ drain next
unfolding drain
drain_continue state next case =
    turns_continue (length state.buffer) state next (turn-of_IsTurn state case)
    ∙ turns_stable (length state.buffer) (suc (length next.buffer)) next
        (IsTurn-IsShorter state (continue next) case) (omega arith)

pub drain_push :
    (state next : NativeInputPumpState) (frame : Bytes)
    → IsTurn state (push frame next)
    → drain state ≡ (frame ∷ (drain next).0, (drain next).1)
unfolding drain
drain_push state next frame case =
    turns_push (length state.buffer) state next frame (turn-of_IsTurn state case)
    ∙ ap (λ later. (frame ∷ later.0, later.1))
        (turns_stable (length state.buffer) (suc (length next.buffer)) next
          (IsTurn-IsShorter state (push frame next) case) (omega arith))

abbrev pub a_state : Bytes → ℕ → NativeInputPumpState
a_state buffer discard = record { buffer = buffer; discard_payload_bytes = discard }

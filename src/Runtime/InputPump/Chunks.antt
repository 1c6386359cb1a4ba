-- ===== src/Runtime/InputPump/Chunks.antt =====
-- packages/runtime/src/native-input-pump.ts: how the input is cut into chunks does not matter.
use rogatio.Prelude.{
  ℕ, zero, suc, ◌+◌, ◌-◌, ◌≤◌, ◌<◌, ◌≡◌, refl, sym, ◌∙◌, ap, min, List, [], ◌∷◌, ◌++◌, arith, inl,
  inr, leb, length, drop, Bool-cases, length-append,
}
use rogatio.Prelude.Slices.{drop-append, take-append, drop_beyond, append_nil, drop_all}
use rogatio.Runtime.Framing.{Bytes, native_frame_max_bytes, read_uint32}
use rogatio.Runtime.InputPump.{NativeInputPumpState, Turn, break, continue}
use rogatio.Runtime.InputPump.Turns.{
  discarded, without_header, first_frame, without_frame, IsTurn, drained, discards, short,
  oversized, partial, whole, turn-IsTurn, IsTurn-IsShorter, drain, a_state, drain_break,
  drain_continue, drain_push,
}

pub read_uint32-append : (xs ys : Bytes) → 4 ≤ length xs → read_uint32 (xs ++ ys) ≡ read_uint32 xs
unfolding read_uint32
read_uint32-append (a ∷ b ∷ c ∷ d ∷ xs) ys h = refl
read_uint32-append (a ∷ b ∷ c ∷ []) ys h = omega (arith, h)
read_uint32-append (a ∷ b ∷ []) ys h = omega (arith, h)
read_uint32-append (a ∷ []) ys h = omega (arith, h)
read_uint32-append [] ys h = omega (arith, h)

abbrev pub with_more : NativeInputPumpState → Bytes → NativeInputPumpState
with_more state more = record state { buffer = state.buffer ++ more }

-- First what is there, and then the rest.
abbrev pub in_two : NativeInputPumpState → Bytes → List Bytes × NativeInputPumpState
in_two state more =
    let first = drain state in
    let second = drain (with_more (first.1) more) in (first.0 ++ second.0, second.1)

drain_discarding :
    (buffer : Bytes) (discard : ℕ)
    → 0 < discard
    → 0 < length buffer
    → drain (a_state buffer discard)
      ≡ drain (
          a_state
            (drop (min (length buffer) discard) buffer)
            (discard - min (length buffer) discard))
drain_discarding buffer discard d e =
    drain_continue (a_state buffer discard) (discarded (a_state buffer discard)) (discards d e)

pub drain_cong :
    {buffer other : Bytes} {discard count : ℕ}
    → buffer ≡ other
    → discard ≡ count
    → drain (a_state buffer discard) ≡ drain (a_state other count)
drain_cong same equal = rw (same, equal) refl

min_right : (n m : ℕ) → m ≤ n → min n m ≡ m
min_right n m h = omega (arith, h)

-- Enough is there to end the discarding.
pub discarding_enough :
    (buffer more : Bytes) (discard : ℕ)
    → 0 < discard
    → discard ≤ length buffer
    → drain (a_state (buffer ++ more) discard) ≡ drain (a_state (drop discard buffer ++ more) 0)
discarding_enough buffer more discard d e =
    drain_discarding (buffer ++ more) discard d (omega (arith, length-append buffer more, d, e))
    ∙ drain_cong
        (ap (λ n. drop n (buffer ++ more))
            (min_right (length (buffer ++ more)) discard
              (omega (arith, length-append buffer more, e)))
          ∙ drop-append discard buffer more e)
        (omega (arith, length-append buffer more, e))

discarding_all :
    (buffer more : Bytes) (discard : ℕ)
    → 0 < length buffer
    → length buffer < discard
    → drain (a_state (buffer ++ more) discard) ≡ drain (a_state more (discard - length buffer))
discarding_all buffer [] discard d e =
    drain_cong (append_nil buffer) refl
    ∙ drain_discarding buffer discard (omega (arith, d, e)) d
    ∙ drain_cong (drop_all (min (length buffer) discard) buffer (omega (arith, e)))
        (omega (arith, e))
discarding_all buffer (c ∷ more) discard d e =
    let size = length-append buffer (c ∷ more) in
    drain_discarding (buffer ++ c ∷ more) discard (omega (arith, d, e)) (omega (arith, size, d))
    ∙ drain_cong
        (drop_beyond (min (length (buffer ++ c ∷ more)) discard) buffer (c ∷ more)
            (omega (arith, size, e))
          ∙ ap (λ n. drop n (c ∷ more)) (omega (arith, size, e)))
        (omega (arith, size, e))
    ∙ sym (drain_discarding (c ∷ more) (discard - length buffer) (omega (arith, e)) (omega arith))

discarding_more :
    (state : NativeInputPumpState) (more : Bytes)
    → 0 < state.discard_payload_bytes
    → 0 < length state.buffer
    → drain (with_more state more) ≡ drain (with_more (discarded state) more)
discarding_more state more d e =
    elim (Bool-cases (leb state.discard_payload_bytes (length state.buffer))) [
      | inl enough ↦
          discarding_enough state.buffer more state.discard_payload_bytes d (ground arith)
          ∙ drain_cong (ap (λ n. drop n state.buffer ++ more) (ground arith)) (ground arith)
      | inr less ↦
          discarding_all state.buffer more state.discard_payload_bytes e (ground arith)
          ∙ drain_cong
              (sym (
                ap (λ rest. rest ++ more)
                  (drop_all (min (length state.buffer) state.discard_payload_bytes) state.buffer
                    (ground arith))))
              (ground arith)
    ]

oversized_more :
    (state : NativeInputPumpState) (more : Bytes)
    → state.discard_payload_bytes ≡ 0
    → 4 ≤ length state.buffer
    → native_frame_max_bytes < read_uint32 state.buffer
    → drain (with_more state more) ≡ drain (with_more (without_header state) more)
oversized_more state more d e m =
    let size = read_uint32-append state.buffer more (omega (arith, e)) in
    drain_continue (with_more state more) (without_header (with_more state more))
      (oversized d (rw (length-append state.buffer more) omega (arith, e)) (rw size m))
    ∙ rw (size, drop-append 4 state.buffer more e) refl

whole_more :
    (state : NativeInputPumpState) (more : Bytes)
    → state.discard_payload_bytes ≡ 0
    → 4 + read_uint32 state.buffer ≤ length state.buffer
    → read_uint32 state.buffer ≤ native_frame_max_bytes
    → drain (with_more state more) ≡ (
      first_frame state ∷ (drain (with_more (without_frame state) more)).0,
      (drain (with_more (without_frame state) more)).1,
    )
whole_more state more d e m =
    let size = read_uint32-append state.buffer more (omega (arith, e)) in
    drain_push (with_more state more) (without_frame (with_more state more))
      (first_frame (with_more state more))
      (whole d (rw (size, length-append state.buffer more) omega (arith, e)) (rw size m))
    ∙ rw
        (
          size,
          take-append (4 + read_uint32 state.buffer) state.buffer more e,
          drop-append (4 + read_uint32 state.buffer) state.buffer more e,
        )
        refl

in_two_of_break :
    (state : NativeInputPumpState) (more : Bytes)
    → IsTurn state break
    → drain (with_more state more) ≡ in_two state more
in_two_of_break state more case = rw (drain_break state case) refl

in_two_of_continue :
    (state next : NativeInputPumpState) (more : Bytes)
    → IsTurn state (continue next)
    → drain (with_more state more) ≡ drain (with_more next more)
    → drain (with_more next more) ≡ in_two next more
    → drain (with_more state more) ≡ in_two state more
in_two_of_continue state next more case same later =
    rw (drain_continue state next case) (same ∙ later)

in_two_step :
    (state : NativeInputPumpState) (more : Bytes) (t : Turn)
    → IsTurn state t
    → ((next : NativeInputPumpState)
        → length next.buffer < length state.buffer
        → drain (with_more next more) ≡ in_two next more)
    → drain (with_more state more) ≡ in_two state more
in_two_step state more _ (drained d e) later = in_two_of_break state more (drained d e)
in_two_step state more _ (short d e) later = in_two_of_break state more (short d e)
in_two_step state more _ (partial d e m l) later = in_two_of_break state more (partial d e m l)
in_two_step state more _ (discards d e) later =
    in_two_of_continue state (discarded state) more (discards d e) (discarding_more state more d e)
      (later (discarded state) (IsTurn-IsShorter state _ (discards d e)))
in_two_step state more _ (oversized d e m) later =
    in_two_of_continue state (without_header state) more (oversized d e m)
      (oversized_more state more d e m)
      (later (without_header state) (IsTurn-IsShorter state _ (oversized d e m)))
in_two_step state more _ (whole d e m) later =
    rw (drain_push state (without_frame state) (first_frame state) (whole d e m)) (
      whole_more state more d e m
      ∙ ap (λ rest. (first_frame state ∷ rest.0, rest.1))
          (later (without_frame state) (IsTurn-IsShorter state _ (whole d e m))))

pub drain-in_two :
    (n : ℕ) (state : NativeInputPumpState) (more : Bytes)
    → length state.buffer < n
    → drain (with_more state more) ≡ in_two state more
drain-in_two zero state more h = absurd (omega (arith, h))
drain-in_two (suc n) state more h =
    let case = turn-IsTurn state in
    in_two_step state more (case.0) (case.1)
      (λ next shorter. drain-in_two n next more (omega (arith, shorter, h)))

-- ===== src/Runtime/ProjectStage.antt =====
-- packages/runtime/src/project-stage.ts, the stage of native-framing.ts, and the part of host.ts
-- that keeps it: a project that is too large for one message arrives in numbered parts. The
-- decoding of base64 and SHA-256, in hexadecimal digits, are parameters; `now` is `Date.now()`.
pub mod Assembly
pub mod Complete
pub mod Received
pub mod Receive
pub mod Transfer
use rogatio.Prelude.{
  ℕ, zero, suc, ◌+◌, Bool, true, false, not, ◌&&◌, ◌||◌, Option, none, some, List, [], ◌∷◌, ◌++◌,
  String, str_eq, ◌==◌, ltb, leb, if◌then◌else◌, length, drop,
}
use rogatio.Prelude.Json.{
  ℤ, pos, negsuc, Number, integer, Json, object, Fields, own, is_safe_integer,
}
use rogatio.Prelude.Texts.{Text, codes}
use rogatio.Runtime.Capability.{is_sha256_digest, text_eq}
use rogatio.Runtime.Envelope.{Envelope, string_of, number_of, parse_envelope}
use rogatio.Runtime.Envelope.{ok as parsed, thrown}
use rogatio.Runtime.Framing.{
  Bytes, NativeFrameType, policy_begin, policy_part, policy_commit, type_text, decode_native_frame,
}
use rogatio.Runtime.Results.{
  RuntimeError, RuntimeResult, ok, failed, project_stage_invalid, policy_stage_timeout,
  policy_invalid_part_index, policy_duplicate_part, policy_incomplete, policy_missing_part,
  policy_byte_count_mismatch,
}

abbrev pub native_policy_max_bytes : ℕ
native_policy_max_bytes = 262144

abbrev pub native_policy_max_frames : ℕ
native_policy_max_frames = 32

abbrev pub native_policy_stage_timeout_ms : ℕ
native_policy_stage_timeout_ms = 5000

-- The parts are a `Map` by index, of which nothing reads the order: the newest stands first.
pub record PolicyStageState : Type 0 where
  pub total_bytes : ℕ
  pub part_count : ℕ
  pub received_parts : List (ℕ × Bytes)
  pub expected_digest : Text
  pub start_time : ℕ

-- `receivedParts.get(index)` and `has(index)`
unfoldable pub part_at : ℕ → List (ℕ × Bytes) → Option Bytes
part_at index [] = none
part_at index ((i, part) ∷ parts) =
    let later = part_at index parts in if i == index then some part else later

unfoldable pub has_part : ℕ → List (ℕ × Bytes) → Bool
has_part index [] = false
has_part index ((i, part) ∷ parts) = i == index || has_part index parts

unfoldable pub create_policy_stage_state : ℕ → ℕ → Text → ℕ → PolicyStageState
create_policy_stage_state total_bytes part_count expected_digest now = record {
  total_bytes = total_bytes;
  part_count = part_count;
  received_parts = [];
  expected_digest = expected_digest;
  start_time = now;
}

unfoldable pub is_late : PolicyStageState → ℕ → Bool
is_late state now = ltb (state.start_time + native_policy_stage_timeout_ms) now

unfoldable pub add_policy_part :
    PolicyStageState → ℤ → Bytes → ℕ → RuntimeResult (Unit {0}) × PolicyStageState
unfolding is_late has_part
add_policy_part state (negsuc n) data_bytes now =
    if is_late state now
    then (failed policy_stage_timeout, state)
    else (failed policy_invalid_part_index, state)
add_policy_part state (pos index) data_bytes now =
    if is_late state now
    then (failed policy_stage_timeout, state)
    else if leb state.part_count index
    then (failed policy_invalid_part_index, state)
    else if has_part index state.received_parts
    then (failed policy_duplicate_part, state)
    else (ok tt, record state { received_parts = (index, data_bytes) ∷ state.received_parts })

-- The first loop of `commitPolicyStage`: the parts from an index on, for a count of turns.
unfoldable pub total_from : ℕ → ℕ → ℕ → List (ℕ × Bytes) → Option ℕ
unfolding part_at
total_from zero index total parts = some total
total_from (suc count) index total parts = elim (part_at index parts) [
  | none ↦ none
  | some part ↦ total_from count (suc index) (total + length part) parts
]

unfoldable pub zeros : ℕ → Bytes
zeros zero = []
zeros (suc n) = 0 ∷ zeros n

-- `array.set(part, offset)`, for a part that fits.
unfoldable pub write_at : ℕ → Bytes → Bytes → Bytes
write_at offset part [] = []
write_at (suc offset) part (x ∷ array) = x ∷ write_at offset part array
write_at zero [] (x ∷ array) = x ∷ array
write_at zero (byte ∷ part) (x ∷ array) = byte ∷ write_at zero part array

-- The second loop.
unfoldable pub assemble_from : ℕ → ℕ → ℕ → Bytes → List (ℕ × Bytes) → Option Bytes
unfolding part_at write_at
assemble_from zero index offset assembled parts = some assembled
assemble_from (suc count) index offset assembled parts = elim (part_at index parts) [
  | none ↦ none
  | some part ↦
      assemble_from count (suc index) (offset + length part) (write_at offset part assembled) parts
]

abbrev or_missing : Option Bytes → RuntimeResult Bytes
or_missing none = failed policy_missing_part
or_missing (some assembled) = ok assembled

unfoldable pub assembled_of : PolicyStageState → Option ℕ → RuntimeResult Bytes
unfolding assemble_from zeros
assembled_of state none = failed policy_missing_part
assembled_of state (some total) =
    if not (total == state.total_bytes)
    then failed policy_byte_count_mismatch
    else or_missing (assemble_from state.part_count 0 0 (zeros total) state.received_parts)

unfoldable pub commit_policy_stage : PolicyStageState → ℕ → RuntimeResult Bytes
unfolding is_late total_from assembled_of
commit_policy_stage state now =
    if is_late state now
    then failed policy_stage_timeout
    else if not (length state.received_parts == state.part_count)
    then failed policy_incomplete
    else assembled_of state (total_from state.part_count 0 0 state.received_parts)

-- A number that is a safe integer from 1 to a limit.
unfoldable pub bounded : ℕ → Option Number → Option ℕ
unfolding is_safe_integer
bounded limit (some (integer (pos n))) =
    if is_safe_integer (integer (pos n)) && (leb 1 n && leb n limit) then some n else none
bounded limit _ = none

abbrev pub begin_with : Option ℕ → Option ℕ → Option String → ℕ → RuntimeResult PolicyStageState
begin_with (some total_bytes) (some part_count) (some digest) now =
    if is_sha256_digest (codes digest)
    then ok (create_policy_stage_state total_bytes part_count (codes digest) now)
    else failed project_stage_invalid
begin_with _ _ _ now = failed project_stage_invalid

unfoldable pub begin_project_stage : Fields → ℕ → RuntimeResult PolicyStageState
unfolding bounded is_sha256_digest create_policy_stage_state own
begin_project_stage frame now =
    begin_with (bounded native_policy_max_bytes (number_of (own "totalBytes" frame)))
      (bounded native_policy_max_frames (number_of (own "partCount" frame)))
      (string_of (own "policyDigest" frame)) now

module _ (from_base64 : String → Bytes) where
  abbrev pub accept_with :
      PolicyStageState
      → Option Number
      → Option String
      → ℕ
      → RuntimeResult (Unit {0}) × PolicyStageState
  accept_with state (some (integer index)) (some text) now =
      if is_safe_integer (integer index)
      then add_policy_part state index (from_base64 text) now
      else (failed project_stage_invalid, state)
  accept_with state _ _ now = (failed project_stage_invalid, state)

  unfoldable pub accept_project_part :
      PolicyStageState → Fields → ℕ → RuntimeResult (Unit {0}) × PolicyStageState
  unfolding add_policy_part is_safe_integer own
  accept_project_part state frame now =
      accept_with state (number_of (own "index" frame)) (string_of (own "data" frame)) now

module _ (sha256_hex : Bytes → Text) where
  unfoldable pub check_digest : PolicyStageState → RuntimeResult Bytes → RuntimeResult Bytes
  unfolding text_eq
  check_digest state (failed error) = failed error
  check_digest state (ok assembled) =
      if not (text_eq (codes "sha256:" ++ sha256_hex assembled) state.expected_digest)
      then failed project_stage_invalid
      else ok assembled

  unfoldable pub finish_project_stage : PolicyStageState → ℕ → RuntimeResult Bytes
  unfolding commit_policy_stage check_digest
  finish_project_stage state now = check_digest state (commit_policy_stage state now)

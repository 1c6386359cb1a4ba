-- ===== src/Runtime/Results.antt =====
-- packages/runtime/src/types.ts, errors.ts: the result of an operation of the runtime, and the
-- error codes that the modelled operations answer.

pub data RuntimeError : Type 0 where
  pairing_denied overloaded authorization_denied : RuntimeError
  project_stage_invalid : RuntimeError
  native_frame_too_small native_frame_too_large native_frame_length_mismatch : RuntimeError
  native_frame_invalid_protocol native_frame_invalid_json : RuntimeError
  policy_stage_timeout policy_invalid_part_index policy_duplicate_part : RuntimeError
  policy_incomplete policy_missing_part policy_byte_count_mismatch : RuntimeError

pub data RuntimeResult (A : Type 0) : Type 0 where
  ok : A → RuntimeResult A
  failed : RuntimeError → RuntimeResult A

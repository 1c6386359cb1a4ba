-- ===== src/Runtime/Capability.antt =====
-- packages/runtime/src/capability.ts: pairing, sessions and operation slots. The array of sessions
-- holds references: a session object lives on while an operation holds it, also after the array
-- has dropped it. Tokens and digests are texts; random tokens are arguments, and SHA-256 is a
-- parameter. `timingSafeEqual` is equality of the bytes.
pub mod Invariant
pub mod Reach
pub mod Runs
pub mod Sessions
use rogatio.Prelude.{
  ℕ, zero, suc, ◌+◌, ◌-◌, ◌*◌, ◌/◌, Bool, true, false, not, ◌&&◌, ◌||◌, Option, none, some, List,
  [], ◌∷◌, ◌++◌, ◌==◌, leb, ltb, if◌then◌else◌, get_elem?, length, all,
}
use rogatio.Prelude.Texts.{Text}
use rogatio.Runtime.Results.{RuntimeResult, ok, failed, pairing_denied, overloaded}

-- packages/runtime/src/limits.ts
abbrev pub max_concurrent_sessions : ℕ
max_concurrent_sessions = 16

abbrev pub max_operations_per_session : ℕ
max_operations_per_session = 4

abbrev pub bootstrap_lifetime_ms : ℕ
bootstrap_lifetime_ms = 60000

abbrev pub session_lifetime_ms : ℕ
session_lifetime_ms = 600000

-- packages/runtime/src/capability.ts
abbrev pub token_bytes : ℕ
token_bytes = 32

abbrev pub token_length : ℕ
token_length = 43

pub record StoredSession : Type 0 where
  pub digest : Text
  pub expires_at : ℕ
  pub token_digest : Text
  pub active_operations : ℕ

-- `objects`: every session object ever made; `sessions`: the array, as indices into it.
pub record CapabilityState : Type 0 where
  pub preset_digest : Text
  pub bootstrap_digest : Text
  pub bootstrap_expires_at : ℕ
  pub objects : List StoredSession
  pub sessions : List ℕ
  pub consumed : Bool
  pub closed : Bool

unfoldable pub text_eq : Text → Text → Bool
text_eq [] [] = true
text_eq (c ∷ t) (d ∷ u) = c == d && text_eq t u
text_eq _ _ = false

abbrev is_token_char : ℕ → Bool
is_token_char c =
    (leb b'A' c && leb c b'Z')
    || (leb b'a' c && leb c b'z')
    || (leb b'0' c && leb c b'9')
    || c == b'_'
    || c == b'-'

-- A base64url text of n characters decodes to the bytes of 6 * n bits.
unfoldable pub is_token : Text → Bool
is_token value =
    length value == token_length && (all is_token_char value && length value * 6 / 8 == token_bytes)

abbrev is_hex : ℕ → Bool
is_hex c = (leb b'0' c && leb c b'9') || (leb b'a' c && leb c b'f')

-- `isSha256Digest`: the pattern `^sha256:[0-9a-f]{64}$`
unfoldable pub is_sha256_digest : Text → Bool
is_sha256_digest (s ∷ h ∷ a ∷ d ∷ e ∷ f ∷ c ∷ hex) =
    s == b's'
    && (h == b'h'
        && (a == b'a'
            && (d == b'2'
                && (e == b'5'
                    && (f == b'6' && (c == b':' && (length hex == 64 && all is_hex hex)))))))
is_sha256_digest _ = false

unfoldable pub same_digest : Text → Text → Bool
unfolding is_sha256_digest text_eq
same_digest value expected = is_sha256_digest value && text_eq value expected

-- `sessions[index]?.expiresAt <= now`
unfoldable pub is_expired : List StoredSession → ℕ → Option ℕ → Bool
is_expired objects now none = false
is_expired objects now (some reference) = elim (get_elem? objects reference) [
  | none ↦ false
  | some session ↦ leb session.expires_at now
]

-- `splice(index, 1)`
unfoldable pub remove_at : ℕ → List ℕ → List ℕ
remove_at index [] = []
remove_at zero (reference ∷ sessions) = sessions
remove_at (suc index) (reference ∷ sessions) = reference ∷ remove_at index sessions

-- The loop of `cleanSessions`: the indices below a count, from the last one down.
unfoldable pub clean_down : ℕ → List StoredSession → ℕ → List ℕ → List ℕ
unfolding is_expired remove_at
clean_down zero objects now sessions = sessions
clean_down (suc index) objects now sessions = clean_down index objects now (
    if is_expired objects now (get_elem? sessions index)
    then remove_at index sessions
    else sessions)

unfoldable pub clean_sessions : CapabilityState → ℕ → CapabilityState
unfolding clean_down
clean_sessions state now = record state {
  sessions = clean_down (length state.sessions) state.objects now state.sessions;
}

module _ (digest_token : Text → Text) where
  unfoldable pub create_capability_state : Text → Text → ℕ → CapabilityState
  create_capability_state preset_digest bootstrap now = record {
    preset_digest = preset_digest;
    bootstrap_digest = digest_token bootstrap;
    bootstrap_expires_at = now + bootstrap_lifetime_ms;
    objects = [];
    sessions = [];
    consumed = false;
    closed = false;
  }

  unfoldable pub same_token : Text → Text → Bool
  unfolding text_eq
  same_token value expected = text_eq (digest_token value) expected

  -- The guards of `pairCapability`; an argument that is no string is `none`.
  unfoldable pub may_pair : CapabilityState → Option Text → Option Text → ℕ → Bool
  unfolding is_token same_digest same_token
  may_pair state (some capability) (some digest) now =
      not state.closed
      && (not state.consumed
          && (is_token capability
              && (same_digest digest state.preset_digest
                  && (ltb now state.bootstrap_expires_at
                      && same_token capability state.bootstrap_digest))))
  may_pair state _ _ now = false

  unfoldable pub new_session : CapabilityState → Text → ℕ → CapabilityState
  new_session state fresh now = record state {
    consumed = true;
    objects =
        state.objects
        ++ record {
          digest = state.preset_digest;
          expires_at = now + session_lifetime_ms;
          token_digest = digest_token fresh;
          active_operations = 0;
        }
          ∷ [];
    sessions = state.sessions ++ length state.objects ∷ [];
  }

  -- `fresh`: the random session capability, which is the result.
  unfoldable pub pair_capability :
      CapabilityState → Option Text → Option Text → ℕ → Text → RuntimeResult Text × CapabilityState
  unfolding clean_sessions may_pair new_session
  pair_capability state capability digest now fresh =
      let cleaned = clean_sessions state now in
      if not (may_pair cleaned capability digest now)
      then (failed pairing_denied, cleaned)
      else if leb max_concurrent_sessions (length cleaned.sessions)
      then (failed overloaded, cleaned)
      else (ok fresh, new_session cleaned fresh now)

  -- The session of a reference has the token and the digest.
  unfoldable pub is_session_of : List StoredSession → Text → Text → ℕ → Bool
  unfolding text_eq same_digest
  is_session_of objects capability digest reference = elim (get_elem? objects reference) [
    | none ↦ false
    | some session ↦
        text_eq (digest_token capability) session.token_digest && same_digest digest session.digest
  ]

  unfoldable pub first_session : List StoredSession → Text → Text → List ℕ → Option ℕ
  unfolding is_session_of
  first_session objects capability digest [] = none
  first_session objects capability digest (reference ∷ sessions) =
      let later = first_session objects capability digest sessions in
      if is_session_of objects capability digest reference then some reference else later

  unfoldable pub search_session : CapabilityState → Option Text → Option Text → Option ℕ
  unfolding first_session is_token same_digest
  search_session state (some capability) (some digest) =
      if state.closed || not (is_token capability)
      then none
      else if not (same_digest digest state.preset_digest)
      then none
      else first_session state.objects capability digest state.sessions
  search_session state _ _ = none

  unfoldable pub find_session :
      CapabilityState → Option Text → Option Text → ℕ → Option ℕ × CapabilityState
  unfolding clean_sessions search_session
  find_session state capability digest now =
      let cleaned = clean_sessions state now in (search_session cleaned capability digest, cleaned)

unfoldable pub set_session : List StoredSession → ℕ → ℕ → List StoredSession
set_session [] reference operations = []
set_session (session ∷ objects) zero operations =
    record session { active_operations = operations } ∷ objects
set_session (session ∷ objects) (suc reference) operations =
    session ∷ set_session objects reference operations

-- `acquireOperation` on the session object of a reference, and the release that it returns.
unfoldable pub acquire_operation : CapabilityState → ℕ → RuntimeResult (Unit {0}) × CapabilityState
unfolding set_session
acquire_operation state reference = elim (get_elem? state.objects reference) [
  | none ↦ (failed overloaded, state)
  | some session ↦
      if leb max_operations_per_session session.active_operations
      then (failed overloaded, state)
      else (
        ok tt,
        record state {
          objects = set_session state.objects reference (session.active_operations + 1);
        },
      )
]

unfoldable pub release_operation : CapabilityState → ℕ → CapabilityState
unfolding set_session
release_operation state reference = elim (get_elem? state.objects reference) [
  | none ↦ state
  | some session ↦ record state {
    objects = set_session state.objects reference (session.active_operations - 1);
  }
]

unfoldable pub zero_fill : Text → Text
zero_fill [] = []
zero_fill (byte ∷ bytes) = 0 ∷ zero_fill bytes

unfoldable pub close_capability_state : CapabilityState → CapabilityState
unfolding zero_fill
close_capability_state state = record state {
  closed = true;
  consumed = true;
  sessions = [];
  bootstrap_digest = zero_fill state.bootstrap_digest;
}

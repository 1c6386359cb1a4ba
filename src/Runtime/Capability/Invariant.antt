-- ===== src/Runtime/Capability/Invariant.antt =====
-- Cleaning drops exactly the expired sessions, and what a session that is found promises.
use rogatio.Prelude.{
  ℕ, zero, suc, ◌≤◌, ◌<◌, ◌≡◌, refl, sym, Bool, true, false, not, some, List, [], ◌∷◌, arith,
  if◌then◌else◌, get_elem?, length, filter, Bool-cases, Option-cases, inl, inr,
}
use rogatio.Prelude.Texts.{Text}
use rogatio.Runtime.Capability.{
  StoredSession, CapabilityState, is_expired, remove_at, clean_down, clean_sessions, text_eq,
  same_digest, is_session_of, first_session, search_session, is_token,
}

abbrev pub is_live : List StoredSession → ℕ → ℕ → Bool
is_live objects now reference = not (is_expired objects now (some reference))

clean_down_cons :
    (n : ℕ) (objects : List StoredSession) (now reference : ℕ) (sessions : List ℕ)
    → clean_down (suc n) objects now (reference ∷ sessions) ≡ (
        if is_expired objects now (some reference)
        then clean_down n objects now sessions
        else reference ∷ clean_down n objects now sessions)
unfolding clean_down
clean_down_cons zero objects now reference sessions = ground arith
clean_down_cons (suc n) objects now reference sessions =
    elim (Bool-cases (is_expired objects now (get_elem? sessions n))) [
      | inl gone ↦ rw gone (clean_down_cons n objects now reference (remove_at n sessions))
      | inr stays ↦ rw stays (clean_down_cons n objects now reference sessions)
    ]

-- The loop of `cleanSessions`, which walks the array from its end and splices as it goes, leaves
-- exactly the sessions that are not expired, in their order.
pub clean_down-eq-filter :
    (objects : List StoredSession) (now : ℕ) (sessions : List ℕ)
    → clean_down (length sessions) objects now sessions ≡ filter (is_live objects now) sessions
clean_down-eq-filter objects now [] = unfold clean_down in refl
clean_down-eq-filter objects now (reference ∷ sessions) = ground (
  arith,
  clean_down_cons (length sessions) objects now reference sessions,
  clean_down-eq-filter objects now sessions,
)

pub length-filter :
    (p : ℕ → Bool) (sessions : List ℕ) → length (filter p sessions) ≤ length sessions
length-filter p [] = omega arith
length-filter p (reference ∷ sessions) = ground (arith, length-filter p sessions)

-- What `findSession` promises of a reference: the state is open, and the object is a session of
-- that token and that digest, not expired.
pub record IsFound (digest_token : Text → Text) (state : CapabilityState) (capability digest : Text)
    (now reference : ℕ) : Type 0 where
  is_open : state.closed ≡ false
  is_token_text : is_token capability ≡ true
  right_preset : same_digest digest state.preset_digest ≡ true
  session : StoredSession
  stored : get_elem? state.objects reference ≡ some session
  live : now < session.expires_at
  right_token : text_eq (digest_token capability) session.token_digest ≡ true
  right_digest : same_digest digest session.digest ≡ true

module _ (digest_token : Text → Text) where
  first_session-filter :
      (objects : List StoredSession) (capability digest : Text) (p : ℕ → Bool) (sessions : List ℕ)
      (reference : ℕ)
      → first_session digest_token objects capability digest (filter p sessions) ≡ some reference
      → (p reference ≡ true)
        × (is_session_of digest_token objects capability digest reference ≡ true)
  unfolding first_session
  first_session-filter objects capability digest p [] reference found = ground (arith, found)
  first_session-filter objects capability digest p (head ∷ sessions) reference found =
      ground (arith, found, first_session-filter objects capability digest p sessions reference)

  IsFound-of_object :
      (state : CapabilityState) (capability digest : Text) (now reference : ℕ)
      → state.closed ≡ false
      → is_token capability ≡ true
      → same_digest digest state.preset_digest ≡ true
      → is_live state.objects now reference ≡ true
      → is_session_of digest_token state.objects capability digest reference ≡ true
      → IsFound digest_token state capability digest now reference
  unfolding is_expired is_session_of
  IsFound-of_object state capability digest now reference opens token preset live right =
      elim (Option-cases (get_elem? state.objects reference)) [
        | inl e ↦ ground (arith, e, right)
        | inr (session, e) ↦ record {
          is_open = opens;
          is_token_text = token;
          right_preset = preset;
          session = session;
          stored = e;
          live = ground (arith, e, live);
          right_token = ground (arith, e, right);
          right_digest = ground (arith, e, right);
        }
      ]

  search_session_found :
      (state : CapabilityState) (capability digest : Text) (reference : ℕ)
      → search_session digest_token state (some capability) (some digest) ≡ some reference
      → ((state.closed ≡ false) × (is_token capability ≡ true))
        × ((same_digest digest state.preset_digest ≡ true)
            × (first_session digest_token state.objects capability digest state.sessions
                ≡ some reference))
  unfolding search_session
  search_session_found state capability digest reference found = ground (arith, found)

  pub search_session-IsFound :
      (state : CapabilityState) (capability digest : Text) (now reference : ℕ)
      → search_session digest_token (clean_sessions state now) (some capability) (some digest)
        ≡ some reference
      → IsFound digest_token state capability digest now reference
  unfolding clean_sessions
  search_session-IsFound state capability digest now reference found =
      let ((opens, token), (preset, first)) =
        search_session_found (clean_sessions state now) capability digest reference found in
      let (live, right) =
        first_session-filter state.objects capability digest (is_live state.objects now)
          state.sessions reference
          (rw (sym (clean_down-eq-filter state.objects now state.sessions)) first) in
      IsFound-of_object state capability digest now reference opens token preset live right

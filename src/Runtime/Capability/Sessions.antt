-- ===== src/Runtime/Capability/Sessions.antt =====
-- Pairing followed by a lookup, and an operation slot acquired and given back.
use rogatio.Prelude.{
  ℕ, zero, suc, ◌+◌, ◌<◌, ◌≡◌, refl, ◌∙◌, ap, ◌-◌, true, false, some, List, [], ◌∷◌, ◌++◌, arith,
  get_elem?, length, Option-cases, inl, inr,
}
use rogatio.Prelude.Texts.{Text}
use rogatio.Runtime.Capability.{
  StoredSession, CapabilityState, clean_down, text_eq, same_digest, is_token, first_session,
  is_session_of, is_expired, clean_sessions, set_session, pair_capability, find_session, may_pair,
  new_session, search_session, session_lifetime_ms, remove_at, acquire_operation, release_operation,
}
use rogatio.Runtime.Results.{ok}
use rogatio.Runtime.Capability.Reach.{IsBounded, clean_sessions-IsBounded, may_pair_unused}

text_eq_refl : (t : Text) → text_eq t t ≡ true
unfolding text_eq
text_eq_refl [] = refl
text_eq_refl (c ∷ t) = ground (arith, text_eq_refl t)

get_elem?_last :
    (objects : List StoredSession) (session : StoredSession)
    → get_elem? (objects ++ session ∷ []) (length objects) ≡ some session
get_elem?_last [] session = refl
get_elem?_last (object ∷ objects) session = get_elem?_last objects session

set_session_twice :
    (objects : List StoredSession) (reference : ℕ) (session : StoredSession) (operations : ℕ)
    → get_elem? objects reference ≡ some session
    → (set_session (set_session objects reference operations) reference session.active_operations
        ≡ objects)
      × (get_elem? (set_session objects reference operations) reference
          ≡ some (record session { active_operations = operations }))
unfolding set_session
set_session_twice [] reference session operations e = ground (arith, e)
set_session_twice (object ∷ objects) zero session operations e = ground (arith, e)
set_session_twice (object ∷ objects) (suc reference) session operations e =
    let (same, there) = set_session_twice objects reference session operations e in
    (ap (λ rest. object ∷ rest) same, there)

acquired_state :
    (state : CapabilityState) (reference : ℕ) (session : StoredSession)
    → get_elem? state.objects reference ≡ some session
    → (acquire_operation state reference).0 ≡ ok tt
    → (acquire_operation state reference).1 ≡ record state {
      objects = set_session state.objects reference (session.active_operations + 1);
    }
unfolding acquire_operation
acquired_state state reference session e granted = ground (arith, e, granted)

released_state :
    (state : CapabilityState) (objects : List StoredSession) (reference : ℕ)
    (session : StoredSession)
    → get_elem? objects reference ≡ some session
    → release_operation (record state { objects = objects }) reference
      ≡ record state { objects = set_session objects reference (session.active_operations - 1) }
unfolding release_operation
released_state state objects reference session e = rw (e, release_operation) refl

-- Giving back an operation slot that `acquireOperation` granted leaves the capability state
-- exactly as it was before.
pub release-acquire :
    (state : CapabilityState) (reference : ℕ)
    → (acquire_operation state reference).0 ≡ ok tt
    → release_operation (acquire_operation state reference).1 reference ≡ state
release-acquire state reference granted = elim (Option-cases (get_elem? state.objects reference)) [
  | inl e ↦ unfold acquire_operation in ground (arith, e, granted)
  | inr (session, e) ↦
      let (same, there) =
        set_session_twice state.objects reference session (session.active_operations + 1) e in
      let back : session.active_operations + 1 - 1 ≡ session.active_operations = omega arith in
      ap (λ s. release_operation s reference) (acquired_state state reference session e granted)
      ∙ (released_state state _ reference _ there
          ∙ (ap
                (λ n. record state {
                  objects =
                      set_session
                        (set_session state.objects reference (session.active_operations + 1))
                        reference n;
                })
                back
              ∙ ap (λ objects. record state { objects = objects }) same))
]

no_sessions :
    (state : CapabilityState) → IsBounded state → state.consumed ≡ false → state.sessions ≡ []
no_sessions state h unused = ground (arith, h.sessions_bound, unused)

module _ (digest_token : Text → Text) where
  may_pair_digest :
      (state : CapabilityState) (capability digest : Text) (now : ℕ)
      → may_pair digest_token state (some capability) (some digest) now ≡ true
      → (state.closed ≡ false) × (same_digest digest state.preset_digest ≡ true)
  unfolding may_pair
  may_pair_digest state capability digest now may = ground (arith, may)

  paired_state :
      (state : CapabilityState) (capability digest fresh : Text) (now : ℕ)
      → (pair_capability digest_token state (some capability) (some digest) now fresh).0 ≡ ok fresh
      → (may_pair digest_token (clean_sessions state now) (some capability) (some digest) now
          ≡ true)
        × ((pair_capability digest_token state (some capability) (some digest) now fresh).1
            ≡ new_session digest_token (clean_sessions state now) fresh now)
  unfolding pair_capability
  paired_state state capability digest fresh now paired = ground (arith, paired)

  find-new_session :
      (state : CapabilityState) (digest fresh : Text) (now later : ℕ)
      → state.closed ≡ false
      → state.sessions ≡ []
      → same_digest digest state.preset_digest ≡ true
      → is_token fresh ≡ true
      → later < now + session_lifetime_ms
      → (find_session digest_token
          (new_session digest_token state fresh now)
          (some fresh)
          (some digest)
          later).0
        ≡ some (length state.objects)
  unfolding find_session new_session clean_sessions clean_down is_expired search_session
      first_session is_session_of remove_at
  find-new_session state digest fresh now later opens empty preset token soon =
      let last = get_elem?_last state.objects (record {
        digest = state.preset_digest;
        expires_at = now + session_lifetime_ms;
        token_digest = digest_token fresh;
        active_operations = 0;
      }) in
      ground (arith, opens, empty, preset, token, soon, last, text_eq_refl (digest_token fresh))

  -- After a successful pairing, from any state within its bounds, the new session capability, of
  -- the form of a token, finds the new session under the same digest, until the session's
  -- lifetime has passed.
  pub find-pair_capability :
      (state : CapabilityState) (capability digest fresh : Text) (now later : ℕ)
      → IsBounded state
      → is_token fresh ≡ true
      → later < now + session_lifetime_ms
      → (pair_capability digest_token state (some capability) (some digest) now fresh).0 ≡ ok fresh
      → (find_session digest_token
          (pair_capability digest_token state (some capability) (some digest) now fresh).1
          (some fresh)
          (some digest)
          later).0
        ≡ some (length state.objects)
  unfolding clean_sessions
  find-pair_capability state capability digest fresh now later h token soon paired =
      let cleaned = clean_sessions state now in
      let (may, next) = paired_state state capability digest fresh now paired in
      let unused = may_pair_unused digest_token cleaned (some capability) (some digest) now may in
      let (opens, preset) = may_pair_digest cleaned capability digest now may in
      rw next (
        find-new_session cleaned digest fresh now later opens
          (no_sessions cleaned (clean_sessions-IsBounded state now h) unused) preset token soon)

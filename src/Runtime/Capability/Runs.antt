-- ===== src/Runtime/Capability/Runs.antt =====
-- What holds in every run of the capability state, from its creation on.
use rogatio.Prelude.{
  ℕ, ◌+◌, ◌≤◌, ◌≡◌, refl, ◌∙◌, Bool, true, false, Option, none, some, List, [], ◌∷◌, arith, leb,
  get_elem?, length, All, Bool-cases, Option-cases, inl, inr,
}
use rogatio.Prelude.Texts.{Text}
use rogatio.Runtime.Capability.{
  CapabilityState, clean_sessions, max_operations_per_session, pair_capability, find_session,
  may_pair, search_session, acquire_operation, release_operation, close_capability_state,
  create_capability_state,
}
use rogatio.Runtime.Results.{ok, failed, pairing_denied}
use rogatio.Runtime.Capability.Invariant.{IsFound, search_session-IsFound}
use rogatio.Runtime.Capability.Reach.{
  Event, pair, find, acquire, release, close, Outcome, paired, found, acquired, released, closed,
  step, run, pairings, unspent, is_overloaded_pairing, HasFewOperations, IsBounded, step-IsStep,
}

abbrev pub NotOverloaded : Outcome → Type 0
NotOverloaded outcome = is_overloaded_pairing outcome ≡ false

pub record IsRun (state : CapabilityState) (result : List Outcome × CapabilityState) : Type 0 where
  keeps : IsBounded result.1
  spends : pairings result.0 + unspent result.1 ≤ unspent state
  in_bounds : All NotOverloaded result.0

pairings_cons :
    (outcome : Outcome) (outcomes : List Outcome)
    → pairings (outcome ∷ outcomes) ≡ pairings (outcome ∷ []) + pairings outcomes
pairings_cons (paired (ok token)) outcomes = omega arith
pairings_cons (paired (failed error)) outcomes = omega arith
pairings_cons (found reference) outcomes = omega arith
pairings_cons (acquired result) outcomes = omega arith
pairings_cons released outcomes = omega arith
pairings_cons closed outcomes = omega arith

-- The outcome is no success of a pairing or of a lookup.
abbrev pub is_refused : Outcome → Bool
is_refused (paired (failed pairing_denied)) = true
is_refused (paired _) = false
is_refused (found none) = true
is_refused (found (some reference)) = false
is_refused _ = true

abbrev pub IsRefused : Outcome → Type 0
IsRefused outcome = is_refused outcome ≡ true

unspent_bound : (state : CapabilityState) → unspent state ≤ 1
unspent_bound state = ground arith

closed-release :
    (state : CapabilityState) (reference : ℕ)
    → (release_operation state reference).closed ≡ state.closed
unfolding release_operation
closed-release state reference = elim (Option-cases (get_elem? state.objects reference)) [
  | inl e ↦ rw (e, release_operation) refl
  | inr (session, e) ↦ rw (e, release_operation) refl
]

acquire_shut :
    (state : CapabilityState) (reference : ℕ)
    → state.closed ≡ true
    → ((acquire_operation state reference).1.closed ≡ true)
      × IsRefused (acquired (acquire_operation state reference).0)
unfolding acquire_operation
acquire_shut state reference shut = elim (Option-cases (get_elem? state.objects reference)) [
  | inl e ↦ rw (e, acquire_operation) (shut, refl)
  | inr (session, e) ↦
      elim (Bool-cases (leb max_operations_per_session session.active_operations)) [
        | inl full ↦ rw (e, acquire_operation, full) (shut, refl)
        | inr free ↦ rw (e, acquire_operation, free) (shut, refl)
      ]
]

module _ (digest_token : Text → Text) where
  run-IsRun :
      (state : CapabilityState) (events : List Event)
      → IsBounded state
      → IsRun state (run digest_token state events)
  unfolding run
  run-IsRun state [] h = record { keeps = h; spends = omega arith; in_bounds = tt }
  run-IsRun state (event ∷ events) h =
      let first = step-IsStep digest_token state event h in
      let next = (step digest_token state event).1 in
      let rest = run-IsRun next events first.keeps in
      record {
        keeps = rest.keeps;
        spends = omega (
          arith,
          first.spends,
          rest.spends,
          pairings_cons (step digest_token state event).0 (run digest_token next events).0,
        );
        in_bounds = (first.in_bounds, rest.in_bounds);
      }

  create-IsBounded :
      (preset bootstrap : Text) (now : ℕ)
      → IsBounded (create_capability_state digest_token preset bootstrap now)
  unfolding create_capability_state
  create-IsBounded preset bootstrap now = record {
    sessions_bound = omega arith;
    operations_bound = tt;
  }

  -- From the creation of the state on, whatever calls follow in whatever order: `pairCapability`
  -- succeeds at most once in the whole run and never answers `runtime.overloaded`, and at the end
  -- there is at most one session and no session object with more than four active operations.
  pub run-create-IsSafe :
      (preset bootstrap : Text) (now : ℕ) (events : List Event)
      → let result =
          run digest_token (create_capability_state digest_token preset bootstrap now) events in
        (pairings result.0 ≤ 1)
        × (All NotOverloaded result.0
            × ((length result.1.sessions ≤ 1) × All HasFewOperations result.1.objects))
  run-create-IsSafe preset bootstrap now events =
      let start = create_capability_state digest_token preset bootstrap now in
      let h = run-IsRun start events (create-IsBounded preset bootstrap now) in
      (
        omega (arith, h.spends, unspent_bound start),
        (h.in_bounds, (omega (arith, h.keeps.sessions_bound), h.keeps.operations_bound)),
      )

  -- A session that `findSession` returns at a time is in an open state, was made for the
  -- presented token and digest, which is the preset's, and expires after that time.
  pub find_session-IsFound :
      (state : CapabilityState) (capability digest : Text) (now reference : ℕ)
      → (find_session digest_token state (some capability) (some digest) now).0 ≡ some reference
      → IsFound digest_token state capability digest now reference
  unfolding find_session
  find_session-IsFound state capability digest now reference h =
      search_session-IsFound digest_token state capability digest now reference h

  may_pair_shut :
      (state : CapabilityState) (capability digest : Option Text) (now : ℕ)
      → state.closed ≡ true
      → may_pair digest_token state capability digest now ≡ false
  unfolding may_pair
  may_pair_shut state none digest now shut = ground arith
  may_pair_shut state (some capability) none now shut = ground arith
  may_pair_shut state (some capability) (some digest) now shut = ground (arith, shut)

  search_shut :
      (state : CapabilityState) (capability digest : Option Text)
      → state.closed ≡ true
      → search_session digest_token state capability digest ≡ none
  unfolding search_session
  search_shut state none digest shut = ground arith
  search_shut state (some capability) none shut = ground arith
  search_shut state (some capability) (some digest) shut = ground (arith, shut)

  step-IsShut :
      (state : CapabilityState) (event : Event)
      → state.closed ≡ true
      → ((step digest_token state event).1.closed ≡ true)
        × IsRefused (step digest_token state event).0
  unfolding step clean_sessions pair_capability find_session
  step-IsShut state (pair capability digest now fresh) shut =
      rw (may_pair_shut (clean_sessions state now) capability digest now shut, pair_capability)
        (shut, refl)
  step-IsShut state (find capability digest now) shut =
      rw (search_shut (clean_sessions state now) capability digest shut, find_session) (shut, refl)
  step-IsShut state (acquire reference) shut = acquire_shut state reference shut
  step-IsShut state (release reference) shut = (closed-release state reference ∙ shut, refl)
  step-IsShut state close shut = unfold close_capability_state in (refl, refl)

  -- Once the state is closed, every later run leaves it closed, and each pairing in it is denied
  -- and each lookup finds nothing.
  pub run-IsShut :
      (state : CapabilityState) (events : List Event)
      → state.closed ≡ true
      → ((run digest_token state events).1.closed ≡ true)
        × All IsRefused (run digest_token state events).0
  unfolding run
  run-IsShut state [] shut = (shut, tt)
  run-IsShut state (event ∷ events) shut =
      let (stays, refused) = step-IsShut state event shut in
      let (last, later) = run-IsShut (step digest_token state event).1 events stays in
      (last, (refused, later))

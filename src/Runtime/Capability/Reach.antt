-- ===== src/Runtime/Capability/Reach.antt =====
-- Runs of the capability state: pairing, lookups, operation slots and closing, in any order.
use rogatio.Prelude.{
  ℕ, zero, suc, ◌+◌, ◌≤◌, ◌≡◌, refl, ap, ◌-◌, Bool, true, false, Option, none, some, List, [], ◌∷◌,
  ◌++◌, arith, leb, if◌then◌else◌, get_elem?, length, length-append, All, Bool-cases, Option-cases,
  inl, inr,
}
use rogatio.Prelude.Texts.{Text}
use rogatio.Runtime.Capability.{
  StoredSession, CapabilityState, clean_sessions, set_session, max_operations_per_session,
  pair_capability, find_session, may_pair, new_session, max_concurrent_sessions, acquire_operation,
  release_operation, close_capability_state,
}
use rogatio.Runtime.Results.{RuntimeResult, ok, failed, overloaded}
use rogatio.Runtime.Capability.Invariant.{is_live, clean_down-eq-filter, length-filter}

-- A call, with what the outside supplies: the arguments of the request, the clock, the random token.
pub data Event : Type 0 where
  pair : Option Text → Option Text → ℕ → Text → Event
  find : Option Text → Option Text → ℕ → Event
  acquire release : ℕ → Event
  close : Event

pub data Outcome : Type 0 where
  paired : RuntimeResult Text → Outcome
  found : Option ℕ → Outcome
  acquired : RuntimeResult (Unit {0}) → Outcome
  released closed : Outcome

abbrev with_outcome {ℓ} :
    {A : Type ℓ} → (A → Outcome) → A × CapabilityState → Outcome × CapabilityState
with_outcome outcome (value, state) = (outcome value, state)

module _ (digest_token : Text → Text) where
  unfoldable pub step : CapabilityState → Event → Outcome × CapabilityState
  step state (pair capability digest now fresh) =
      with_outcome paired (pair_capability digest_token state capability digest now fresh)
  step state (find capability digest now) =
      with_outcome found (find_session digest_token state capability digest now)
  step state (acquire reference) = with_outcome acquired (acquire_operation state reference)
  step state (release reference) = (released, release_operation state reference)
  step state close = (closed, close_capability_state state)

  unfoldable pub run : CapabilityState → List Event → List Outcome × CapabilityState
  unfolding step
  run state [] = ([], state)
  run state (event ∷ events) =
      let (outcome, next) = step state event in
      let (outcomes, last) = run next events in (outcome ∷ outcomes, last)

abbrev pub pairings : List Outcome → ℕ
pairings [] = 0
pairings (paired (ok token) ∷ outcomes) = suc (pairings outcomes)
pairings (_ ∷ outcomes) = pairings outcomes

-- How many pairings a state still allows.
abbrev pub unspent : CapabilityState → ℕ
unspent state = if state.consumed then 0 else 1

abbrev pub is_overloaded_pairing : Outcome → Bool
is_overloaded_pairing (paired (failed overloaded)) = true
is_overloaded_pairing _ = false

abbrev pub HasFewOperations : StoredSession → Type 0
HasFewOperations session = session.active_operations ≤ max_operations_per_session

pub record IsBounded (state : CapabilityState) : Type 0 where
  pub sessions_bound : length state.sessions + unspent state ≤ 1
  pub operations_bound : All HasFewOperations state.objects

-- A step keeps the bounds, spends the one pairing, and is no pairing that is refused for overload.
pub record IsStep (state : CapabilityState) (result : Outcome × CapabilityState) : Type 0 where
  pub keeps : IsBounded result.1
  pub spends : pairings (result.0 ∷ []) + unspent result.1 ≤ unspent state
  pub in_bounds : is_overloaded_pairing (result.0) ≡ false

All-append :
    (xs : List StoredSession) (x : StoredSession)
    → All HasFewOperations xs
    → HasFewOperations x
    → All HasFewOperations (xs ++ x ∷ [])
All-append [] x h hx = (hx, tt)
All-append (y ∷ xs) x (hy, h) hx = (hy, All-append xs x h hx)

All-set_session :
    (objects : List StoredSession) (reference operations : ℕ)
    → All HasFewOperations objects
    → operations ≤ max_operations_per_session
    → All HasFewOperations (set_session objects reference operations)
unfolding set_session
All-set_session [] reference operations h bound = h
All-set_session (session ∷ objects) zero operations (hs, h) bound = (bound, h)
All-set_session (session ∷ objects) (suc reference) operations (hs, h) bound =
    (hs, All-set_session objects reference operations h bound)

All-get_elem? :
    (objects : List StoredSession) (reference : ℕ) (session : StoredSession)
    → All HasFewOperations objects
    → get_elem? objects reference ≡ some session
    → HasFewOperations session
All-get_elem? [] reference session h e = ground (arith, e)
All-get_elem? (object ∷ objects) zero session (ho, h) e = ground (arith, e, ho)
All-get_elem? (object ∷ objects) (suc reference) session (ho, h) e =
    All-get_elem? objects reference session h e

pub clean_sessions-IsBounded :
    (state : CapabilityState) (now : ℕ) → IsBounded state → IsBounded (clean_sessions state now)
unfolding clean_sessions
clean_sessions-IsBounded state now h = record {
  sessions_bound = omega (
    arith,
    h.sessions_bound,
    ap length (clean_down-eq-filter state.objects now state.sessions),
    length-filter (is_live state.objects now) state.sessions,
  );
  operations_bound = h.operations_bound;
}

close-IsBounded :
    (state : CapabilityState) → IsBounded state → IsBounded (close_capability_state state)
unfolding close_capability_state
close-IsBounded state h = record {
  sessions_bound = omega arith;
  operations_bound = h.operations_bound;
}

release-IsBounded :
    (state : CapabilityState) (reference : ℕ)
    → IsBounded state
    → IsBounded (release_operation state reference)
unfolding release_operation
release-IsBounded state reference h = elim (Option-cases (get_elem? state.objects reference)) [
  | inl e ↦ rw (e, release_operation) h
  | inr (session, e) ↦
      rw (e, release_operation)
        (record {
          sessions_bound = h.sessions_bound;
          operations_bound =
              All-set_session state.objects reference (session.active_operations - 1)
                h.operations_bound
                (omega (arith, All-get_elem? state.objects reference session h.operations_bound e));
        })
]

consumed-release :
    (state : CapabilityState) (reference : ℕ)
    → unspent (release_operation state reference) ≡ unspent state
unfolding release_operation
consumed-release state reference = elim (Option-cases (get_elem? state.objects reference)) [
  | inl e ↦ rw (e, release_operation) refl
  | inr (session, e) ↦ rw (e, release_operation) refl
]

acquire-IsStep :
    (state : CapabilityState) (reference : ℕ)
    → IsBounded state
    → IsStep state (with_outcome acquired (acquire_operation state reference))
unfolding acquire_operation
acquire-IsStep state reference h = elim (Option-cases (get_elem? state.objects reference)) [
  | inl e ↦ rw (e, acquire_operation) (record { keeps = h; spends = omega arith; in_bounds = refl })
  | inr (session, e) ↦
      elim (Bool-cases (leb max_operations_per_session session.active_operations)) [
        | inl full ↦
            rw (e, acquire_operation, full)
              (record { keeps = h; spends = omega arith; in_bounds = refl })
        | inr free ↦
            rw (e, acquire_operation, free)
              (record {
                keeps = record {
                  sessions_bound = h.sessions_bound;
                  operations_bound =
                      All-set_session state.objects reference (session.active_operations + 1)
                        h.operations_bound (ground (arith, free));
                };
                spends = omega arith;
                in_bounds = refl;
              })
      ]
]

module _ (digest_token : Text → Text) where
  new_session-IsBounded :
      (state : CapabilityState) (fresh : Text) (now : ℕ)
      → IsBounded state
      → state.consumed ≡ false
      → IsBounded (new_session digest_token state fresh now)
  unfolding new_session
  new_session-IsBounded state fresh now h unused = record {
    sessions_bound =
        ground (
          arith,
          h.sessions_bound,
          unused,
          length-append state.sessions (length state.objects ∷ []),
        );
    operations_bound = All-append state.objects _ h.operations_bound (omega arith);
  }

  pub may_pair_unused :
      (state : CapabilityState) (capability digest : Option Text) (now : ℕ)
      → may_pair digest_token state capability digest now ≡ true
      → state.consumed ≡ false
  unfolding may_pair
  may_pair_unused state none digest now may = ground (arith, may)
  may_pair_unused state (some capability) none now may = ground (arith, may)
  may_pair_unused state (some capability) (some digest) now may = ground (arith, may)

  consumed-clean_sessions :
      (state : CapabilityState) (now : ℕ) → unspent (clean_sessions state now) ≡ unspent state
  unfolding clean_sessions
  consumed-clean_sessions state now = refl

  pair-IsStep :
      (state : CapabilityState) (capability digest : Option Text) (now : ℕ) (fresh : Text)
      → IsBounded state
      → IsStep state
          (with_outcome paired (pair_capability digest_token state capability digest now fresh))
  unfolding pair_capability
  pair-IsStep state capability digest now fresh h =
      let cleaned = clean_sessions state now in
      let bounded = clean_sessions-IsBounded state now h in
      elim (Bool-cases (may_pair digest_token cleaned capability digest now)) [
        | inr denied ↦
            rw (denied, pair_capability)
              (record {
                keeps = bounded;
                spends = omega (arith, consumed-clean_sessions state now);
                in_bounds = refl;
              })
        | inl may ↦
            let unused = may_pair_unused cleaned capability digest now may in
            elim (Bool-cases (leb max_concurrent_sessions (length cleaned.sessions))) [
              | inl full ↦ ground (arith, full, bounded.sessions_bound)
              | inr room ↦
                  rw (may, pair_capability, room)
                    (record {
                      keeps = new_session-IsBounded cleaned fresh now bounded unused;
                      spends = ground (arith, consumed-clean_sessions state now, unused);
                      in_bounds = refl;
                    })
            ]
      ]

  pub step-IsStep :
      (state : CapabilityState) (event : Event)
      → IsBounded state
      → IsStep state (step digest_token state event)
  unfolding step
  step-IsStep state (pair capability digest now fresh) h =
      pair-IsStep state capability digest now fresh h
  step-IsStep state (find capability digest now) h =
      unfold find_session in
      record {
        keeps = clean_sessions-IsBounded state now h;
        spends = omega (arith, consumed-clean_sessions state now);
        in_bounds = refl;
      }
  step-IsStep state (acquire reference) h = acquire-IsStep state reference h
  step-IsStep state (release reference) h = record {
    keeps = release-IsBounded state reference h;
    spends = omega (arith, consumed-release state reference);
    in_bounds = refl;
  }
  step-IsStep state close h = record {
    keeps = close-IsBounded state h;
    spends = unfold close_capability_state in omega arith;
    in_bounds = refl;
  }

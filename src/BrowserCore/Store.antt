-- ===== src/BrowserCore/Store.antt =====
-- The `StorageAdapter` contract of packages/browser-core/src/types.ts: one stored value that the
-- repository shares with other writers. `read` and `compareAndSwap` are atomic; what other writers
-- do, and which calls throw, is a list of events, one taken by each call.
use rogatio.Prelude.{ℕ, Bool, true, false, Option, none, some, List, [], ◌∷◌, if◌then◌else◌}

module _ (Raw : Type 0) where
  pub record Event : Type 0 where
    pub foreign : Option Raw  -- written by another writer just before the call
    pub throws : Bool
    pub clock : ℕ  -- the time at the call

  pub record Store : Type 0 where
    pub content : Raw
    pub clock : ℕ
    pub events : List Event

module _ {Raw : Type 0} where
  abbrev pub written : Raw → Option Raw → Raw
  written old none = old
  written old (some new) = new

  -- Does the call throw, and the store that it finds; with no event left nothing interferes.
  abbrev pub take_event : List (Event Raw) → Store Raw → Bool × Store Raw
  take_event [] store = (false, store)
  take_event (event ∷ events) store = (
    event.throws,
    record { content = written store.content event.foreign; clock = event.clock; events = events },
  )

  unfoldable pub advance : Store Raw → Bool × Store Raw
  advance store = take_event store.events store

  unfoldable pub read : Store Raw → Option Raw × Store Raw
  unfolding advance
  read store =
      let (throws, found) = advance store in (if throws then none else some found.content, found)

  -- `same`: the structural comparison. A call that throws swaps nothing.
  unfoldable pub compare_and_swap : (Raw → Raw → Bool) → Raw → Raw → Store Raw → Bool × Store Raw
  unfolding advance
  compare_and_swap same previous next store =
      let (throws, found) = advance store in
      if throws
      then (false, found)
      else if same found.content previous
      then (true, record found { content = next })
      else (false, found)

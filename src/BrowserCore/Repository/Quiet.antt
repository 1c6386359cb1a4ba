-- ===== src/BrowserCore/Repository/Quiet.antt =====
-- Progress: a mutation that has something to commit commits it, when nothing interferes.
use rogatio.Prelude.{ℕ, suc, ◌≡◌, ap, Bool, true, false, Option, some, []}
use rogatio.BrowserCore.Types.{StoredProject, StoredEnvelope, ok}
use rogatio.BrowserCore.Store.{Store, take_event, advance, read, compare_and_swap}
use rogatio.BrowserCore.Envelope.{Mutation, commit}
use rogatio.BrowserCore.Repository.{Platform, decoded, attempt, mutate}

pub advance_quiet :
    {Raw : Type 0} (store : Store Raw) → store.events ≡ [] → advance store ≡ (false, store)
unfolding advance
advance_quiet store h = ap (λ events. take_event events store) h

module _ {Raw Input : Type 0} (platform : Platform Raw Input) {A : Type 0}
    (build : ℕ → StoredEnvelope → Mutation A) where
  attempt_quiet :
      (attempts : ℕ) (find : Option (StoredEnvelope → Option StoredProject)) (store : Store Raw)
      (envelope next : StoredEnvelope) (value : A)
      → store.events ≡ []
      → platform.migrate store.content ≡ some envelope
      → build store.clock envelope ≡ commit next value
      → platform.same store.content store.content ≡ true
      → attempt platform (suc attempts) find build store
        ≡ (ok value, record store { content = platform.encode next })
  unfolding attempt read compare_and_swap
  attempt_quiet attempts find store envelope next value quiet decodes builds same =
      rw (advance_quiet store quiet)
        (rw (decodes, decoded) (rw builds (rw (advance_quiet store quiet, same))))

  -- A mutation in a quiet store, with or without retry, reaches its commit: when the content
  -- decodes, the mutation of what it decodes to commits a next envelope, and the content compares
  -- as the same as itself, the repository answers the mutation's value and the store holds the
  -- next envelope's encoding.
  pub mutate_quiet :
      (retry : Bool) (find : Option (StoredEnvelope → Option StoredProject)) (store : Store Raw)
      (envelope next : StoredEnvelope) (value : A)
      → store.events ≡ []
      → platform.migrate store.content ≡ some envelope
      → build store.clock envelope ≡ commit next value
      → platform.same store.content store.content ≡ true
      → mutate platform retry find build store
        ≡ (ok value, record store { content = platform.encode next })
  unfolding mutate
  mutate_quiet true find store envelope next value quiet decodes builds same =
      attempt_quiet 2 find store envelope next value quiet decodes builds same
  mutate_quiet false find store envelope next value quiet decodes builds same =
      attempt_quiet 0 find store envelope next value quiet decodes builds same

-- ===== src/BrowserCore/Repository/Commits.antt =====
-- What a mutation of the repository does to the stored value: it succeeds by one atomic swap of
-- the value that its result was computed from, or leaves every write to other writers.
use rogatio.Prelude.{
  ℕ, zero, suc, ◌≡◌, ◌⊎◌, refl, Bool, true, false, Option, none, some, inl, inr, Bool-cases,
  if◌then◌else◌, arith,
}
use rogatio.BrowserCore.Types.{
  StoredProject, StoredEnvelope, CoreResult, ok, conflicts, fails, strays,
}
use rogatio.BrowserCore.Store.{Store, advance, read, compare_and_swap}
use rogatio.BrowserCore.Envelope.{Mutation, commit, conflict, failure, stray}
use rogatio.BrowserCore.Repository.{
  Platform, decoded, read_envelope, unless_current, after_fresh, after_swap, settle, after_read,
  attempt, mutate,
}

-- What is read is the content after the read.
read_content :
    {Raw : Type 0} (store : Store Raw) (raw : Raw)
    → (read store).0 ≡ some raw
    → raw ≡ (read store).1.content
unfolding read
read_content store raw found = ground (arith, found)

-- Only other writers act between two stores, one event for each call.
pub data Passes {Raw : Type 0} (store : Store Raw) : Store Raw → Type 0 where
  stay : Passes store store
  step : {later : Store Raw} → Passes store later → Passes store (advance later).1

module _ {Raw Input : Type 0} (platform : Platform Raw Input) {A : Type 0}
    (build : ℕ → StoredEnvelope → Mutation A) where
  -- A commit: the swap found a value that is the same as the one read, from which the committed
  -- envelope and the result were built.
  pub record IsCommit (start : Store Raw) (value : A) (final : Store Raw) : Type 0 where
    pub before : Store Raw
    pub passed : Passes start before
    pub raw : Raw
    pub envelope : StoredEnvelope
    pub time : ℕ
    pub next : StoredEnvelope
    pub decoded : platform.migrate raw ≡ some envelope
    pub built : build time envelope ≡ commit next value
    pub unchanged : platform.same (advance before).1.content raw ≡ true
    pub written : final ≡ record (advance before).1 { content = platform.encode next }

  -- The mutation went on with a name that every object inherits, of which no more is said.
  pub record IsStray (start : Store Raw) : Type 0 where
    pub before : Store Raw
    pub passed : Passes start before
    pub raw : Raw
    pub envelope : StoredEnvelope
    pub time : ℕ
    pub held : raw ≡ before.content
    pub decoded : platform.migrate raw ≡ some envelope
    pub built : build time envelope ≡ stray

  abbrev pub MutateIsRight : Store Raw → CoreResult A × Store Raw → Type 0
  MutateIsRight start (ok value, final) = IsCommit start value final
  MutateIsRight start (conflicts current diagnostics, final) = Passes start final
  MutateIsRight start (fails diagnostics, final) = Passes start final
  MutateIsRight start (strays, final) = IsStray start

  abbrev swapped : Raw → StoredEnvelope → Store Raw → Bool × Store Raw
  swapped raw next before = compare_and_swap platform.same raw (platform.encode next) before

  swap-cases :
      (raw : Raw) (next : StoredEnvelope) (before : Store Raw)
      → (((swapped raw next before).0 ≡ false) × ((swapped raw next before).1 ≡ (advance before).1))
        ⊎ (((swapped raw next before).0 ≡ true)
            × (platform.same (advance before).1.content raw ≡ true)
            × ((swapped raw next before).1
                ≡ record (advance before).1 { content = platform.encode next }))
  unfolding compare_and_swap
  swap-cases raw next before = elim (Bool-cases (advance before).0) [
    | inl throws ↦ inl (rw throws, rw throws)
    | inr quiet ↦ elim (Bool-cases (platform.same (advance before).1.content raw)) [
      | inl same ↦ inr (rw (quiet, same), same, rw (quiet, same))
      | inr differs ↦ inl (rw (quiet, differs), rw (quiet, differs))
    ]
  ]

  module _ (start : Store Raw) (find : Option (StoredEnvelope → Option StoredProject))
      (again : Store Raw → CoreResult A × Store Raw)
      (ih : (s : Store Raw) → Passes start s → MutateIsRight start (again s)) where
    unless_current-IsRight :
        (current : Option StoredProject) (s : Store Raw)
        → Passes start s
        → MutateIsRight start (unless_current platform again current s)
    unless_current-IsRight none s p = ih s p
    unless_current-IsRight (some current) s p = p

    after_fresh-IsRight :
        (look : StoredEnvelope → Option StoredProject) (fresh : Option (Raw × StoredEnvelope))
        (s : Store Raw)
        → Passes start s
        → MutateIsRight start (after_fresh platform look again fresh s)
    after_fresh-IsRight look none s p = p
    after_fresh-IsRight look (some (raw, envelope)) s p = unless_current-IsRight (look envelope) s p

    not_swapped-IsRight :
        (chosen : Option (StoredEnvelope → Option StoredProject)) (value : A) (s : Store Raw)
        → Passes start s
        → MutateIsRight start (after_swap platform chosen again value false s)
    unfolding read_envelope read
    not_swapped-IsRight none value s p = ih s p
    not_swapped-IsRight (some look) value s p =
        after_fresh-IsRight look (read_envelope platform s).0 (read_envelope platform s).1 (step p)

    settle-IsRight :
        (raw : Raw) (envelope : StoredEnvelope) (time : ℕ) (m : Mutation A) (s : Store Raw)
        → Passes start s
        → raw ≡ s.content
        → platform.migrate raw ≡ some envelope
        → build time envelope ≡ m
        → MutateIsRight start (settle platform find again raw m s)
    settle-IsRight raw envelope time (conflict current) s p held d b = p
    settle-IsRight raw envelope time (failure diagnostics) s p held d b = p
    settle-IsRight raw envelope time stray s p held d b = record {
      before = s;
      passed = p;
      raw = raw;
      envelope = envelope;
      time = time;
      held = held;
      decoded = d;
      built = b;
    }
    settle-IsRight raw envelope time (commit new value) s p held d b = elim (swap-cases raw new s) [
      | inl (lost, after) ↦ rw (lost, after) (not_swapped-IsRight find value _ (step p))
      | inr (won, same, after) ↦
          rw (won, after)
            (record {
              before = s;
              passed = p;
              raw = raw;
              envelope = envelope;
              time = time;
              next = new;
              decoded = d;
              built = b;
              unchanged = same;
              written = refl;
            })
    ]

    after_read-IsRight :
        (found : Option Raw) (s : Store Raw)
        → Passes start s
        → ((raw : Raw) → found ≡ some raw → raw ≡ s.content)
        → MutateIsRight start (after_read platform find again build (decoded platform found) s)
    after_read-IsRight none s p held = p
    after_read-IsRight (some raw) s p held = of_migrated (platform.migrate raw) refl
      where
        of_migrated :
            (envelope : Option StoredEnvelope)
            → platform.migrate raw ≡ envelope
            → MutateIsRight start (
                after_read platform find again build
                  (elim envelope [ none ↦ none | some e ↦ some (raw, e) ])
                  s)
        of_migrated none d = p
        of_migrated (some envelope) d =
            settle-IsRight raw envelope s.clock (build s.clock envelope) s p (held raw refl) d refl

  attempt-IsRight :
      (start : Store Raw) (attempts : ℕ) (find : Option (StoredEnvelope → Option StoredProject))
      (s : Store Raw)
      → Passes start s
      → MutateIsRight start (attempt platform attempts find build s)
  unfolding attempt read
  attempt-IsRight start zero find s p = p
  attempt-IsRight start (suc attempts) find s p =
      after_read-IsRight start find (λ later. attempt platform attempts find build later)
        (λ later q. attempt-IsRight start attempts find later q) (read s).0 (read s).1 (step p)
        (λ raw found. read_content s raw found)

  -- Whatever other writers do and whichever calls throw: a mutation that succeeds has replaced, by
  -- one swap, a value that is the same as the one that its envelope was decoded from, by the
  -- envelope that was built from it, with the result that was built with it; a mutation that does
  -- not succeed has written nothing. A mutation that strays is one whose id was looked up, in an
  -- envelope that was decoded, as a name that every object inherits, and of that no more is said.
  pub mutate-IsRight :
      (retry : Bool) (find : Option (StoredEnvelope → Option StoredProject)) (start : Store Raw)
      → MutateIsRight start (mutate platform retry find build start)
  unfolding mutate
  mutate-IsRight retry find start = attempt-IsRight start (if retry then 3 else 1) find start stay

-- ===== src/BrowserCore/Repository/Keeps.antt =====
-- Every operation of the repository keeps the stored value well formed, between any writes of
-- other writers that do.
use mathlib.Core.Path.{subst}
use rogatio.Prelude.{ℕ, ◌≡◌, refl, sym, ap, ◌∙◌, Bool, true, Option, none, some, List, [], ◌∷◌, All}
use rogatio.BrowserCore.Types.{
  StoredProject, StoredEnvelope, CoreResult, ok, conflicts, fails, strays,
}
use rogatio.BrowserCore.Store.{Event, Store, written, take_event, advance}
use rogatio.BrowserCore.Envelope.{Mutation, commit, conflict, failure, stray}
use rogatio.BrowserCore.Envelope.Valid.{IsValid}
use rogatio.BrowserCore.Envelope.Replace.{IsRight}
use rogatio.BrowserCore.Repository.{Platform, mutate}
use rogatio.BrowserCore.Repository.Commits.{
  Passes, stay, step, IsCommit, IsStray, MutateIsRight, mutate-IsRight,
}

abbrev pub CommitsValid : {A : Type 0} → Mutation A → Type 0
CommitsValid (commit next value) = IsValid next
CommitsValid (conflict current) = Unit
CommitsValid (failure diagnostics) = Unit
CommitsValid stray = ⊥

module _ {Raw Input : Type 0} (platform : Platform Raw Input) where
  -- A stored value that decodes, decodes to a valid envelope.
  abbrev pub IsGood : Raw → Type 0
  IsGood raw = (envelope : StoredEnvelope) → platform.migrate raw ≡ some envelope → IsValid envelope

  abbrev pub WritesGood : Event Raw → Type 0
  WritesGood event = (raw : Raw) → event.foreign ≡ some raw → IsGood raw

  -- The content is good, and so is all that other writers will write.
  pub record IsWellKept (store : Store Raw) : Type 0 where
    pub content_good : IsGood store.content
    pub events_good : All WritesGood store.events

  -- What a valid envelope is stored as decodes to a valid envelope.
  abbrev pub EncodesValid : Type 0
  EncodesValid = (envelope : StoredEnvelope) → IsValid envelope → IsGood (platform.encode envelope)

  written-IsGood :
      (old : Raw) (foreign : Option Raw)
      → IsGood old
      → ((raw : Raw) → foreign ≡ some raw → IsGood raw)
      → IsGood (written old foreign)
  written-IsGood old none h k = h
  written-IsGood old (some raw) h k = k raw refl

  take_event-IsWellKept :
      (events : List (Event Raw)) (store : Store Raw)
      → All WritesGood events
      → IsWellKept store
      → IsWellKept (take_event events store).1
  take_event-IsWellKept [] store h k = k
  take_event-IsWellKept (event ∷ events) store h k = record {
    content_good = written-IsGood store.content event.foreign k.content_good h.0;
    events_good = h.1;
  }

  pub advance-IsWellKept : (store : Store Raw) → IsWellKept store → IsWellKept (advance store).1
  unfolding advance
  advance-IsWellKept store k = take_event-IsWellKept store.events store k.events_good k

  Passes-IsWellKept : {s t : Store Raw} → Passes s t → IsWellKept s → IsWellKept t
  Passes-IsWellKept stay k = k
  Passes-IsWellKept (step {later} p) k = advance-IsWellKept later (Passes-IsWellKept p k)

  -- The structural comparison finds equal what is equal only.
  abbrev pub SameIsEqual : Type 0
  SameIsEqual = (a b : Raw) → platform.same a b ≡ true → a ≡ b

  module _ (encodes : EncodesValid) (equal : SameIsEqual) where
    committed-IsWellKept :
        {A : Type 0} (build : ℕ → StoredEnvelope → Mutation A)
        (valid : (now : ℕ) (e : StoredEnvelope) → IsValid e → CommitsValid (build now e))
        (start final : Store Raw) (value : A)
        → IsCommit platform build start value final
        → IsWellKept start
        → IsWellKept final
    committed-IsWellKept build valid start final value c k =
        let found = advance-IsWellKept c.before (Passes-IsWellKept c.passed k) in
        let read_valid = found.content_good c.envelope (
          ap platform.migrate (equal (advance c.before).1.content c.raw c.unchanged) ∙ c.decoded) in
        let next_valid = subst CommitsValid c.built (valid c.time c.envelope read_valid) in
        subst IsWellKept (sym c.written)
          (record { content_good = encodes c.next next_valid; events_good = found.events_good })

    stray_not_valid :
        {A : Type 0} (build : ℕ → StoredEnvelope → Mutation A)
        (valid : (now : ℕ) (e : StoredEnvelope) → IsValid e → CommitsValid (build now e))
        (start : Store Raw)
        → IsStray platform build start
        → IsWellKept start
        → ⊥
    stray_not_valid build valid start h k =
        let found =
          (Passes-IsWellKept h.passed k).content_good h.envelope
            (ap platform.migrate (sym h.held) ∙ h.decoded) in
        subst CommitsValid h.built (valid h.time h.envelope found)

    result-IsWellKept :
        {A : Type 0} (build : ℕ → StoredEnvelope → Mutation A)
        (valid : (now : ℕ) (e : StoredEnvelope) → IsValid e → CommitsValid (build now e))
        (start : Store Raw) (result : CoreResult A) (final : Store Raw)
        → MutateIsRight platform build start (result, final)
        → IsWellKept start
        → IsWellKept final
    result-IsWellKept build valid start (ok value) final h k =
        committed-IsWellKept build valid start final value h k
    result-IsWellKept build valid start (conflicts current diagnostics) final h k =
        Passes-IsWellKept h k
    result-IsWellKept build valid start (fails diagnostics) final h k = Passes-IsWellKept h k
    result-IsWellKept build valid start strays final h k =
        absurd (stray_not_valid build valid start h k)

    pub mutate-IsWellKept :
        {A : Type 0} (build : ℕ → StoredEnvelope → Mutation A) (retry : Bool)
        (find : Option (StoredEnvelope → Option StoredProject)) (start : Store Raw)
        → ((now : ℕ) (e : StoredEnvelope) → IsValid e → CommitsValid (build now e))
        → IsWellKept start
        → IsWellKept (mutate platform retry find build start).1
    mutate-IsWellKept build retry find start valid k =
        result-IsWellKept build valid start (mutate platform retry find build start).0
          (mutate platform retry find build start).1
          (mutate-IsRight platform build retry find start) k

pub CommitsValid-of_IsRight :
    (current : StoredEnvelope) (m : Mutation StoredProject) → IsRight current m → CommitsValid m
CommitsValid-of_IsRight current (commit next value) h = h.0
CommitsValid-of_IsRight current (conflict stored) h = tt
CommitsValid-of_IsRight current (failure diagnostics) h = tt
CommitsValid-of_IsRight current stray h = h

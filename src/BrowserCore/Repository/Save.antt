-- ===== src/BrowserCore/Repository/Save.antt =====
-- Saving a project of packages/browser-core/src/repository.ts at the revision that its caller saw.
use mathlib.Core.Path.{subst}
use rogatio.Prelude.{
  ℕ, ◌+◌, ◌≡◌, sym, ap, ◌∙◌, false, some, [], String, inl, inr, arith, Option-cases,
}
use rogatio.Prelude.Dict.{get}
use rogatio.BrowserCore.Types.{StoredProject, StoredEnvelope, ok}
use rogatio.BrowserCore.Store.{Store}
use rogatio.BrowserCore.Envelope.{
  commit, Validation, valid, invalid, build_save, build_update, replace_project,
}
use rogatio.BrowserCore.Repository.{Platform, save_project}
use rogatio.BrowserCore.Repository.Commits.{IsCommit, MutateIsRight, mutate-IsRight}

-- What a committed save did to the envelope.
pub record IsSaved (id : String) (validation : Validation) (expected now : ℕ)
    (current next : StoredEnvelope) (saved : StoredProject) : Type 0 where
  pub existing : StoredProject
  pub was_stored : get id current.projects ≡ some existing
  pub was_expected : existing.revision ≡ expected
  pub new_revision : saved.revision ≡ expected + 1
  pub same_id : saved.id ≡ existing.id
  pub created : saved.created_at ≡ existing.created_at
  pub updated : saved.updated_at ≡ now
  pub disabled : saved.enabled_group_ids ≡ []
  pub validated : validation ≡ valid saved.contents
  pub named : saved.name ≡ saved.contents.name
  pub stored : next ≡ replace_project current saved

module _ (id : String) (expected now : ℕ) (current next : StoredEnvelope)
    (existing saved : StoredProject) (found : get id current.projects ≡ some existing) where
  build_update-IsSaved :
      (validation : Validation)
      → build_update now current existing validation (some expected) ≡ commit next saved
      → IsSaved id validation expected now current next saved
  unfolding build_update
  build_update-IsSaved (invalid diagnostics) h = absurd (ground arith)
  build_update-IsSaved (valid validated) h =
      let updated : StoredProject = record existing {
        name = validated.name;
        contents = validated;
        revision = existing.revision + 1;
        updated_at = now;
        enabled_group_ids = [];
      } in
      let same : updated ≡ saved = ground arith in
      let kept : replace_project current updated ≡ next = ground arith in
      let fits : existing.revision ≡ expected = ground arith in
      record {
        existing = existing;
        was_stored = found;
        was_expected = fits;
        new_revision = sym (ap (λ p. p.revision) same) ∙ ap (λ r. r + 1) fits;
        same_id = sym (ap (λ p. p.id) same);
        created = sym (ap (λ p. p.created_at) same);
        updated = sym (ap (λ p. p.updated_at) same);
        disabled = sym (ap (λ p. p.enabled_group_ids) same);
        validated = ap (λ p. valid p.contents) same;
        named = sym (ap (λ p. p.name) same) ∙ ap (λ p. p.contents.name) same;
        stored = sym kept ∙ ap (replace_project current) same;
      }

build_save-IsSaved :
    (id : String) (validation : Validation) (expected now : ℕ) (current next : StoredEnvelope)
    (saved : StoredProject)
    → build_save now current id validation expected ≡ commit next saved
    → IsSaved id validation expected now current next saved
unfolding build_save
build_save-IsSaved id validation expected now current next saved h =
    elim (Option-cases (get id current.projects)) [
      | inl missing ↦ absurd (ground arith)
      | inr (existing, found) ↦
          build_update-IsSaved id expected now current next existing saved found validation
            (ground arith)
    ]

module _ {Raw Input : Type 0} (platform : Platform Raw Input) where
  -- The committed envelope of a save.
  pub record SaveIsRight (id : String) (input : Input) (expected : ℕ) (start : Store Raw)
      (saved : StoredProject) (final : Store Raw) : Type 0 where
    pub committed :
        IsCommit platform
          (λ now current. build_save now current id (platform.validate input) expected)
          start
          saved
          final
    pub effect :
        IsSaved id
          (platform.validate input)
          expected
          committed.time
          committed.envelope
          committed.next
          saved

  -- A save that succeeds has found, in the very value that it replaced by one swap, the project at
  -- the revision that the caller expected, and has stored the validated data at the next revision,
  -- with every group disabled and the creation time kept.
  pub save_project-SaveIsRight :
      (id : String) (input : Input) (expected : ℕ) (start final : Store Raw) (saved : StoredProject)
      → save_project platform id input expected start ≡ (ok saved, final)
      → SaveIsRight id input expected start saved final
  unfolding save_project
  save_project-SaveIsRight id input expected start final saved h =
      let c = subst (MutateIsRight platform _ start) h (mutate-IsRight platform _ false _ start) in
      record { committed = c; effect = build_save-IsSaved id _ expected _ _ _ saved c.built }

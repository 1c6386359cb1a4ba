-- ===== src/BrowserCore/Repository.antt =====
-- packages/browser-core/src/repository.ts: `ProjectRepository`. Each operation is a function of the
-- store; `mutate` is the read, build and compare-and-swap loop with at most three attempts.
-- A generated id is an argument. Validation of data, the structural comparison, and the decoding
-- of a stored value are a record of what the repository uses of them.
pub mod Commits
pub mod Keeps
pub mod Operations
pub mod Save
pub mod Roundtrip
pub mod Quiet
use rogatio.Prelude.{
  ℕ, zero, suc, Bool, true, false, Option, none, some, List, [], ◌∷◌, String, if◌then◌else◌, any,
}
use rogatio.Prelude.Dict.{get}
use rogatio.Schema.Types.{RogatioProject}
use rogatio.BrowserCore.FileRoot.{RootValue, accepted_root}
use rogatio.BrowserCore.Types.{
  CoreDiagnostic, core_diagnostic, about_project, storage_corrupt, storage_conflict, not_found,
  invariant, StoredProject, StoredEnvelope, CoreResult, ok, conflicts, fails, strays,
}
use rogatio.BrowserCore.Types.{conflict as conflict_code}
use rogatio.BrowserCore.Store.{Store, read, compare_and_swap}
use rogatio.BrowserCore.Envelope.{
  Mutation, commit, conflict, failure, stray, is_inherited, Validation, build_create, build_import,
  build_save, build_switch, build_remove, build_set_group_enabled, build_set_mock_file_root,
  resolve_id,
}

pub record Platform (Raw Input : Type 0) : Type 0 where
  pub same : Raw → Raw → Bool
  pub migrate : Raw → Option StoredEnvelope  -- `migrateEnvelope`
  pub encode : StoredEnvelope → Raw  -- the envelope as a stored value
  pub validate : Input → Validation  -- `validateData`

module _ {Raw Input : Type 0} (platform : Platform Raw Input) where
  abbrev decoded : Option Raw → Option (Raw × StoredEnvelope)
  decoded none = none
  decoded (some raw) = elim (platform.migrate raw) [
    | none ↦ none
    | some envelope ↦ some (raw, envelope)
  ]

  -- `none` with the diagnostic `core.storage-corrupt`.
  unfoldable pub read_envelope : Store Raw → Option (Raw × StoredEnvelope) × Store Raw
  read_envelope store = (decoded (read store).0, (read store).1)

  module _ {A : Type 0} where
    abbrev unless_current :
        (Store Raw → CoreResult A × Store Raw)
        → Option StoredProject
        → Store Raw
        → CoreResult A × Store Raw
    unless_current again none store = again store
    unless_current again (some current) store =
        (conflicts current (core_diagnostic conflict_code ∷ []), store)

    -- After a swap that failed: with a conflict project, read again.
    abbrev after_fresh :
        (StoredEnvelope → Option StoredProject)
        → (Store Raw → CoreResult A × Store Raw)
        → Option (Raw × StoredEnvelope)
        → Store Raw
        → CoreResult A × Store Raw
    after_fresh find again none store = (fails (core_diagnostic storage_corrupt ∷ []), store)
    after_fresh find again (some (raw, envelope)) store = unless_current again (find envelope) store

    abbrev after_swap :
        Option (StoredEnvelope → Option StoredProject)
        → (Store Raw → CoreResult A × Store Raw)
        → A
        → Bool
        → Store Raw
        → CoreResult A × Store Raw
    after_swap find again value true store = (ok value, store)
    after_swap none again value false store = again store
    after_swap (some find) again value false store =
        after_fresh find again (read_envelope store).0 (read_envelope store).1

    abbrev settle :
        Option (StoredEnvelope → Option StoredProject)
        → (Store Raw → CoreResult A × Store Raw)
        → Raw
        → Mutation A
        → Store Raw
        → CoreResult A × Store Raw
    settle find again raw (conflict current) store =
        (conflicts current (core_diagnostic conflict_code ∷ []), store)
    settle find again raw (failure diagnostics) store = (fails diagnostics, store)
    settle find again raw stray store = (strays, store)
    settle find again raw (commit next value) store =
        let swap = compare_and_swap platform.same raw (platform.encode next) store in
        after_swap find again value swap.0 swap.1

    abbrev after_read :
        Option (StoredEnvelope → Option StoredProject)
        → (Store Raw → CoreResult A × Store Raw)
        → (ℕ → StoredEnvelope → Mutation A)
        → Option (Raw × StoredEnvelope)
        → Store Raw
        → CoreResult A × Store Raw
    after_read find again build none store = (fails (core_diagnostic storage_corrupt ∷ []), store)
    after_read find again build (some (raw, envelope)) store =
        settle find again raw (build store.clock envelope) store

    -- The attempts that are left. What follows a read waits, so a next attempt is made only if the
    -- swap failed.
    unfoldable pub attempt :
        ℕ
        → Option (StoredEnvelope → Option StoredProject)
        → (ℕ → StoredEnvelope → Mutation A)
        → Store Raw
        → CoreResult A × Store Raw
    unfolding read_envelope
    attempt zero find build store = (fails (core_diagnostic storage_conflict ∷ []), store)
    attempt (suc attempts) find build store =
        after_read find (λ later. attempt attempts find build later) build (read_envelope store).0
          (read_envelope store).1

    unfoldable pub mutate :
        Bool
        → Option (StoredEnvelope → Option StoredProject)
        → (ℕ → StoredEnvelope → Mutation A)
        → Store Raw
        → CoreResult A × Store Raw
    mutate retry find build store = attempt (if retry then 3 else 1) find build store

  abbrev pub state_result :
      Option (Raw × StoredEnvelope) → Store Raw → CoreResult StoredEnvelope × Store Raw
  state_result none store = (fails (core_diagnostic storage_corrupt ∷ []), store)
  state_result (some (raw, envelope)) store = (ok envelope, store)

  unfoldable pub state : Store Raw → CoreResult StoredEnvelope × Store Raw
  state store = state_result (read_envelope store).0 (read_envelope store).1

  -- `resolveId`, then the rest of the operation.
  abbrev with_id :
      {A : Type 0}
      → Option String
      → (String → Store Raw → CoreResult A × Store Raw)
      → Store Raw
      → CoreResult A × Store Raw
  with_id none operation store = (fails (core_diagnostic invariant ∷ []), store)
  with_id (some id) operation store = operation id store

  unfoldable pub create_project :
      Input → Option String → String → Store Raw → CoreResult StoredProject × Store Raw
  unfolding mutate resolve_id
  create_project input requested generated store =
      with_id (resolve_id requested generated)
        (λ id.
          mutate true none (λ now current. build_create now current (platform.validate input) id))
        store

  -- Only an id that the caller gives is checked.
  abbrev checked_id : Option String → Option String
  checked_id none = some ""
  checked_id (some id) = resolve_id (some id) id

  unfoldable pub import_project :
      Input → Option String → Option ℕ → String → Store Raw → CoreResult StoredProject × Store Raw
  unfolding mutate
  import_project input id expected generated store =
      with_id (checked_id id)
        (λ checked.
          mutate true none (λ now current.
            build_import now current (platform.validate input) id expected generated))
        store

  -- The lookup after a failed swap is among the stored projects alone.
  unfoldable pub save_project :
      String → Input → ℕ → Store Raw → CoreResult StoredProject × Store Raw
  unfolding mutate
  save_project project_id input expected =
      mutate false (some (λ current. get project_id current.projects))
        (λ now current. build_save now current project_id (platform.validate input) expected)

  unfoldable pub switch_project : String → Store Raw → CoreResult StoredEnvelope × Store Raw
  unfolding mutate
  switch_project project_id = mutate true none (λ now current. build_switch current project_id)

  unfoldable pub remove_project : String → Store Raw → CoreResult StoredEnvelope × Store Raw
  unfolding mutate
  remove_project project_id = mutate true none (λ now current. build_remove current project_id)

  unfoldable pub set_group_enabled :
      String → String → Bool → Store Raw → CoreResult StoredProject × Store Raw
  unfolding mutate
  set_group_enabled project_id group_id enabled =
      mutate true none
        (λ now current. build_set_group_enabled now current project_id group_id enabled)

  abbrev pub set_accepted_root :
      String → Option (Option String) → Store Raw → CoreResult StoredProject × Store Raw
  set_accepted_root project_id none store = (fails (core_diagnostic invariant ∷ []), store)
  set_accepted_root project_id (some root) store =
      mutate true none (λ now current. build_set_mock_file_root now current project_id root) store

  unfoldable pub set_mock_file_root :
      String → RootValue → Store Raw → CoreResult StoredProject × Store Raw
  unfolding mutate
  set_mock_file_root project_id root store = set_accepted_root project_id (accepted_root root) store

  abbrev found_project : String → Option (Raw × StoredEnvelope) → CoreResult StoredProject
  found_project project_id none = fails (core_diagnostic storage_corrupt ∷ [])
  found_project project_id (some (raw, envelope)) = elim (get project_id envelope.projects) [
    | none ↦
        if is_inherited project_id then strays else fails (about_project not_found project_id ∷ [])
    | some project ↦ ok project
  ]

  unfoldable pub get_project : String → Store Raw → CoreResult StoredProject × Store Raw
  get_project project_id store =
      (found_project project_id (read_envelope store).0, (read_envelope store).1)

  abbrev contents_of : CoreResult StoredProject → CoreResult RogatioProject
  contents_of (ok project) = ok project.contents
  contents_of (conflicts current diagnostics) = conflicts current diagnostics
  contents_of (fails diagnostics) = fails diagnostics
  contents_of strays = strays

  unfoldable pub export_project : String → Store Raw → CoreResult RogatioProject × Store Raw
  unfolding get_project
  export_project project_id store =
      (contents_of (get_project project_id store).0, (get_project project_id store).1)

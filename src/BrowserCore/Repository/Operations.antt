-- ===== src/BrowserCore/Repository/Operations.antt =====
-- All operations of the repository as one type, and runs of them.
use rogatio.Prelude.{
  ℕ, Bool, true, false, Option, none, some, List, [], ◌∷◌, String, Option-cases, inl, inr, ◌≡◌, All,
}
use rogatio.BrowserCore.Types.{StoredEnvelope, CoreResult}
use rogatio.BrowserCore.FileRoot.{RootValue, accepted_root}
use rogatio.BrowserCore.Store.{Store, read}
use rogatio.BrowserCore.Envelope.{
  Mutation, commit, conflict, failure, stray, is_inherited, asks_inherited, build_switch,
  build_remove, build_set_group_enabled, build_set_mock_file_root, resolve_id,
}
use rogatio.Prelude.Dict.{get}
use rogatio.BrowserCore.Envelope.Valid.{IsValid}
use rogatio.BrowserCore.Envelope.Replace.{
  build_set_group_enabled-IsRight, build_set_mock_file_root-IsRight,
}
use rogatio.BrowserCore.Envelope.Create.{
  build_create-IsRight, build_import-IsRight, build_save-IsRight,
}
use rogatio.BrowserCore.Envelope.Remove.{RemoveIsRight, build_remove-RemoveIsRight}
use rogatio.BrowserCore.Envelope.Switch.{SwitchIsRight, build_switch-SwitchIsRight}
use rogatio.BrowserCore.Repository.{
  Platform, state_result, set_accepted_root, read_envelope, with_id, checked_id, state,
  create_project, import_project, save_project, switch_project, remove_project, set_group_enabled,
  set_mock_file_root, get_project, export_project,
}
use rogatio.BrowserCore.Repository.Keeps.{
  CommitsValid, CommitsValid-of_IsRight, IsWellKept, EncodesValid, SameIsEqual, mutate-IsWellKept,
  advance-IsWellKept,
}

pub data Operation (Input : Type 0) : Type 0 where
  state_of : Operation Input
  create : Input → Option String → String → Operation Input
  import_into : Input → Option String → Option ℕ → String → Operation Input
  save : String → Input → ℕ → Operation Input
  switch : String → Operation Input
  remove : String → Operation Input
  set_enabled : String → String → Bool → Operation Input
  set_root : String → RootValue → Operation Input
  get_one : String → Operation Input
  export_one : String → Operation Input

-- The operation does not change a project by a name that every object inherits. Creating, removing
-- and reading take any id.
abbrev pub AsksNoInherited : {Input : Type 0} → Operation Input → Type 0
AsksNoInherited (import_into input id expected generated) = asks_inherited id ≡ false
AsksNoInherited (save id input expected) = is_inherited id ≡ false
AsksNoInherited (switch id) = is_inherited id ≡ false
AsksNoInherited (set_enabled id group enabled) = is_inherited id ≡ false
AsksNoInherited (set_root id root) = is_inherited id ≡ false
AsksNoInherited _ = Unit

module _ {Raw Input : Type 0} (platform : Platform Raw Input) where
  -- The store after an operation, whatever its result.
  unfoldable pub run_one : Operation Input → Store Raw → Store Raw
  run_one state_of store = (state platform store).1
  run_one (create input id generated) store = (create_project platform input id generated store).1
  run_one (import_into input id expected generated) store =
      (import_project platform input id expected generated store).1
  run_one (save id input expected) store = (save_project platform id input expected store).1
  run_one (switch id) store = (switch_project platform id store).1
  run_one (remove id) store = (remove_project platform id store).1
  run_one (set_enabled id group enabled) store =
      (set_group_enabled platform id group enabled store).1
  run_one (set_root id root) store = (set_mock_file_root platform id root store).1
  run_one (get_one id) store = (get_project platform id store).1
  run_one (export_one id) store = (export_project platform id store).1

  unfoldable pub run : List (Operation Input) → Store Raw → Store Raw
  unfolding run_one
  run [] store = store
  run (operation ∷ operations) store = run operations (run_one operation store)

  module _ (encodes : EncodesValid platform) (equal : SameIsEqual platform) where
    with_id-IsWellKept :
        {A : Type 0} (id : Option String)
        (operation : String → Store Raw → CoreResult A × Store Raw) (store : Store Raw)
        → ((key : String) → IsWellKept platform (operation key store).1)
        → IsWellKept platform store
        → IsWellKept platform (with_id platform id operation store).1
    with_id-IsWellKept none operation store h k = k
    with_id-IsWellKept (some id) operation store h k = h id

    read-IsWellKept :
        (store : Store Raw) → IsWellKept platform store → IsWellKept platform (read store).1
    unfolding read
    read-IsWellKept store k = advance-IsWellKept platform store k

    switch_commits :
        (id : String) (current : StoredEnvelope)
        → is_inherited id ≡ false
        → IsValid current
        → CommitsValid (build_switch current id)
    switch_commits id current own v =
        of_right (build_switch current id) (build_switch-SwitchIsRight current id v)
      where
        of_right : (m : Mutation StoredEnvelope) → SwitchIsRight current id m → CommitsValid m
        of_right (commit next value) h = elim (Option-cases (get id current.projects)) [
          | inl missing ↦ absurd (cc (own, (h.3 missing).0))
          | inr (p, found) ↦ h.2 (λ missing. cc (found, missing))
        ]
        of_right (conflict stored) h = tt
        of_right (failure diagnostics) h = tt
        of_right stray h = h

    remove_commits :
        (id : String) (current : StoredEnvelope)
        → IsValid current
        → CommitsValid (build_remove current id)
    remove_commits id current v =
        of_right (build_remove current id) (build_remove-RemoveIsRight current id v)
      where
        of_right : (m : Mutation StoredEnvelope) → RemoveIsRight current id m → CommitsValid m
        of_right (commit next value) h = h.0
        of_right (conflict stored) h = tt
        of_right (failure diagnostics) h = tt
        of_right stray h = h

    -- An operation on a project that may not be there.
    set_enabled_commits :
        (id group : String) (enabled : Bool) (now : ℕ) (current : StoredEnvelope)
        → is_inherited id ≡ false
        → IsValid current
        → CommitsValid (build_set_group_enabled now current id group enabled)
    unfolding build_set_group_enabled
    set_enabled_commits id group enabled now current own v =
        elim (Option-cases (get id current.projects)) [
          | inl missing ↦ rw (missing, build_set_group_enabled, own) tt
          | inr (p, found) ↦
              CommitsValid-of_IsRight current _
                (build_set_group_enabled-IsRight now current v id p found group enabled)
        ]

    set_root_commits :
        (id : String) (root : Option String) (now : ℕ) (current : StoredEnvelope)
        → is_inherited id ≡ false
        → IsValid current
        → CommitsValid (build_set_mock_file_root now current id root)
    unfolding build_set_mock_file_root
    set_root_commits id root now current own v = elim (Option-cases (get id current.projects)) [
      | inl missing ↦ rw (missing, build_set_mock_file_root, own) tt
      | inr (p, found) ↦
          CommitsValid-of_IsRight current _
            (build_set_mock_file_root-IsRight now current v id p found root)
    ]

    state-IsWellKept :
        (store : Store Raw)
        → IsWellKept platform store
        → IsWellKept platform (state platform store).1
    unfolding state read_envelope
    state-IsWellKept store k = of_read (read_envelope platform store).0
      where
        of_read :
            (found : Option (Raw × StoredEnvelope))
            → IsWellKept platform (state_result platform found (read store).1).1
        of_read none = read-IsWellKept store k
        of_read (some (raw, envelope)) = read-IsWellKept store k

    run_one-IsWellKept :
        (operation : Operation Input) (store : Store Raw)
        → AsksNoInherited operation
        → IsWellKept platform store
        → IsWellKept platform (run_one operation store)
    unfolding run_one create_project import_project save_project switch_project remove_project
        set_group_enabled set_mock_file_root get_project export_project read_envelope
    run_one-IsWellKept state_of store own k = state-IsWellKept store k
    run_one-IsWellKept (create input requested generated) store own k =
        with_id-IsWellKept (resolve_id requested generated) _ store
          (λ id.
            mutate-IsWellKept platform encodes equal _ true none store
              (λ now e v.
                CommitsValid-of_IsRight e _
                  (build_create-IsRight now e v (platform.validate input) id))
              k)
          k
    run_one-IsWellKept (import_into input id expected generated) store own k =
        with_id-IsWellKept (checked_id platform id) _ store
          (λ checked.
            mutate-IsWellKept platform encodes equal _ true none store
              (λ now e v.
                CommitsValid-of_IsRight e _ (
                  build_import-IsRight now e v (platform.validate input) id expected generated own))
              k)
          k
    run_one-IsWellKept (save id input expected) store own k =
        mutate-IsWellKept platform encodes equal _ false _ store
          (λ now e v.
            CommitsValid-of_IsRight e _
              (build_save-IsRight now e v id (platform.validate input) expected own))
          k
    run_one-IsWellKept (switch id) store own k =
        mutate-IsWellKept platform encodes equal _ true none store
          (λ now e v. switch_commits id e own v) k
    run_one-IsWellKept (remove id) store own k =
        mutate-IsWellKept platform encodes equal _ true none store
          (λ now e v. remove_commits id e v) k
    run_one-IsWellKept (set_enabled id group enabled) store own k =
        mutate-IsWellKept platform encodes equal _ true none store
          (λ now e v. set_enabled_commits id group enabled now e own v) k
    run_one-IsWellKept (set_root id root) store own k = of_root (accepted_root root)
      where
        of_root :
            (accepted : Option (Option String))
            → IsWellKept platform (set_accepted_root platform id accepted store).1
        of_root none = k
        of_root (some accepted) =
            mutate-IsWellKept platform encodes equal _ true none store
              (λ now e v. set_root_commits id accepted now e own v) k
    run_one-IsWellKept (get_one id) store own k = read-IsWellKept store k
    run_one-IsWellKept (export_one id) store own k = read-IsWellKept store k

    -- Whatever operations run, in whatever order, of which none imports under, saves, switches to or
    -- sets a group or the root of an id that is a name every object inherits, whatever other writers
    -- do in between and whichever storage calls throw: if what is stored decodes to a valid envelope only, and so
    -- does all that other writers write, then so does what is stored at the end. The encoding of
    -- a valid envelope is taken to decode to a valid envelope only, and stored values that compare
    -- as the same to be equal.
    pub run-IsWellKept :
        (operations : List (Operation Input)) (store : Store Raw)
        → All AsksNoInherited operations
        → IsWellKept platform store
        → IsWellKept platform (run operations store)
    unfolding run
    run-IsWellKept [] store own k = k
    run-IsWellKept (operation ∷ operations) store own k =
        run-IsWellKept operations (run_one operation store) (own.1)
          (run_one-IsWellKept operation store (own.0) k)

-- ===== src/Tests/Repository.antt =====
-- The repository on a store that another writer shares.
use rogatio.Prelude.{
  ℕ, ◌≡◌, refl, true, false, not, ◌&&◌, Option, none, some, List, [], ◌∷◌, arith, all, leb, str_eq,
  if◌then◌else◌,
}
use rogatio.Prelude.Dict.{get, put}
use rogatio.Prelude.Texts.{utf16, utf16_length}
use rogatio.Schema.Types.{RogatioProject}
use rogatio.BrowserCore.Types.{
  StoredProject, StoredEnvelope, ok, conflicts, core_diagnostic, conflict,
}
use rogatio.BrowserCore.Store.{Event, Store, advance, read, compare_and_swap}
use rogatio.BrowserCore.Envelope.{
  Mutation, commit, valid, build_create, build_import, build_update, build_save, build_switch,
  build_remove, replace_project, is_inherited, projects_of, has_name, has_group, resolve_id,
}
use rogatio.BrowserCore.Envelope.Replace.{IsRight}
use rogatio.BrowserCore.Envelope.Create.{build_create-IsRight, build_import-IsRight}
use rogatio.BrowserCore.Envelope.Remove.{RemoveIsRight, build_remove-RemoveIsRight}
use rogatio.BrowserCore.Envelope.Switch.{SwitchIsRight, build_switch-SwitchIsRight}
use rogatio.BrowserCore.Repository.{
  Platform, mutate, attempt, read_envelope, create_project, get_project, save_project,
}
use rogatio.BrowserCore.Repository.Commits.{MutateIsRight, mutate-IsRight}
use rogatio.BrowserCore.Repository.Keeps.{IsWellKept}
use rogatio.BrowserCore.Repository.Operations.{
  Operation, create, save, remove, set_enabled, get_one, run, run-IsWellKept,
}
use rogatio.BrowserCore.Repository.Save.{SaveIsRight, save_project-SaveIsRight}
use rogatio.BrowserCore.Repository.Roundtrip.{get_project-create_project}
use rogatio.Tests.Data.{
  contents, other_contents, shop, one, one-IsValid, platform, platform-EncodesValid,
  platform-SameIsEqual, store, quiet, store-IsWellKept,
}

abbrev operations : List (Operation RogatioProject)
operations =
    set_enabled "a" "g" true
    ∷ create other_contents (some "b") "x"
    ∷ save "a" contents 4
    ∷ remove "a"
    ∷ get_one "a"
    ∷ []

-- Neither name is inherited by every object, but the third is.
own_id : is_inherited "a" ≡ false
unfolding is_inherited
own_id = refl

other_own_id : is_inherited "b" ≡ false
unfolding is_inherited
other_own_id = refl

inherited_id : is_inherited "constructor" ≡ true
unfolding is_inherited
inherited_id = refl

run-IsWellKept_example : IsWellKept platform (run platform operations store)
run-IsWellKept_example =
    run-IsWellKept platform platform-EncodesValid platform-SameIsEqual operations store
      (own_id, (tt, (own_id, (tt, (tt, tt))))) store-IsWellKept

abbrev saving : ℕ → StoredEnvelope → Mutation StoredProject
saving now current = build_save now current "a" (valid contents) 1

abbrev first_two : List (Event ℕ)
first_two =
    record { foreign = none; throws = false; clock = 6 }
    ∷ record { foreign = some 4; throws = false; clock = 7 }
    ∷ []

-- The other writer saves between the read and the swap: the save conflicts.
saving_conflicts :
    (save_project platform "a" contents 1 (record store { events = first_two })).0
    ≡ conflicts (shop 4) (core_diagnostic conflict ∷ [])
unfolding save_project build_save build_update mutate attempt read_envelope read compare_and_swap
    advance replace_project get put
saving_conflicts = refl

mutate-IsRight_example :
    MutateIsRight platform saving store (mutate platform true none saving store)
mutate-IsRight_example = mutate-IsRight platform saving true none store

abbrev saved : StoredProject
saved = record (shop 2) { updated_at = 5 }

save_project-quiet :
    save_project platform "a" contents 1 quiet
    ≡ (ok saved, record { content = 2; clock = 5; events = [] })
unfolding save_project build_save build_update mutate attempt read_envelope read compare_and_swap
    advance replace_project get put
save_project-quiet = refl

save_project-SaveIsRight_example :
    SaveIsRight platform "a" contents 1 quiet saved (record { content = 2; clock = 5; events = [] })
save_project-SaveIsRight_example =
    save_project-SaveIsRight platform "a" contents 1 quiet
      (record { content = 2; clock = 5; events = [] }) saved save_project-quiet

saving_commits : saving 5 (one 1) ≡ commit (one 2) saved
unfolding build_save build_update replace_project get put
saving_commits = refl

build_create-IsRight_example : IsRight (one 1) (build_create 9 (one 1) (valid other_contents) "b")
build_create-IsRight_example =
    build_create-IsRight 9 (one 1) (one-IsValid 0) (valid other_contents) "b"

build_import-IsRight_example :
    IsRight (one 1) (build_import 9 (one 1) (valid contents) none (some 1) "x")
build_import-IsRight_example =
    build_import-IsRight 9 (one 1) (one-IsValid 0) (valid contents) none (some 1) "x" refl

one_at : get "a" (one 1).projects ≡ some (shop 1)
unfolding get
one_at = refl

shop_has_group : has_group "g" contents.groups ≡ true
unfolding has_group
shop_has_group = refl

build_remove-RemoveIsRight_example : RemoveIsRight (one 1) "a" (build_remove (one 1) "a")
build_remove-RemoveIsRight_example = build_remove-RemoveIsRight (one 1) "a" (one-IsValid 0)

-- Switching to the name of a method leaves a project active that there is none of.
switch_to_inherited :
    build_switch (one 1) "constructor"
    ≡ commit
        (record (one 1) { active_project_id = some "constructor" })
        (record (one 1) { active_project_id = some "constructor" })
unfolding build_switch get is_inherited
switch_to_inherited = refl

build_switch-SwitchIsRight_example : SwitchIsRight (one 1) "a" (build_switch (one 1) "a")
build_switch-SwitchIsRight_example = build_switch-SwitchIsRight (one 1) "a" (one-IsValid 0)

-- A store that keeps envelopes as they are, of which those decode whose projects have a revision of
-- at least one and a name.
abbrev decodes_as : StoredEnvelope → Option StoredEnvelope
decodes_as envelope =
    if all (λ p. leb 1 p.revision && not (str_eq p.name "")) (projects_of envelope.projects)
    then some envelope
    else none

abbrev plain : Platform StoredEnvelope RogatioProject
plain = record {
  same = λ a b. true;
  migrate = decodes_as;
  encode = λ envelope. envelope;
  validate = valid;
}

abbrev plain_store : Store StoredEnvelope
plain_store = record { content = one 1; clock = 9; events = [] }

right_id : resolve_id (some "b") "x" ≡ some "b"
unfolding resolve_id utf16_length utf16
right_id = refl

fresh_name : has_name "Blog" (shop 1 ∷ []) ≡ false
unfolding has_name
fresh_name = refl

free_id : get "b" (one 1).projects ≡ none
unfolding get
free_id = refl

decodes_back :
    (next : StoredEnvelope) (project : StoredProject)
    → build_create 9 (one 1) (valid other_contents) "b" ≡ commit next project
    → decodes_as next ≡ some next
unfolding build_create has_name get put is_inherited
decodes_back next project h = rw (← next_of h) refl
  where
    next_of : {e : StoredEnvelope} {p : StoredProject} → commit e p ≡ commit next project → e ≡ next
    next_of h = cc

get_project-create_project_example :
    (project : StoredProject) × (project.contents ≡ other_contents)
    × ((create_project plain other_contents (some "b") "x" plain_store).0 ≡ ok project)
    × ((get_project plain "b" (create_project plain other_contents (some "b") "x" plain_store).1).0
        ≡ ok project)
get_project-create_project_example =
    get_project-create_project plain other_contents "b" "x" other_contents plain_store (one 1) refl
      refl refl right_id refl fresh_name (omega arith) free_id other_own_id decodes_back

-- ===== src/BrowserCore/Envelope.antt =====
-- packages/browser-core/src/repository.ts: the `build…` functions, which compute the next envelope
-- from the one that was read. `Object.values` keeps the order of insertion here, and an id is
-- looked up as a property of an object, so a name that every object inherits is always there.
pub mod Valid
pub mod Replace
pub mod Create
pub mod Remove
pub mod Switch
pub mod Groups
use mathlib.Core.Option
use rogatio.Prelude.{
  ℕ, suc, ◌+◌, Bool, true, false, not, ◌&&◌, ◌||◌, Option, none, some, List, [], ◌∷◌, ◌++◌, String,
  ◌==◌, ltb, leb, if◌then◌else◌, str_eq, any, length, map, filter,
}
use rogatio.Prelude.Dict.{get, put, delete}
use rogatio.Prelude.Sorting.{sort}
use rogatio.Prelude.Texts.{includes, utf16, utf16_length, text_lt}
use rogatio.Schema.Types.{RogatioProject, RogatioGroup, max_id_length}
use rogatio.BrowserCore.Types.{
  CoreDiagnosticCode, not_found, duplicate_name, duplicate_id, project_limit, invariant,
  CoreDiagnostic, core_diagnostic, about_project, StoredProject, StoredEnvelope,
}

abbrev pub max_projects : ℕ
max_projects = 64

pub data Mutation (A : Type 0) : Type 0 where
  commit : StoredEnvelope → A → Mutation A
  conflict : StoredProject → Mutation A
  failure : List CoreDiagnostic → Mutation A
  -- The id found what every object inherits, a function for most of the names. The code goes on
  -- with that in place of a project: it throws, reports a failure or a conflict, or builds a project
  -- of no id and revision `NaN`.
  stray : Mutation A

-- The names that an object inherits from `Object.prototype`.
abbrev inherited_names : List String
inherited_names =
    "constructor" ∷ "toString" ∷ "toLocaleString" ∷ "valueOf" ∷ "hasOwnProperty" ∷ "isPrototypeOf"
    ∷ "propertyIsEnumerable" ∷ "__proto__" ∷ "__defineGetter__" ∷ "__defineSetter__"
    ∷ "__lookupGetter__" ∷ "__lookupSetter__" ∷ []

unfoldable pub is_inherited : String → Bool
is_inherited id = includes inherited_names id

-- Without a project of the id: not found, unless the name is inherited.
abbrev pub unless_inherited : {A : Type 0} → String → Mutation A → Mutation A
unless_inherited id outcome = if is_inherited id then stray else outcome

-- The outcome of validating unknown data.
pub data Validation : Type 0 where
  valid : RogatioProject → Validation
  invalid : List CoreDiagnostic → Validation

-- `Object.values`
abbrev pub projects_of : List (String × StoredProject) → List StoredProject
projects_of entries = map (λ e. e.1) entries

unfoldable pub replace_project : StoredEnvelope → StoredProject → StoredEnvelope
replace_project envelope project = record envelope {
  projects = put project.id project envelope.projects;
}

unfoldable pub has_name : String → List StoredProject → Bool
has_name name projects = any (λ p. str_eq p.name name) projects

abbrev pub activate : String → List (String × StoredProject) → Option String → Option String
activate id [] active = some id
activate id (first ∷ more) active = active

unfoldable pub build_create : ℕ → StoredEnvelope → Validation → String → Mutation StoredProject
unfolding has_name
build_create now current (invalid diagnostics) id = failure diagnostics
build_create now current (valid validated) id =
    let project : StoredProject = record {
      id = id;
      name = validated.name;
      contents = validated;
      revision = 1;
      created_at = now;
      updated_at = now;
      enabled_group_ids = [];
      mock_file_root = none;
    } in
    if has_name validated.name (projects_of current.projects)
    then failure (core_diagnostic duplicate_name ∷ [])
    else if leb max_projects (length current.projects)
    then failure (record (core_diagnostic project_limit) { limit = some max_projects } ∷ [])
    else elim (get id current.projects) [
      | some existing ↦ failure (about_project duplicate_id id ∷ [])
      | none ↦
          if is_inherited id
          then failure (about_project duplicate_id id ∷ [])
          else commit
              (record {
                projects = put id project current.projects;
                active_project_id = activate id current.projects current.active_project_id;
                migration_notices = none;
              })
              project
    ]

-- Another project has the name.
unfoldable pub name_taken : String → String → List StoredProject → Bool
name_taken id name projects = any (λ p. not (str_eq p.id id) && str_eq p.name name) projects

abbrev revision_differs : Option ℕ → ℕ → Bool
revision_differs none revision = false
revision_differs (some expected) revision = not (revision == expected)

unfoldable pub build_update :
    ℕ → StoredEnvelope → StoredProject → Validation → Option ℕ → Mutation StoredProject
unfolding name_taken replace_project
build_update now current existing validation expected =
    if revision_differs expected existing.revision then conflict existing else elim validation [
      | invalid diagnostics ↦ failure diagnostics
      | valid validated ↦
          let project : StoredProject = record existing {
            name = validated.name;
            contents = validated;
            revision = existing.revision + 1;
            updated_at = now;
            enabled_group_ids = [];
          } in
          if not (str_eq validated.name existing.name)
            && name_taken existing.id validated.name (projects_of current.projects)
          then failure (core_diagnostic duplicate_name ∷ [])
          else commit (replace_project current project) project
    ]

-- The first project of a name.
unfoldable pub find_name : String → List StoredProject → Option StoredProject
find_name name [] = none
find_name name (p ∷ projects) =
    let later = find_name name projects in if str_eq p.name name then some p else later

abbrev pub chosen_id : Option String → String → String
chosen_id none generated = generated
chosen_id (some id) generated = id

-- The project that an import updates, if there is one.
unfoldable pub import_target :
    StoredEnvelope → RogatioProject → Option String → Option StoredProject
unfolding find_name
import_target current validated none = find_name validated.name (projects_of current.projects)
import_target current validated (some id) = get id current.projects

-- The id that an import asks for is a name that every object inherits.
abbrev pub asks_inherited : Option String → Bool
asks_inherited none = false
asks_inherited (some id) = is_inherited id

unfoldable pub build_import :
    ℕ → StoredEnvelope → Validation → Option String → Option ℕ → String → Mutation StoredProject
build_import now current (invalid diagnostics) id expected generated = failure diagnostics
build_import now current (valid validated) id expected generated =
    elim (import_target current validated id) [
      | none ↦
          if asks_inherited id
          then stray
          else build_create now current (valid validated) (chosen_id id generated)
      | some existing ↦ build_update now current existing (valid validated) expected
    ]

unfoldable pub build_save : ℕ → StoredEnvelope → String → Validation → ℕ → Mutation StoredProject
build_save now current project_id validation expected = elim (get project_id current.projects) [
  | none ↦ unless_inherited project_id (failure (about_project not_found project_id ∷ []))
  | some existing ↦
      if not (existing.revision == expected)
      then conflict existing
      else build_update now current existing validation (some expected)
]

unfoldable pub build_switch : StoredEnvelope → String → Mutation StoredEnvelope
build_switch current project_id =
    let next = record current { active_project_id = some project_id } in
    elim (get project_id current.projects) [
      | none ↦
          if is_inherited project_id
          then commit next next
          else failure (about_project not_found project_id ∷ [])
      | some existing ↦ commit next next
    ]

-- The later update first, then the lower id.
unfoldable pub more_recent : StoredProject → StoredProject → Bool
more_recent left right =
    if left.updated_at == right.updated_at
    then not (text_lt (utf16 right.id) (utf16 left.id))
    else ltb right.updated_at left.updated_at

abbrev head_id : List StoredProject → Option String
head_id [] = none
head_id (p ∷ projects) = some p.id

unfoldable pub next_active : List (String × StoredProject) → Option String
unfolding sort more_recent
next_active remaining = head_id (sort more_recent (projects_of remaining))

abbrev is_active : Option String → String → Bool
is_active none id = false
is_active (some active) id = str_eq active id

unfoldable pub build_remove : StoredEnvelope → String → Mutation StoredEnvelope
unfolding next_active
build_remove current project_id =
    let projects = delete project_id current.projects in
    let next : StoredEnvelope = record {
      projects = projects;
      active_project_id =
          if is_active current.active_project_id project_id
          then next_active projects
          else current.active_project_id;
      migration_notices = none;
    } in
    elim (get project_id current.projects) [
      | none ↦
          if is_inherited project_id
          then commit next next
          else failure (about_project not_found project_id ∷ [])
      | some existing ↦ commit next next
    ]

unfoldable pub has_group : String → List RogatioGroup → Bool
has_group id groups = any (λ g. str_eq g.id id) groups

-- `add` and `delete` of a `Set`, spread to an array.
unfoldable pub with_enabled : Bool → String → List String → List String
with_enabled true id ids = if includes ids id then ids else ids ++ id ∷ []
with_enabled false id ids = filter (λ other. not (str_eq other id)) ids

unfoldable pub build_set_group_enabled :
    ℕ → StoredEnvelope → String → String → Bool → Mutation StoredProject
unfolding has_group with_enabled replace_project
build_set_group_enabled now current project_id group_id enabled =
    elim (get project_id current.projects) [
      | none ↦ unless_inherited project_id (failure (about_project not_found project_id ∷ []))
      | some existing ↦
          let project = record existing {
            enabled_group_ids = with_enabled enabled group_id existing.enabled_group_ids;
            revision = existing.revision + 1;
            updated_at = now;
          } in
          if has_group group_id existing.contents.groups
          then commit (replace_project current project) project
          else failure
              (record (about_project not_found project_id) { group_id = some group_id } ∷ [])
    ]

unfoldable pub build_set_mock_file_root :
    ℕ → StoredEnvelope → String → Option String → Mutation StoredProject
unfolding replace_project
build_set_mock_file_root now current project_id root = elim (get project_id current.projects) [
  | none ↦ unless_inherited project_id (failure (about_project not_found project_id ∷ []))
  | some existing ↦
      let project = record existing {
        revision = existing.revision + 1;
        updated_at = now;
        mock_file_root = root;
      } in
      commit (replace_project current project) project
]

unfoldable pub resolve_id : Option String → String → Option String
resolve_id requested generated =
    let id = chosen_id requested generated in
    if utf16_length id == 0 || ltb max_id_length (utf16_length id) then none else some id

-- ===== src/BrowserCore/Repository/Roundtrip.antt =====
-- A created project can be read back.
use rogatio.Prelude.{
  ℕ, ◌≡◌, ◌<◌, refl, ap, true, false, none, some, [], String, length, arith, eq_iff,
}
use rogatio.Prelude.Dict.{get, put}
use rogatio.Prelude.Dict.Laws.{get-put}
use rogatio.Schema.Types.{RogatioProject}
use rogatio.BrowserCore.Types.{StoredProject, StoredEnvelope, ok}
use rogatio.BrowserCore.Store.{Store, read}
use rogatio.BrowserCore.Envelope.{
  commit, valid, max_projects, has_name, projects_of, build_create, resolve_id, activate,
  is_inherited,
}
use rogatio.BrowserCore.Repository.{
  Platform, decoded, read_envelope, create_project, get_project, found_project,
}
use rogatio.BrowserCore.Repository.Quiet.{advance_quiet, mutate_quiet}

abbrev created : ℕ → RogatioProject → String → StoredProject
created now validated id = record {
  id = id;
  name = validated.name;
  contents = validated;
  revision = 1;
  created_at = now;
  updated_at = now;
  enabled_group_ids = [];
  mock_file_root = none;
}

abbrev with_created : ℕ → StoredEnvelope → RogatioProject → String → StoredEnvelope
with_created now current validated id = record {
  projects = put id (created now validated id) current.projects;
  active_project_id = activate id current.projects current.active_project_id;
  migration_notices = none;
}

build_create_commits :
    (now : ℕ) (current : StoredEnvelope) (validated : RogatioProject) (id : String)
    → has_name validated.name (projects_of current.projects) ≡ false
    → length current.projects < max_projects
    → get id current.projects ≡ none
    → is_inherited id ≡ false
    → build_create now current (valid validated) id
      ≡ commit (with_created now current validated id) (created now validated id)
unfolding build_create
build_create_commits now current validated id fresh room free own =
    ground (arith, fresh, room, free, own)

module _ {Raw Input : Type 0} (platform : Platform Raw Input) where
  get_project_stored :
      (id : String) (store : Store Raw) (envelope : StoredEnvelope) (project : StoredProject)
      → store.events ≡ []
      → platform.migrate store.content ≡ some envelope
      → get id envelope.projects ≡ some project
      → (get_project platform id store).0 ≡ ok project
  unfolding get_project read_envelope read
  get_project_stored id store envelope project quiet decodes found =
      rw (advance_quiet store quiet) (rw (decodes, decoded, found_project) (rw found refl))

  -- In a quiet store whose content decodes, creating a project from valid data succeeds when the
  -- id is of a right length and not taken, the name is not taken, there is room, and the
  -- id is no name that every object inherits; and reading that id afterwards gives the created
  -- project, with the data. What is stored for the one envelope that the creation commits is taken
  -- to decode to it, and the content to compare as the same as itself.
  pub get_project-create_project :
      (input : Input) (id generated : String) (validated : RogatioProject) (store : Store Raw)
      (envelope : StoredEnvelope)
      → store.events ≡ []
      → platform.migrate store.content ≡ some envelope
      → platform.same store.content store.content ≡ true
      → resolve_id (some id) generated ≡ some id
      → platform.validate input ≡ valid validated
      → has_name validated.name (projects_of envelope.projects) ≡ false
      → length envelope.projects < max_projects
      → get id envelope.projects ≡ none
      → is_inherited id ≡ false
      → ((next : StoredEnvelope) (project : StoredProject)
          → build_create store.clock envelope (valid validated) id ≡ commit next project
          → platform.migrate (platform.encode next) ≡ some next)
      → (project : StoredProject) × (project.contents ≡ validated)
        × ((create_project platform input (some id) generated store).0 ≡ ok project)
        × ((get_project platform id (create_project platform input (some id) generated store).1).0
            ≡ ok project)
  unfolding create_project
  get_project-create_project input id generated validated store envelope quiet decodes same right
        validates fresh room free own decodes_back =
      let project = created store.clock validated id in
      let next = with_created store.clock envelope validated id in
      let result : create_project platform input (some id) generated store
          ≡ (ok project, record store { content = platform.encode next }) =
        rw (right, create_project)
          (mutate_quiet platform
            (λ now current. build_create now current (platform.validate input) id) true none store
            envelope next project quiet decodes
            (rw validates
              (build_create_commits store.clock envelope validated id fresh room free own))
            same) in
      (
        project,
        refl,
        ap (λ r. r.0) result,
        rw result (
            get_project_stored id (record store { content = platform.encode next }) next project
              quiet
              (decodes_back next project
                (build_create_commits store.clock envelope validated id fresh room free own))
              (ground (arith, get-put id id project envelope.projects, eq_iff id id))),
      )

-- ===== src/BrowserCore/Envelope/Groups.antt =====
-- Enabling and disabling a group of a project succeeds, and changes that group alone.
use rogatio.Prelude.{
  ℕ, ◌+◌, ◌≡◌, refl, Bool, true, false, not, some, List, [], ◌∷◌, ◌++◌, String, if◌then◌else◌,
  str_eq, eq_iff, arith, filter,
}
use rogatio.Prelude.Dict.{get}
use rogatio.Prelude.Texts.{includes}
use rogatio.BrowserCore.Types.{StoredProject, StoredEnvelope}
use rogatio.BrowserCore.Envelope.{
  Mutation, commit, replace_project, has_group, with_enabled, build_set_group_enabled,
}

includes-add :
    (id other : String) (ids : List String)
    → includes (ids ++ id ∷ []) other ≡ (if str_eq id other then true else includes ids other)
includes-add id other [] = ground (arith, eq_iff id other)
includes-add id other (x ∷ ids) = ground (arith, includes-add id other ids)

includes-remove :
    (id other : String) (ids : List String)
    → includes (filter (λ x. not (str_eq x id)) ids) other
      ≡ (if str_eq id other then false else includes ids other)
includes-remove id other [] = ground arith
includes-remove id other (x ∷ ids) =
    ground (arith, eq_iff x id, eq_iff id other, eq_iff x other, includes-remove id other ids)

includes-with_enabled :
    (enabled : Bool) (id other : String) (ids : List String)
    → includes (with_enabled enabled id ids) other
      ≡ (if str_eq id other then enabled else includes ids other)
unfolding with_enabled
includes-with_enabled true id other ids = ground (arith, eq_iff id other, includes-add id other ids)
includes-with_enabled false id other ids = includes-remove id other ids

-- What setting a group to enabled or disabled commits.
pub record IsToggled (now : ℕ) (current : StoredEnvelope) (existing : StoredProject)
    (group_id : String) (enabled : Bool) (result : Mutation StoredProject) : Type 0 where
  project : StoredProject
  commits : result ≡ commit (replace_project current project) project
  toggled :
      (other : String)
      → includes project.enabled_group_ids other
        ≡ (if str_eq group_id other then enabled else includes existing.enabled_group_ids other)
  same_contents : project.contents ≡ existing.contents
  next_revision : project.revision ≡ existing.revision + 1
  stamped : project.updated_at ≡ now

-- For a stored project and a group of it, the change commits: afterwards that group is enabled
-- exactly if this was asked for, every other group is enabled as before, the rules are the same,
-- and the revision is the next one, with the time of the change.
pub build_set_group_enabled-IsToggled :
    (now : ℕ) (current : StoredEnvelope) (project_id group_id : String) (enabled : Bool)
    (existing : StoredProject)
    → get project_id current.projects ≡ some existing
    → has_group group_id existing.contents.groups ≡ true
    → IsToggled now current existing group_id enabled
        (build_set_group_enabled now current project_id group_id enabled)
build_set_group_enabled-IsToggled now current project_id group_id enabled existing e known =
    record {
      project = record existing {
        enabled_group_ids = with_enabled enabled group_id existing.enabled_group_ids;
        revision = existing.revision + 1;
        updated_at = now;
      };
      commits = unfold build_set_group_enabled in rw (e, build_set_group_enabled, known) refl;
      toggled = λ other. includes-with_enabled enabled group_id other existing.enabled_group_ids;
      same_contents = refl;
      next_revision = refl;
      stamped = refl;
    }

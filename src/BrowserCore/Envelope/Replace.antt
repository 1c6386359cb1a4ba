-- ===== src/BrowserCore/Envelope/Replace.antt =====
-- The build functions that write back a stored project commit a valid envelope.
use native.Mathlib.Omega.{arith}
use rogatio.Prelude.{
  ℕ, ◌+◌, ◌≡◌, ◌≢◌, refl, sym, ap, ◌∙◌, Bool, true, false, not, ◌&&◌, Option, none, some, List, [],
  ◌∷◌, String, inl, inr, str_eq, eq_iff, Bool-cases,
}
use rogatio.Prelude.Dict.{get, put}
use rogatio.Prelude.Dict.Laws.{get-put, put-HasDistinctKeys, length-put_old}
use rogatio.BrowserCore.Types.{StoredProject, StoredEnvelope}
use rogatio.BrowserCore.Envelope.{
  Mutation, commit, conflict, failure, stray, Validation, valid, invalid, projects_of,
  replace_project, name_taken, has_group, with_enabled, build_update, build_set_group_enabled,
  build_set_mock_file_root, revision_differs,
}
use rogatio.BrowserCore.Envelope.Valid.{
  IsStored, ActiveIsRight, IsValid, put-AreStored, put-HaveDistinctNames, name_taken-get,
  with_enabled-IsDistinct, all-with_enabled,
}

-- What a mutation that stores a project may be: a commit of a valid envelope, which holds the
-- returned project under its id and leaves every other one as it was; a conflict with a stored
-- project; or a failure.
abbrev pub IsRight : StoredEnvelope → Mutation StoredProject → Type 0
IsRight current (commit next project) =
    IsValid next
    × (get project.id next.projects ≡ some project)
    × ((key : String) → project.id ≢ key → get key next.projects ≡ get key current.projects)
IsRight current (conflict stored) = get stored.id current.projects ≡ some stored
IsRight current (failure diagnostics) = Unit
IsRight current stray = ⊥

pub get-put_self :
    (key : String) (p : StoredProject) (projects : List (String × StoredProject))
    → get key (put key p projects) ≡ some p
get-put_self key p projects = ground (arith, get-put key key p projects, eq_iff key key)

pub get-put_ne :
    (k key : String) (p : StoredProject) (projects : List (String × StoredProject))
    → key ≢ k
    → get k (put key p projects) ≡ get k projects
get-put_ne k key p projects h = ground (arith, get-put k key p projects, eq_iff key k)

pub ne-nil_of_get :
    (key : String) (p : StoredProject) (projects : List (String × StoredProject))
    → get key projects ≡ some p
    → projects ≢ []
unfolding get
ne-nil_of_get key p [] h = cc
ne-nil_of_get key p (entry ∷ projects) h = cc

ActiveIsRight-put :
    (active : Option String) (key : String) (p old : StoredProject)
    (projects : List (String × StoredProject))
    → ActiveIsRight active projects
    → get key projects ≡ some old
    → ActiveIsRight active (put key p projects)
ActiveIsRight-put none key p old projects h e = absurd (ne-nil_of_get key old projects e h)
ActiveIsRight-put (some a) key p old projects h e = ground (arith, get-put a key p projects)

-- Writing back a project that is stored.
replace_project-IsRight :
    (current : StoredEnvelope) (old p : StoredProject)
    → IsValid current
    → get p.id current.projects ≡ some old
    → IsStored p.id p
    → ((j : String) (q : StoredProject)
        → p.id ≢ j
        → get j current.projects ≡ some q
        → p.name ≢ q.name)
    → IsRight current (commit (replace_project current p) p)
unfolding replace_project
replace_project-IsRight current old p v e s fresh = (
  record {
    distinct_keys = put-HasDistinctKeys p.id p current.projects v.distinct_keys;
    stored = put-AreStored p.id p current.projects v.stored s;
    distinct_names = put-HaveDistinctNames p.id p current.projects v.distinct_names fresh;
    within_limit = omega (arith, length-put_old p.id p old current.projects e, v.within_limit);
    active = ActiveIsRight-put current.active_project_id p.id p old current.projects v.active e;
  },
  get-put_self p.id p current.projects,
  λ key h. get-put_ne key p.id p current.projects h,
)

-- Neither the old name, which stays, nor a new one is another project's.
updated_name_fresh :
    (current : StoredEnvelope) (existing : StoredProject) (name : String)
    → IsValid current
    → get existing.id current.projects ≡ some existing
    → (not (str_eq name existing.name)
        && name_taken existing.id name (projects_of current.projects))
      ≡ false
    → (j : String) (q : StoredProject) → existing.id ≢ j
    → get j current.projects ≡ some q
    → name ≢ q.name
updated_name_fresh current existing name v e free j q other f n =
    elim (Bool-cases (str_eq name existing.name)) [
      | inl kept ↦
          other (v.distinct_names existing.id j existing q e f (sym ((eq_iff _ _).0 kept) ∙ n))
      | inr renamed ↦
          name_taken-get existing.id name j q current.projects (rw renamed at free) f
            (λ same. other (sym same ∙ (v.stored j q f).keyed)) (sym n)
    ]

module _ (now : ℕ) (current : StoredEnvelope) (v : IsValid current) where
  module _ (key : String) (existing : StoredProject)
      (e : get key current.projects ≡ some existing) where
    at_own_id : get existing.id current.projects ≡ some existing
    at_own_id = ap (λ k. get k current.projects) (v.stored key existing e).keyed ∙ e

    -- From a valid envelope, an update of a project that it holds, if it commits, gives a valid
    -- envelope that holds the result under its id and every other project as it was; a conflict
    -- shows the stored project of its id.
    pub build_update-IsRight :
        (validation : Validation) (expected : Option ℕ)
        → IsRight current (build_update now current existing validation expected)
    unfolding build_update
    build_update-IsRight (invalid diagnostics) expected =
        elim (Bool-cases (revision_differs expected existing.revision)) [
          | inl stale ↦ rw stale at_own_id
          | inr current_revision ↦ rw current_revision tt
        ]
    build_update-IsRight (valid validated) expected =
        elim (Bool-cases (revision_differs expected existing.revision)) [
          | inl stale ↦ rw stale at_own_id
          | inr fits ↦
              let free =
                not (str_eq validated.name existing.name)
                && name_taken existing.id validated.name (projects_of current.projects) in
              elim (Bool-cases free) [
                | inl taken ↦ rw (fits, taken) tt
                | inr fresh ↦ rw (fits, fresh) (updated fresh)
              ]
        ]
      where
        new : StoredProject
        new = record existing {
          name = validated.name;
          contents = validated;
          revision = existing.revision + 1;
          updated_at = now;
          enabled_group_ids = [];
        }

        updated :
            (not (str_eq validated.name existing.name)
                && name_taken existing.id validated.name (projects_of current.projects))
              ≡ false
            → IsRight current (commit (replace_project current new) new)
        updated fresh =
            replace_project-IsRight current existing new v at_own_id
              (record {
                keyed = refl;
                revised = omega arith;
                enabled_once = tt;
                enabled_known = refl;
              })
              (updated_name_fresh current existing validated.name v at_own_id fresh)

    same_name_fresh :
        (j : String) (q : StoredProject)
        → existing.id ≢ j
        → get j current.projects ≡ some q
        → existing.name ≢ q.name
    same_name_fresh j q other f n = other (v.distinct_names existing.id j existing q at_own_id f n)

    -- Writing back the project with other enabled groups, or another root.
    pub build_set_group_enabled-IsRight :
        (group_id : String) (enabled : Bool)
        → IsRight current (build_set_group_enabled now current key group_id enabled)
    unfolding build_set_group_enabled
    build_set_group_enabled-IsRight group_id enabled =
        elim (Bool-cases (has_group group_id existing.contents.groups)) [
          | inl known ↦ rw (e, build_set_group_enabled, known) (enabling known)
          | inr unknown ↦ rw (e, build_set_group_enabled, unknown) tt
        ]
      where
        new : StoredProject
        new = record existing {
          enabled_group_ids = with_enabled enabled group_id existing.enabled_group_ids;
          revision = existing.revision + 1;
          updated_at = now;
        }

        enabling :
            has_group group_id existing.contents.groups ≡ true
            → IsRight current (commit (replace_project current new) new)
        enabling known =
            let s = v.stored key existing e in
            replace_project-IsRight current existing new v at_own_id
              (record {
                keyed = refl;
                revised = omega arith;
                enabled_once =
                    with_enabled-IsDistinct enabled group_id existing.enabled_group_ids
                      s.enabled_once;
                enabled_known =
                    all-with_enabled (λ id. has_group id existing.contents.groups) enabled group_id
                      existing.enabled_group_ids s.enabled_known known;
              })
              same_name_fresh

    pub build_set_mock_file_root-IsRight :
        (root : Option String) → IsRight current (build_set_mock_file_root now current key root)
    unfolding build_set_mock_file_root
    build_set_mock_file_root-IsRight root =
        let s = v.stored key existing e in
        let new : StoredProject = record existing {
          revision = existing.revision + 1;
          updated_at = now;
          mock_file_root = root;
        } in
        rw (e, build_set_mock_file_root)
          (replace_project-IsRight current existing new v at_own_id
            (record {
              keyed = refl;
              revised = omega arith;
              enabled_once = s.enabled_once;
              enabled_known = s.enabled_known;
            })
            same_name_fresh)

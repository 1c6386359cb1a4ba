-- ===== src/BrowserCore/Envelope/Create.antt =====
-- Creating, importing and saving a project commits a valid envelope.
use native.Mathlib.Omega.{arith}
use rogatio.Prelude.{
  ℕ, ◌≡◌, refl, sym, ap, ◌∙◌, false, Option, none, some, List, [], ◌∷◌, String, inl, inr, eq_iff,
  leb, ◌==◌, length, Bool-cases, Option-cases,
}
use rogatio.Prelude.Dict.{get, put}
use rogatio.Prelude.Dict.Laws.{HasDistinctKeys, get-put, put-HasDistinctKeys, length-put_new}
use rogatio.BrowserCore.Types.{StoredProject, StoredEnvelope}
use rogatio.BrowserCore.Envelope.{
  commit, Validation, valid, invalid, max_projects, projects_of, has_name, build_create,
  build_import, build_save, find_name, import_target, chosen_id, activate, is_inherited,
  asks_inherited,
}
use rogatio.BrowserCore.Envelope.Valid.{
  AreStored-tail, AreStored, ActiveIsRight, IsValid, put-AreStored, put-HaveDistinctNames,
  has_name-get,
}
use rogatio.BrowserCore.Envelope.Replace.{IsRight, get-put_self, get-put_ne, build_update-IsRight}

-- The project that an import finds by name is stored under its id.
get-find_name :
    (name : String) (p : StoredProject) (projects : List (String × StoredProject))
    → HasDistinctKeys projects
    → AreStored projects
    → find_name name (projects_of projects) ≡ some p
    → get p.id projects ≡ some p
unfolding find_name get
get-find_name name p [] d h e = cc
get-find_name name p ((k, q) ∷ projects) d h e = ground (
  arith,
  eq_iff q.name name,
  eq_iff k p.id,
  (h k q (ground (arith, eq_iff k k))).keyed,
  d.0,
  get-find_name name p projects d.1 (AreStored-tail k q projects d h),
)

module _ (now : ℕ) (current : StoredEnvelope) (v : IsValid current) where
  ActiveIsRight-activate :
      (id : String) (p : StoredProject) (active : Option String)
      (projects : List (String × StoredProject))
      → ActiveIsRight active projects
      → ActiveIsRight (activate id projects active) (put id p projects)
  ActiveIsRight-activate id p active [] h = rw (get-put_self id p []) (λ missing. cc)
  ActiveIsRight-activate id p none (entry ∷ projects) h = absurd (cc h)
  ActiveIsRight-activate id p (some a) (entry ∷ projects) h =
      ground (arith, get-put a id p (entry ∷ projects))

  -- From a valid envelope, a creation that commits gives a valid envelope (distinct keys and names,
  -- at most 64 projects, an active project) that holds the new project under its id and every
  -- other project as it was.
  pub build_create-IsRight :
      (validation : Validation) (id : String)
      → IsRight current (build_create now current validation id)
  unfolding build_create
  build_create-IsRight (invalid diagnostics) id = tt
  build_create-IsRight (valid validated) id =
      elim (Bool-cases (has_name validated.name (projects_of current.projects))) [
        | inl taken ↦ rw taken tt
        | inr free ↦ elim (Bool-cases (leb max_projects (length current.projects))) [
          | inl full ↦ rw (free, full) tt
          | inr room ↦ elim (Option-cases (get id current.projects)) [
            | inr (old, known) ↦ rw (free, room, known) tt
            | inl unknown ↦ elim (Bool-cases (is_inherited id)) [
              | inl always_there ↦ rw (free, room, unknown, always_there) tt
              | inr absent ↦ rw (free, room, unknown, absent) (created free room unknown)
            ]
          ]
        ]
      ]
    where
      new : StoredProject
      new = record {
        id = id;
        name = validated.name;
        contents = validated;
        revision = 1;
        created_at = now;
        updated_at = now;
        enabled_group_ids = [];
        mock_file_root = none;
      }

      created :
          has_name validated.name (projects_of current.projects) ≡ false
          → leb max_projects (length current.projects) ≡ false
          → get id current.projects ≡ none
          → IsRight current (
              commit
                (record {
                  projects = put id new current.projects;
                  active_project_id = activate id current.projects current.active_project_id;
                  migration_notices = none;
                })
                new)
      created free room unknown = (
        record {
          distinct_keys = put-HasDistinctKeys id new current.projects v.distinct_keys;
          stored = put-AreStored id new current.projects v.stored (record {
            keyed = refl;
            revised = omega arith;
            enabled_once = tt;
            enabled_known = refl;
          });
          distinct_names =
              put-HaveDistinctNames id new current.projects v.distinct_names
                (λ j q other f n. has_name-get validated.name j q current.projects free f (sym n));
          within_limit = ground (arith, length-put_new id new current.projects unknown);
          active =
              ActiveIsRight-activate id new current.active_project_id current.projects v.active;
        },
        get-put_self id new current.projects,
        λ key other. get-put_ne key id new current.projects other,
      )

  -- From a valid envelope, and without an id or for an id that is no name that every object
  -- inherits, an import never strays. If it commits, as a creation or as an update of the project of
  -- that id or name, gives a valid envelope that holds its result under its id and every other
  -- project as it was; a conflict shows the stored project of its id.
  pub build_import-IsRight :
      (validation : Validation) (id : Option String) (expected : Option ℕ) (generated : String)
      → asks_inherited id ≡ false
      → IsRight current (build_import now current validation id expected generated)
  unfolding build_import
  build_import-IsRight (invalid diagnostics) id expected generated own = tt
  build_import-IsRight (valid validated) id expected generated own =
      elim (Option-cases (import_target current validated id)) [
        | inl new ↦
            rw (new, build_import, own)
              (build_create-IsRight (valid validated) (chosen_id id generated))
        | inr (existing, found) ↦
            rw (found, build_import)
              (build_update-IsRight now current v existing.id existing (target id found)
                (valid validated) expected)
      ]
    where
      target :
          {existing : StoredProject} (chosen : Option String)
          → import_target current validated chosen ≡ some existing
          → get existing.id current.projects ≡ some existing
      target {existing} none found =
          unfold import_target in
          get-find_name validated.name existing current.projects v.distinct_keys v.stored found
      target {existing} (some key) found =
          unfold import_target in
          ap (λ k. get k current.projects) (v.stored key existing found).keyed ∙ found

  pub build_save-IsRight :
      (key : String) (validation : Validation) (expected : ℕ)
      → is_inherited key ≡ false
      → IsRight current (build_save now current key validation expected)
  unfolding build_save
  build_save-IsRight key validation expected own = elim (Option-cases (get key current.projects)) [
    | inl missing ↦ rw (missing, build_save, own) tt
    | inr (existing, e) ↦ elim (Bool-cases (existing.revision == expected)) [
      | inl fits ↦
          rw (e, build_save, fits)
            (build_update-IsRight now current v key existing e validation (some expected))
      | inr stale ↦
          rw (e, build_save, stale)
            (ap (λ k. get k current.projects) (v.stored key existing e).keyed ∙ e)
    ]
  ]

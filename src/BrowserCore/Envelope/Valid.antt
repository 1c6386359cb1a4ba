-- ===== src/BrowserCore/Envelope/Valid.antt =====
-- What holds of every envelope that the repository commits.
use native.Mathlib.Omega.{arith}
use rogatio.Prelude.{
  ◌≤◌, ◌≡◌, ◌≢◌, refl, Bool, true, false, not, ◌||◌, Option, none, some, List, [], ◌∷◌, ◌++◌,
  String, inl, inr, str_eq, eq_iff, all, length, filter, Bool-cases,
}
use rogatio.Prelude.Dict.{get, put}
use rogatio.Prelude.Dict.Laws.{HasDistinctKeys, get-put}
use rogatio.Prelude.Texts.{includes}
use rogatio.BrowserCore.Types.{StoredProject, StoredEnvelope}
use rogatio.BrowserCore.Envelope.{
  max_projects, projects_of, has_name, name_taken, has_group, with_enabled,
}

-- No string stands twice.
abbrev pub IsDistinct : List String → Type 0
IsDistinct [] = Unit
IsDistinct (x ∷ xs) = (includes xs x ≡ false) × IsDistinct xs

-- A project as it is stored under a key.
pub record IsStored (key : String) (project : StoredProject) : Type 0 where
  pub keyed : project.id ≡ key
  pub revised : 1 ≤ project.revision
  pub enabled_once : IsDistinct project.enabled_group_ids
  pub enabled_known :
      all (λ id. has_group id project.contents.groups) project.enabled_group_ids ≡ true

abbrev pub AreStored : List (String × StoredProject) → Type 0
AreStored projects = (key : String) (p : StoredProject) → get key projects ≡ some p → IsStored key p

abbrev pub HaveDistinctNames : List (String × StoredProject) → Type 0
HaveDistinctNames projects =
    (i j : String) (p q : StoredProject)
    → get i projects ≡ some p
    → get j projects ≡ some q
    → p.name ≡ q.name
    → i ≡ j

-- There is an active project exactly when there is a project, and it is one of them.
abbrev pub ActiveIsRight : Option String → List (String × StoredProject) → Type 0
ActiveIsRight none projects = projects ≡ []
ActiveIsRight (some id) projects = get id projects ≢ none

pub record IsValid (envelope : StoredEnvelope) : Type 0 where
  pub distinct_keys : HasDistinctKeys envelope.projects
  pub stored : AreStored envelope.projects
  pub distinct_names : HaveDistinctNames envelope.projects
  pub within_limit : length envelope.projects ≤ max_projects
  pub active : ActiveIsRight envelope.active_project_id envelope.projects

pub AreStored-tail :
    (k : String) (p : StoredProject) (projects : List (String × StoredProject))
    → HasDistinctKeys ((k, p) ∷ projects)
    → AreStored ((k, p) ∷ projects)
    → AreStored projects
unfolding get
AreStored-tail k p projects d h j q e = h j q (ground (arith, eq_iff k j, d.0, e))

pub put-AreStored :
    (key : String) (p : StoredProject) (projects : List (String × StoredProject))
    → AreStored projects
    → IsStored key p
    → AreStored (put key p projects)
put-AreStored key p projects h s k q e = elim (Bool-cases (str_eq key k)) [
  | inl same ↦
      let found : p ≡ q = cc (get-put k key p projects, same, e) in
      rw (← found, ← (eq_iff key k).0 same) s
  | inr other ↦ h k q (cc (get-put k key p projects, other, e))
]

pub put-HaveDistinctNames :
    (key : String) (p : StoredProject) (projects : List (String × StoredProject))
    → HaveDistinctNames projects
    → ((j : String) (q : StoredProject) → key ≢ j → get j projects ≡ some q → p.name ≢ q.name)
    → HaveDistinctNames (put key p projects)
put-HaveDistinctNames key p projects h fresh i j q r e f n = ground (
  arith,
  get-put i key p projects,
  get-put j key p projects,
  eq_iff key i,
  eq_iff key j,
  h i j q r,
  fresh i q,
  fresh j r,
)

-- `has_name` and `name_taken` see every stored project.
pub has_name-get :
    (name key : String) (p : StoredProject) (projects : List (String × StoredProject))
    → has_name name (projects_of projects) ≡ false
    → get key projects ≡ some p
    → p.name ≢ name
unfolding has_name get
has_name-get name key p [] h e = cc
has_name-get name key p ((k, q) ∷ projects) h e =
    ground (arith, eq_iff q.name name, has_name-get name key p projects)

pub name_taken-get :
    (id name key : String) (p : StoredProject) (projects : List (String × StoredProject))
    → name_taken id name (projects_of projects) ≡ false
    → get key projects ≡ some p
    → p.id ≢ id
    → p.name ≢ name
unfolding name_taken get
name_taken-get id name key p [] h e d = cc
name_taken-get id name key p ((k, q) ∷ projects) h e d =
    ground (arith, eq_iff q.name name, eq_iff q.id id, name_taken-get id name key p projects)

-- Enabling and disabling a group keeps the ids distinct, and known to the project.
includes-append :
    (id x : String) (ids : List String)
    → includes (ids ++ id ∷ []) x ≡ (includes ids x || str_eq id x)
includes-append id x [] = ground arith
includes-append id x (y ∷ ids) = ground (arith, includes-append id x ids)

IsDistinct-append :
    (id : String) (ids : List String)
    → IsDistinct ids
    → includes ids id ≡ false
    → IsDistinct (ids ++ id ∷ [])
IsDistinct-append id [] h f = (refl, tt)
IsDistinct-append id (x ∷ ids) h f =
    ground (arith, eq_iff id x, eq_iff x id, includes-append id x ids, IsDistinct-append id ids h.1)

includes-filter :
    (p : String → Bool) (x : String) (ids : List String)
    → includes ids x ≡ false
    → includes (filter p ids) x ≡ false
includes-filter p x [] h = refl
includes-filter p x (y ∷ ids) h = ground (arith, includes-filter p x ids)

IsDistinct-filter :
    (p : String → Bool) (ids : List String) → IsDistinct ids → IsDistinct (filter p ids)
IsDistinct-filter p [] h = tt
IsDistinct-filter p (x ∷ ids) h =
    ground (arith, includes-filter p x ids, IsDistinct-filter p ids h.1)

pub with_enabled-IsDistinct :
    (enabled : Bool) (id : String) (ids : List String)
    → IsDistinct ids
    → IsDistinct (with_enabled enabled id ids)
unfolding with_enabled
with_enabled-IsDistinct true id ids h = ground (arith, IsDistinct-append id ids h)
with_enabled-IsDistinct false id ids h = IsDistinct-filter (λ other. not (str_eq other id)) ids h

module _ (p : String → Bool) where
  all-append :
      (ids : List String) (id : String)
      → all p ids ≡ true
      → p id ≡ true
      → all p (ids ++ id ∷ []) ≡ true
  all-append [] id h q = ground arith
  all-append (x ∷ ids) id h q = ground (arith, all-append ids id)

  all-filter :
      (keep : String → Bool) (ids : List String) → all p ids ≡ true → all p (filter keep ids) ≡ true
  all-filter keep [] h = refl
  all-filter keep (x ∷ ids) h = ground (arith, all-filter keep ids)

  pub all-with_enabled :
      (enabled : Bool) (id : String) (ids : List String)
      → all p ids ≡ true
      → p id ≡ true
      → all p (with_enabled enabled id ids) ≡ true
  unfolding with_enabled
  all-with_enabled true id ids h q = ground (arith, all-append ids id)
  all-with_enabled false id ids h q = all-filter (λ other. not (str_eq other id)) ids h

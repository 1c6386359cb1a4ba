-- ===== src/BrowserCore/Envelope/Remove.antt =====
-- Removing: the envelope stays valid, and the successor of a removed active project.
use native.Mathlib.Omega.{arith}
use mathlib.Core.List.{Memᴰ}
use rogatio.Prelude.{
  ◌<◌, ◌≡◌, ◌≢◌, ◌⊎◌, refl, sym, ap, ◌∙◌, true, false, Option, none, some, List, [], ◌∷◌, String,
  inl, inr, str_eq, eq_iff, Bool-cases, Option-cases, All,
}
use rogatio.Prelude.Dict.{get, delete}
use rogatio.Prelude.Dict.Laws.{
  HasDistinctKeys, get-delete_ne, get-delete_self, delete-HasDistinctKeys, length-delete,
}
use rogatio.Prelude.Sorting.{HeadIsFirst, sort-HeadIsFirst}
use rogatio.Prelude.Texts.{utf16, text_lt, text_lt_asymm, text_lt_cotrans}
use rogatio.BrowserCore.Types.{StoredProject, StoredEnvelope}
use rogatio.BrowserCore.Envelope.{
  Mutation, commit, conflict, failure, stray, is_inherited, projects_of, build_remove, more_recent,
  next_active, is_active, head_id,
}
use rogatio.BrowserCore.Envelope.Valid.{
  AreStored, AreStored-tail, HaveDistinctNames, ActiveIsRight, IsValid,
}

more_recent-total : (a b : StoredProject) → (more_recent a b ≡ true) ⊎ (more_recent b a ≡ true)
unfolding more_recent
more_recent-total a b = ground (arith, text_lt_asymm (utf16 a.id) (utf16 b.id))

more_recent-trans :
    (a b c : StoredProject)
    → more_recent a b ≡ true
    → more_recent b c ≡ true
    → more_recent a c ≡ true
unfolding more_recent
more_recent-trans a b c h k = ground (arith, text_lt_cotrans (utf16 a.id) (utf16 b.id) (utf16 c.id))

get-projects_of :
    (p : StoredProject) (projects : List (String × StoredProject))
    → HasDistinctKeys projects
    → AreStored projects
    → Memᴰ p (projects_of projects)
    → get p.id projects ≡ some p
unfolding get
get-projects_of p [] d h m = elim m [ ]
get-projects_of p ((k, q) ∷ projects) d h (Memᴰ.head e) =
    ground (arith, eq_iff k p.id, (h k q (ground (arith, eq_iff k k))).keyed)
get-projects_of p ((k, q) ∷ projects) d h (Memᴰ.tail m) =
    ground (
      arith,
      eq_iff k p.id,
      d.0,
      get-projects_of p projects d.1 (AreStored-tail k q projects d h) m,
    )

-- A project of a list that was updated last, and of those has the least id.
abbrev pub IsMostRecent : StoredProject → List StoredProject → Type 0
IsMostRecent p projects =
    Memᴰ p projects
    × All
        (λ q.
          (q.updated_at < p.updated_at)
          ⊎ ((q.updated_at ≡ p.updated_at) × (text_lt (utf16 q.id) (utf16 p.id) ≡ false)))
        projects

-- The successor: none of no projects, else the most recent one.
abbrev pub IsSuccessor : Option String → List (String × StoredProject) → Type 0
IsSuccessor none projects = projects ≡ []
IsSuccessor (some id) projects =
    (p : StoredProject) × (p.id ≡ id) × IsMostRecent p (projects_of projects)

more_recent-lt :
    (p q : StoredProject)
    → more_recent p q ≡ true
    → (q.updated_at < p.updated_at)
      ⊎ ((q.updated_at ≡ p.updated_at) × (text_lt (utf16 q.id) (utf16 p.id) ≡ false))
unfolding more_recent
more_recent-lt p q h = ground arith

All-imp {ℓ κ} :
    {A : Type 0} (P : A → Type ℓ) (Q : A → Type κ)
    → ((x : A) → P x → Q x)
    → (xs : List A) → All P xs
    → All Q xs
All-imp P Q f [] h = tt
All-imp P Q f (x ∷ xs) h = (f x h.0, All-imp P Q f xs h.1)

nil_of_projects_of :
    (projects : List (String × StoredProject)) → projects_of projects ≡ [] → projects ≡ []
nil_of_projects_of [] h = refl
nil_of_projects_of (entry ∷ projects) h = cc

head_id-IsSuccessor :
    (projects : List (String × StoredProject)) (sorted : List StoredProject)
    → HeadIsFirst more_recent more_recent-total more_recent-trans (projects_of projects) sorted
    → IsSuccessor (head_id sorted) projects
head_id-IsSuccessor projects [] h = nil_of_projects_of projects h
head_id-IsSuccessor projects (p ∷ sorted) h =
    (p, refl, (h.0, All-imp _ _ (more_recent-lt p) (projects_of projects) h.1))

next_active-IsSuccessor :
    (projects : List (String × StoredProject)) → IsSuccessor (next_active projects) projects
unfolding next_active
next_active-IsSuccessor projects =
    head_id-IsSuccessor projects _
      (sort-HeadIsFirst more_recent more_recent-total more_recent-trans (projects_of projects))

ActiveIsRight-of_IsSuccessor :
    (active : Option String) (projects : List (String × StoredProject))
    → HasDistinctKeys projects
    → AreStored projects
    → IsSuccessor active projects
    → ActiveIsRight active projects
ActiveIsRight-of_IsSuccessor none projects d h s = s
ActiveIsRight-of_IsSuccessor (some id) projects d h (p, keyed, recent) = λ missing.
    let found = get-projects_of p projects d h recent.0 in
    let at_id = ap (λ k. get k projects) keyed in cc (found, at_id, missing)

-- What removing a project may be.
abbrev pub RemoveIsRight : StoredEnvelope → String → Mutation StoredEnvelope → Type 0
RemoveIsRight current id (commit next value) =
    IsValid next
    × (get id next.projects ≡ none)
    × ((key : String) → key ≢ id → get key next.projects ≡ get key current.projects)
    × (current.active_project_id ≡ some id → IsSuccessor next.active_project_id next.projects)
    × (current.active_project_id ≢ some id → next.active_project_id ≡ current.active_project_id)
RemoveIsRight current id (conflict stored) = ⊥
RemoveIsRight current id (failure diagnostics) = get id current.projects ≡ none
RemoveIsRight current id stray = ⊥

get_of_delete :
    (id k : String) (p : StoredProject) (projects : List (String × StoredProject))
    → HasDistinctKeys projects
    → get k (delete id projects) ≡ some p
    → (get k projects ≡ some p) × (k ≢ id)
get_of_delete id k p projects d e = elim (Bool-cases (str_eq k id)) [
  | inl same ↦
      let gone = ap (λ j. get j (delete id projects)) ((eq_iff k id).0 same) in
      absurd (cc (e, gone, get-delete_self id projects d))
  | inr other ↦
      let differ : k ≢ id = λ same. cc (other, (eq_iff k id).1 same) in
      (sym (get-delete_ne k id projects differ) ∙ e, differ)
]

module _ (current : StoredEnvelope) (id : String) (v : IsValid current) where
  remaining : List (String × StoredProject)
  remaining = delete id current.projects

  remaining-AreStored : AreStored remaining
  unfolding remaining
  remaining-AreStored k p e =
      v.stored k p (get_of_delete id k p current.projects v.distinct_keys e).0

  remaining-HaveDistinctNames : HaveDistinctNames remaining
  unfolding remaining
  remaining-HaveDistinctNames i j p q e f =
      v.distinct_names i j p q (get_of_delete id i p current.projects v.distinct_keys e).0
        (get_of_delete id j q current.projects v.distinct_keys f).0

  still_active :
      (active : Option String)
      → is_active active id ≡ false
      → ActiveIsRight active current.projects
      → ActiveIsRight active remaining
  unfolding remaining delete
  still_active none h a = ap (delete id) a
  still_active (some other) h a = λ missing. a (
      sym (get-delete_ne other id current.projects (λ same. cc (h, (eq_iff other id).1 same)))
      ∙ missing)

  active_of_is_active : (active : Option String) → is_active active id ≡ true → active ≡ some id
  active_of_is_active none h = cc
  active_of_is_active (some other) h = ap some ((eq_iff other id).0 h)

  not_active_of_is_active :
      (active : Option String) → is_active active id ≡ false → active ≢ some id
  not_active_of_is_active none h = cc
  not_active_of_is_active (some other) h = ground (arith, eq_iff other id)

  inactive_of_missing :
      (active : Option String)
      → get id current.projects ≡ none
      → ActiveIsRight active current.projects
      → is_active active id ≡ false
  inactive_of_missing none missing a = refl
  inactive_of_missing (some other) missing a = elim (Bool-cases (str_eq other id)) [
    | inr differs ↦ differs
    | inl same ↦ absurd (a (ap (λ k. get k current.projects) ((eq_iff other id).0 same) ∙ missing))
  ]

  committed :
      (active : Option String)
      → ActiveIsRight active remaining
      → IsValid
          (record { projects = remaining; active_project_id = active; migration_notices = none })
  unfolding remaining
  committed active h = record {
    distinct_keys = delete-HasDistinctKeys id current.projects v.distinct_keys;
    stored = remaining-AreStored;
    distinct_names = remaining-HaveDistinctNames;
    within_limit = omega (arith, length-delete id current.projects, v.within_limit);
    active = h;
  }

  -- From a valid envelope, removing commits a valid envelope without the project and with every
  -- other one as it was, or fails, for an id that is no project's. If the project was active, the most recently updated of
  -- the others becomes active (the least id among equals), or none if there is no other; if it was
  -- not, the active project stays.
  pub build_remove-RemoveIsRight : RemoveIsRight current id (build_remove current id)
  unfolding build_remove remaining
  build_remove-RemoveIsRight = elim (Option-cases (get id current.projects)) [
    | inl missing ↦ elim (Bool-cases (is_inherited id)) [
      | inr absent ↦ rw (missing, build_remove, absent) missing
      | inl always_there ↦
          let inactive = inactive_of_missing current.active_project_id missing v.active in
          rw (missing, build_remove, always_there, inactive)
            (
              committed current.active_project_id
                  (still_active current.active_project_id inactive v.active),
              get-delete_self id current.projects v.distinct_keys,
              λ (key : String) (h : key ≢ id). get-delete_ne key id current.projects h,
              λ same. absurd (not_active_of_is_active current.active_project_id inactive same),
              λ _. refl,
            )
    ]
    | inr (existing, e) ↦
        let gone = get-delete_self id current.projects v.distinct_keys in
        let others = λ (key : String) (h : key ≢ id). get-delete_ne key id current.projects h in
        elim (Bool-cases (is_active current.active_project_id id)) [
          | inl active ↦
              let successor = next_active-IsSuccessor remaining in
              rw (e, build_remove, active)
                (
                  committed (next_active remaining) (
                      ActiveIsRight-of_IsSuccessor (next_active remaining) remaining
                        (delete-HasDistinctKeys id current.projects v.distinct_keys)
                        remaining-AreStored successor),
                  gone,
                  others,
                  λ _. successor,
                  λ differs.
                      absurd (differs (active_of_is_active current.active_project_id active)),
                )
          | inr inactive ↦
              rw (e, build_remove, inactive)
                (
                  committed current.active_project_id
                      (still_active current.active_project_id inactive v.active),
                  gone,
                  others,
                  λ same. absurd (not_active_of_is_active current.active_project_id inactive same),
                  λ _. refl,
                )
        ]
  ]

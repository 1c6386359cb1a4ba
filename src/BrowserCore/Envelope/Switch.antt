-- ===== src/BrowserCore/Envelope/Switch.antt =====
-- Switching: an id that is looked up becomes the active one.
use rogatio.Prelude.{
  ◌≡◌, ◌≢◌, refl, true, false, none, some, String, inl, inr, Bool-cases, Option-cases,
}
use rogatio.Prelude.Dict.{get}
use rogatio.BrowserCore.Types.{StoredEnvelope}
use rogatio.BrowserCore.Envelope.{
  Mutation, commit, conflict, failure, stray, is_inherited, build_switch,
}
use rogatio.BrowserCore.Envelope.Valid.{IsValid}

-- What switching to a project may be. An id that a project has, or that every object inherits,
-- becomes the active one, and in the second case alone the envelope is not valid.
abbrev pub SwitchIsRight : StoredEnvelope → String → Mutation StoredEnvelope → Type 0
SwitchIsRight current id (commit next value) =
    (next.active_project_id ≡ some id)
    × (next.projects ≡ current.projects)
    × (get id current.projects ≢ none → IsValid next)
    × (get id current.projects ≡ none → (is_inherited id ≡ true) × (IsValid next → ⊥))
SwitchIsRight current id (conflict stored) = ⊥
SwitchIsRight current id (failure diagnostics) =
    (get id current.projects ≡ none) × (is_inherited id ≡ false)
SwitchIsRight current id stray = ⊥

-- From a valid envelope, switching commits a valid envelope with the same projects and the project
-- active, for an id that a project has; commits an envelope that is not valid, with the same
-- projects and the id active, for any other id that is a name every object inherits; and fails for
-- all other ids.
pub build_switch-SwitchIsRight :
    (current : StoredEnvelope) (id : String)
    → IsValid current
    → SwitchIsRight current id (build_switch current id)
unfolding build_switch
build_switch-SwitchIsRight current id v = elim (Option-cases (get id current.projects)) [
  | inl missing ↦ elim (Bool-cases (is_inherited id)) [
    | inl always_there ↦
        rw (missing, build_switch, always_there)
          (
            refl,
            refl,
            λ stored. absurd (stored missing),
            λ _. (always_there, λ valid. valid.active missing),
          )
    | inr absent ↦ rw (missing, build_switch, absent) (missing, absent)
  ]
  | inr (existing, e) ↦
      rw (e, build_switch)
        (
          refl,
          refl,
          λ _. record {
            distinct_keys = v.distinct_keys;
            stored = v.stored;
            distinct_names = v.distinct_names;
            within_limit = v.within_limit;
            active = λ missing. cc (e, missing);
          },
          λ missing. cc missing,
        )
]

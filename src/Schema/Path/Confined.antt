-- ===== src/Schema/Path/Confined.antt =====
-- packages/schema/src/path.ts: an accepted path is unchanged and stays in its directory.
use rogatio.Prelude.{
  ℕ, ◌≡◌, ◌≢◌, refl, ap, ◌∙◌, sym, true, false, ◌||◌, none, some, List, [], ◌∷◌, ◌==◌, ==_iff,
  Bool-cases, first_false, second_false, length, any, All, inl, inr,
}
use rogatio.Prelude.Texts.{Text}
use rogatio.Schema.Path.{
  includes_unit, has_control_unit, starts_with_slash, ends_with_slash, has_double_slash, push_unit,
  split_path, join_path, is_bad_part, normalize_logical_path,
}

join_path-push_unit :
    (c : ℕ) (parts : List Text) → join_path (push_unit c parts) ≡ c ∷ join_path parts
unfolding join_path
join_path-push_unit c [] = refl
join_path-push_unit c (part ∷ []) = refl
join_path-push_unit c (part ∷ next ∷ parts) = refl

IsNonempty : List Text → Type 0
IsNonempty [] = ⊥
IsNonempty (part ∷ parts) = Unit

push_unit-IsNonempty : (c : ℕ) (parts : List Text) → IsNonempty (push_unit c parts)
unfolding IsNonempty
push_unit-IsNonempty c [] = tt
push_unit-IsNonempty c (part ∷ parts) = tt

split_path-IsNonempty : (value : Text) → IsNonempty (split_path value)
unfolding split_path IsNonempty
split_path-IsNonempty [] = tt
split_path-IsNonempty (c ∷ value) = elim (Bool-cases (c == b'/')) [
  | inl slash ↦ rw slash tt
  | inr other ↦ rw other (push_unit-IsNonempty c (split_path value))
]

join_path-slash :
    (parts : List Text) → IsNonempty parts → join_path ([] ∷ parts) ≡ b'/' ∷ join_path parts
unfolding join_path IsNonempty
join_path-slash [] h = absurd h
join_path-slash (part ∷ parts) h = refl

join_path-split_path : (value : Text) → join_path (split_path value) ≡ value
unfolding split_path join_path
join_path-split_path [] = refl
join_path-split_path (c ∷ value) = elim (Bool-cases (c == b'/')) [
  | inl slash ↦ rw slash (
      join_path-slash (split_path value) (split_path-IsNonempty value)
      ∙ ap (λ d. d ∷ join_path (split_path value)) (sym ((==_iff c b'/').0 slash))
      ∙ ap (λ rest. c ∷ rest) (join_path-split_path value))
  | inr other ↦ rw other (
      join_path-push_unit c (split_path value) ∙ ap (λ rest. c ∷ rest) (join_path-split_path value))
]

-- A part of a path that names an entry of a directory.
abbrev pub IsPlain : Text → Type 0
IsPlain part =
    (part ≢ []) × (part ≢ b'.' ∷ []) × (part ≢ b'.' ∷ b'.' ∷ []) × (includes_unit b':' part ≡ false)

IsPlain-of_good : (part : Text) → is_bad_part part ≡ false → IsPlain part
unfolding is_bad_part
IsPlain-of_good part good = (
  λ h. clash (sym good ∙ ap is_bad_part h),
  λ h. clash (sym good ∙ ap is_bad_part h),
  λ h. clash (sym good ∙ ap is_bad_part h),
  first_false _ _ (second_false _ _ (second_false _ _ good)),
)
  where
    clash : false ≡ true → ⊥
    clash h = cc

all-IsPlain : (parts : List Text) → any is_bad_part parts ≡ false → All IsPlain parts
all-IsPlain [] good = tt
all-IsPlain (part ∷ parts) good =
    (IsPlain-of_good part (first_false _ _ good), all-IsPlain parts (second_false _ _ good))

-- A path is accepted only if it is as it was given, relative, and joins parts that each name an
-- entry of a directory: none is empty, `.` or `..`, or has a colon.
pub normalize_logical_path-IsConfined :
    (value path : Text)
    → normalize_logical_path value ≡ some path
    → (path ≡ value)
      × (starts_with_slash value ≡ false)
      × (includes_unit b'\x5c' value ≡ false)
      × (parts : List Text) × (join_path parts ≡ value)
      × All IsPlain parts
unfolding normalize_logical_path
normalize_logical_path-IsConfined value path accepted = elim (Bool-cases (length value == 0)) [
  | inl empty ↦ refused (rw (normalize_logical_path, empty) at accepted)
  | inr some_units ↦
      elim (Bool-cases
        (includes_unit b'\x5c' value || (includes_unit b'%' value || has_control_unit value))) [
          | inl odd ↦ refused (rw (normalize_logical_path, some_units, odd) at accepted)
          | inr clean ↦
              elim (Bool-cases
                (starts_with_slash value || (ends_with_slash value || has_double_slash value))) [
                  | inl slashes ↦
                      refused (rw (normalize_logical_path, some_units, clean, slashes) at accepted)
                  | inr relative ↦ elim (Bool-cases (any is_bad_part (split_path value))) [
                    | inl bad ↦
                        refused (
                          rw (normalize_logical_path, some_units, clean, relative, bad) at accepted)
                    | inr good ↦ (
                      sym (
                            some_injective (
                              rw (normalize_logical_path, some_units, clean, relative, good) at
                                accepted))
                          ∙ join_path-split_path value,
                      first_false _ _ relative,
                      first_false _ _ clean,
                      split_path value,
                      join_path-split_path value,
                      all-IsPlain (split_path value) good,
                    )
                  ]
                ]
        ]
]
  where
    some_injective :
        some (join_path (split_path value)) ≡ some path → join_path (split_path value) ≡ path
    some_injective h = cc

    refused :
        none ≡ some path
        → (path ≡ value)
          × (starts_with_slash value ≡ false)
          × (includes_unit b'\x5c' value ≡ false)
          × (parts : List Text) × (join_path parts ≡ value)
          × All IsPlain parts
    refused h = cc

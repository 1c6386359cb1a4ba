-- ===== src/Schema/Path.antt =====
-- packages/schema/src/path.ts: the logical path of a mock file, as UTF-16 code units.
pub mod Confined
use rogatio.Prelude.{
  ℕ, Bool, true, false, not, ◌&&◌, ◌||◌, Option, none, some, List, [], ◌∷◌, ◌++◌, ◌==◌, leb,
  if◌then◌else◌, length, any,
}
use rogatio.Prelude.Texts.{Text}

-- `value.includes(c)`
abbrev pub includes_unit : ℕ → Text → Bool
includes_unit c value = any (λ d. d == c) value

-- `hasControl`
abbrev pub has_control_unit : Text → Bool
has_control_unit value = any (λ c. leb c 0x1f || c == 0x7f) value

abbrev pub starts_with_slash : Text → Bool
starts_with_slash [] = false
starts_with_slash (c ∷ value) = c == b'/'

unfoldable pub ends_with_slash : Text → Bool
ends_with_slash [] = false
ends_with_slash (c ∷ []) = c == b'/'
ends_with_slash (c ∷ d ∷ value) = ends_with_slash (d ∷ value)

-- `value.includes("//")`
unfoldable pub has_double_slash : Text → Bool
has_double_slash [] = false
has_double_slash (c ∷ value) = (c == b'/' && starts_with_slash value) || has_double_slash value

abbrev pub push_unit : ℕ → List Text → List Text
push_unit c [] = (c ∷ []) ∷ []
push_unit c (part ∷ parts) = (c ∷ part) ∷ parts

-- `value.split("/")`
unfoldable pub split_path : Text → List Text
split_path [] = [] ∷ []
split_path (c ∷ value) =
    let parts = split_path value in if c == b'/' then [] ∷ parts else push_unit c parts

-- `parts.join("/")`
unfoldable pub join_path : List Text → Text
join_path [] = []
join_path (part ∷ []) = part
join_path (part ∷ next ∷ parts) = part ++ b'/' ∷ join_path (next ∷ parts)

abbrev pub is_dots : Text → Bool
is_dots (c ∷ []) = c == b'.'
is_dots (c ∷ d ∷ []) = c == b'.' && d == b'.'
is_dots _ = false

abbrev pub is_pattern_unit : ℕ → Bool
is_pattern_unit c = c == b'*' || (c == b'?' || (c == b'[' || c == b']'))

-- A part that the path must not have.
unfoldable pub is_bad_part : Text → Bool
is_bad_part part =
    length part == 0 || (is_dots part || (includes_unit b':' part || any is_pattern_unit part))

unfoldable pub normalize_logical_path : Text → Option Text
unfolding ends_with_slash has_double_slash split_path join_path is_bad_part
normalize_logical_path value =
    if length value == 0
    then none
    else if includes_unit b'\x5c' value || (includes_unit b'%' value || has_control_unit value)
    then none
    else if starts_with_slash value || (ends_with_slash value || has_double_slash value)
    then none
    else if any is_bad_part (split_path value)
    then none
    else some (join_path (split_path value))

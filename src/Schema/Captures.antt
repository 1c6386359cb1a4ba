-- ===== src/Schema/Captures.antt =====
-- packages/schema/src/captures.ts: URL-capture references in authored replacement texts.
-- A text is a list of UTF-16 code units; an index into it is the rest of the text from there on.
pub mod Groups
pub mod Substitution
pub mod Escape
use rogatio.Prelude.{
  ℕ, zero, suc, ◌+◌, ◌-◌, Bool, true, false, ◌&&◌, ◌||◌, Option, none, some, List, [], ◌∷◌, ◌++◌,
  leb, ltb, ◌==◌, if◌then◌else◌, get_elem?, length, drop,
}
use mathlib.Core.Option
use rogatio.Prelude.Texts.{Text}

pub data IssueCode : Type 0 where
  invalid_syntax out_of_range : IssueCode

-- The message is fixed by the other fields and left out.
pub record CaptureTemplateIssue : Type 0 where
  pub code : IssueCode
  pub offset : ℕ
  pub referenced : Option ℕ
  pub groups : ℕ

-- The `while` of `skipBalancedGroup` from an index on: the text from the closing parenthesis on,
-- or the empty text at the end of the source.
unfoldable pub skip_from : Text → ℕ → Text
skip_from [] depth = []
skip_from (char ∷ []) depth = if char == b')' && depth == 1 then char ∷ [] else []
skip_from (char ∷ next ∷ rest) depth =
    let past_escape = skip_from rest depth in
    let deeper = skip_from (next ∷ rest) (depth + 1) in
    let shallower = skip_from (next ∷ rest) (depth - 1) in
    let same = skip_from (next ∷ rest) depth in
    if char == b'\x5c'
    then past_escape
    else if char == b'('
    then deeper
    else if char == b')'
    then (if depth == 1 then char ∷ next ∷ rest else shallower)
    else same

unfoldable pub skip_balanced_group : Text → Text
unfolding skip_from
skip_balanced_group source = skip_from source 0

-- The text starts with `?`.
abbrev pub starts_special : Text → Bool
starts_special [] = false
starts_special (char ∷ rest) = char == b'?'

-- The `while` of `countCapturingGroups` on fuel; `none` when the fuel runs out.
unfoldable pub count_from : ℕ → Text → ℕ → Option ℕ
unfolding skip_balanced_group
count_from fuel [] count = some count
count_from zero (char ∷ rest) count = none
count_from (suc fuel) (char ∷ rest) count =
    let past_escape = count_from fuel (drop 1 rest) count in
    let past_group = count_from fuel (skip_balanced_group (char ∷ rest)) count in
    let counted = count_from fuel rest (count + 1) in
    let plain = count_from fuel rest count in
    if char == b'\x5c'
    then past_escape
    else if char == b'('
    then (if starts_special rest then past_group else counted)
    else plain

unfoldable pub count_capturing_groups : Text → Option ℕ
unfolding count_from
count_capturing_groups url_regex = count_from (length url_regex + 1) url_regex 0

abbrev pub is_digit : ℕ → Bool
is_digit char = leb b'0' char && leb char b'9'

abbrev pub is_reference_digit : ℕ → Bool
is_reference_digit char = leb b'1' char && leb char b'9'

abbrev pub starts_digit : Text → Bool
starts_digit [] = false
starts_digit (char ∷ rest) = is_digit char

abbrev issue : IssueCode → ℕ → Option ℕ → ℕ → CaptureTemplateIssue
issue c at r g = record { code = c; offset = at; referenced = r; groups = g }

-- The issue of a `$` at an offset with the text behind it, if there is one and no second `$`.
unfoldable pub reference_issues : ℕ → ℕ → ℕ → Text → List CaptureTemplateIssue
reference_issues groups offset next behind =
    if is_digit next
    then (if next == b'0' || starts_digit behind
        then issue invalid_syntax offset (some (next - b'0')) groups ∷ []
        else if ltb groups (next - b'0')
        then issue out_of_range offset (some (next - b'0')) groups ∷ []
        else [])
    else issue invalid_syntax offset none groups ∷ []

-- The loop of `validateCaptureTemplate` from an offset on.
unfoldable pub validate_from : ℕ → ℕ → Text → List CaptureTemplateIssue
unfolding reference_issues
validate_from groups offset [] = []
validate_from groups offset (char ∷ []) =
    if char == b'$' then issue invalid_syntax offset none groups ∷ [] else []
validate_from groups offset (char ∷ next ∷ rest) =
    let past_pair = validate_from groups (offset + 2) rest in
    let later = validate_from groups (offset + 1) (next ∷ rest) in
    if char == b'$'
    then (if next == b'$' then past_pair else reference_issues groups offset next rest ++ later)
    else later

unfoldable pub validate_capture_template : Text → Text → Option (List CaptureTemplateIssue)
unfolding validate_from count_capturing_groups
validate_capture_template template url_regex =
    Option.map (λ groups. validate_from groups 0 template) (count_capturing_groups url_regex)

unfoldable pub contains_url_capture_reference : Text → Bool
contains_url_capture_reference [] = false
contains_url_capture_reference (char ∷ []) = false
contains_url_capture_reference (char ∷ next ∷ rest) =
    let past_pair = contains_url_capture_reference rest in
    let later = contains_url_capture_reference (next ∷ rest) in
    if char == b'$' && is_reference_digit next
    then true
    else if char == b'$' && next == b'$'
    then past_pair
    else later

-- `captures[n] ?? ""`: an index past the end and an optional group that did not match are empty.
abbrev pub capture_text : List (Option Text) → ℕ → Text
capture_text captures n = elim (get_elem? captures n) [
  | none ↦ []
  | some found ↦ elim found [ none ↦ [] | some text ↦ text ]
]

unfoldable pub substitute_url_captures : Text → List (Option Text) → Text
substitute_url_captures [] captures = []
substitute_url_captures (char ∷ []) captures = char ∷ []
substitute_url_captures (char ∷ next ∷ rest) captures =
    let past_pair = substitute_url_captures rest captures in
    let later = substitute_url_captures (next ∷ rest) captures in
    if char == b'$'
    then (if next == b'$'
        then b'$' ∷ past_pair
        else if is_reference_digit next
        then capture_text captures (next - b'1') ++ past_pair
        else b'$' ∷ later)
    else char ∷ later

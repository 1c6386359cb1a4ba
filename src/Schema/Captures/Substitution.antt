-- ===== src/Schema/Captures/Substitution.antt =====
-- What a substitution reads of the captures: nothing of a template without references, and only
-- groups that the pattern has of a template without issues.
use native.Mathlib.Nat.{add_assoc}
use rogatio.Prelude.{
  ℕ, ◌+◌, ◌-◌, ◌<◌, ◌≤◌, ◌≡◌, refl, false, Option, List, [], ◌∷◌, arith, ◌==◌, get_elem?, some,
  ◌++◌, ◌≢◌, ◌⊎◌, inl, inr, Bool-cases,
}
use rogatio.Prelude.Texts.{Text}
use rogatio.Schema.Captures.{
  CaptureTemplateIssue, reference_issues, validate_from, validate_capture_template,
  contains_url_capture_reference, substitute_url_captures, capture_text, count_capturing_groups,
}

-- A template in which no capture reference is found gives the same text whatever was captured.
pub substitute_url_captures_of_no_reference :
    (template : Text) (captures others : List (Option Text))
    → contains_url_capture_reference template ≡ false
    → substitute_url_captures template captures ≡ substitute_url_captures template others
unfolding contains_url_capture_reference substitute_url_captures
substitute_url_captures_of_no_reference [] captures others h = refl
substitute_url_captures_of_no_reference (char ∷ []) captures others h = refl
substitute_url_captures_of_no_reference (char ∷ next ∷ rest) captures others h = ground (
  arith,
  substitute_url_captures_of_no_reference rest captures others,
  substitute_url_captures_of_no_reference (next ∷ rest) captures others,
)

-- Two lists of captures agree below an index.
abbrev pub AgreeBelow : ℕ → List (Option Text) → List (Option Text) → Type 0
AgreeBelow n captures others = (i : ℕ) → i < n → get_elem? captures i ≡ get_elem? others i

capture_text-eq :
    (n i : ℕ) (captures others : List (Option Text))
    → AgreeBelow n captures others
    → i < n
    → capture_text captures i ≡ capture_text others i
capture_text-eq n i captures others agree h = rw (agree i h, capture_text)

validate_from_plain :
    (groups offset char : ℕ) (rest : Text)
    → char ≢ b'$'
    → validate_from groups offset (char ∷ rest) ≡ validate_from groups (offset + 1) rest
unfolding validate_from
validate_from_plain groups offset char [] h = ground arith
validate_from_plain groups offset char (next ∷ rest) h = ground arith

-- What the absence of issues at a reference says of it.
reference_issues-eq-nil :
    (groups offset next : ℕ) (behind : Text)
    → reference_issues groups offset next behind ≡ []
    → (b'1' ≤ next) × (next ≤ b'9') × (next - b'1' < groups)
unfolding reference_issues
reference_issues-eq-nil groups offset next behind h = ground arith

no_issue_parts : (xs ys : List CaptureTemplateIssue) → xs ++ ys ≡ [] → (xs ≡ []) × (ys ≡ [])
no_issue_parts [] ys h = (refl, h)
no_issue_parts (x ∷ xs) ys h = cc

-- The two ways in which a text without issues goes on.
no_issue-cases :
    (groups offset char next : ℕ) (rest : Text)
    → validate_from groups offset (char ∷ next ∷ rest) ≡ []
    → ((char ≢ b'$') × (validate_from groups (offset + 1) (next ∷ rest) ≡ []))
      ⊎ ((char ≡ b'$') × (next ≡ b'$') × (validate_from groups (offset + 2) rest ≡ []))
      ⊎ ((char ≡ b'$')
          × (b'1' ≤ next)
          × (next ≤ b'9')
          × (next - b'1' < groups)
          × (validate_from groups (offset + 2) rest ≡ []))
unfolding validate_from
no_issue-cases groups offset char next rest h = elim (Bool-cases (char == b'$')) [
  | inr plain ↦ inl (ground arith, ground arith)
  | inl dollar ↦ elim (Bool-cases (next == b'$')) [
    | inl pair ↦ inr (inl (ground arith, ground arith, ground arith))
    | inr single ↦
        let (here, later) =
          no_issue_parts (reference_issues groups offset next rest)
            (validate_from groups (offset + 1) (next ∷ rest)) (ground arith) in
        let (low, high, known) = reference_issues-eq-nil groups offset next rest here in
        let skip = validate_from_plain groups (offset + 1) next rest (omega arith) in
        inr (inr (ground arith, low, high, known, ground (arith, add_assoc offset 1 1)))
  ]
]

substitute_url_captures_of_no_issue :
    (groups offset : ℕ) (template : Text) (captures others : List (Option Text))
    → AgreeBelow groups captures others
    → validate_from groups offset template ≡ []
    → substitute_url_captures template captures ≡ substitute_url_captures template others
unfolding substitute_url_captures
substitute_url_captures_of_no_issue groups offset [] captures others agree h = refl
substitute_url_captures_of_no_issue groups offset (char ∷ []) captures others agree h = refl
substitute_url_captures_of_no_issue groups offset (char ∷ next ∷ rest) captures others agree h =
    ground (
      arith,
      no_issue-cases groups offset char next rest h,
      capture_text-eq groups (next - b'1') captures others agree,
      substitute_url_captures_of_no_issue groups (offset + 2) rest captures others agree,
      substitute_url_captures_of_no_issue groups (offset + 1) (next ∷ rest) captures others agree,
    )

-- What a substitution puts out of a template that validation accepts depends on no capture but as
-- many as are counted in the URL pattern.
pub substitute_url_captures_in_scope :
    (template url_regex : Text) (groups : ℕ) (captures others : List (Option Text))
    → count_capturing_groups url_regex ≡ some groups
    → validate_capture_template template url_regex ≡ some []
    → AgreeBelow groups captures others
    → substitute_url_captures template captures ≡ substitute_url_captures template others
unfolding validate_capture_template
substitute_url_captures_in_scope template url_regex groups captures others counted valid agree =
    substitute_url_captures_of_no_issue groups 0 template captures others agree
      (ground (arith, counted, valid))

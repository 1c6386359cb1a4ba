-- ===== src/Schema/Captures/Groups.antt =====
-- Counting the capturing groups of a URL pattern: the loop ends, and how many it can find.
use rogatio.Prelude.{
  ℕ, zero, suc, ◌+◌, ◌<◌, ◌≤◌, ◌≡◌, Option, none, some, [], ◌∷◌, arith, length, drop, ◌==◌,
  if◌then◌else◌, ◌-◌, inl, inr, Bool-cases, ==_iff,
}
use rogatio.Prelude.Texts.{Text}
use rogatio.Schema.Captures.{
  starts_special, skip_from, skip_balanced_group, count_from, count_capturing_groups,
}

-- How often a code unit stands in a text.
abbrev pub occurrences : ℕ → Text → ℕ
occurrences c [] = 0
occurrences c (char ∷ rest) = (if char == c then 1 else 0) + occurrences c rest

length-skip_from : (source : Text) (depth : ℕ) → length (skip_from source depth) ≤ length source
unfolding skip_from
length-skip_from [] depth = omega arith
length-skip_from (char ∷ []) depth = ground arith
length-skip_from (char ∷ next ∷ rest) depth = ground (
  arith,
  length-skip_from rest depth,
  length-skip_from (next ∷ rest) (depth + 1),
  length-skip_from (next ∷ rest) (depth - 1),
  length-skip_from (next ∷ rest) depth,
)

occurrences-skip_from :
    (source : Text) (depth : ℕ)
    → occurrences b'(' (skip_from source depth) ≤ occurrences b'(' source
unfolding skip_from
occurrences-skip_from [] depth = omega arith
occurrences-skip_from (char ∷ []) depth = ground arith
occurrences-skip_from (char ∷ next ∷ rest) depth = ground (
  arith,
  occurrences-skip_from rest depth,
  occurrences-skip_from (next ∷ rest) (depth + 1),
  occurrences-skip_from (next ∷ rest) (depth - 1),
  occurrences-skip_from (next ∷ rest) depth,
)

-- The skip starts on a parenthesis, which it passes.
skip_balanced_group_shorter :
    (char : ℕ) (rest : Text)
    → char ≡ b'('
    → (length (skip_balanced_group (char ∷ rest)) ≤ length rest)
      × (occurrences b'(' (skip_balanced_group (char ∷ rest)) ≤ occurrences b'(' rest)
unfolding skip_balanced_group
skip_balanced_group_shorter char [] h = ground arith
skip_balanced_group_shorter char (next ∷ rest) h =
    ground
      (arith, length-skip_from (next ∷ rest) (0 + 1), occurrences-skip_from (next ∷ rest) (0 + 1))

-- The loop returned a number, and at most so many.
abbrev pub ReturnsAtMost : ℕ → Option ℕ → Type 0
ReturnsAtMost bound none = ⊥
ReturnsAtMost bound (some n) = n ≤ bound

ReturnsAtMost-mono : (o : Option ℕ) (a b : ℕ) → ReturnsAtMost a o → a ≤ b → ReturnsAtMost b o
ReturnsAtMost-mono none a b h k = h
ReturnsAtMost-mono (some n) a b h k = omega arith

length-drop_one : (rest : Text) → length (drop 1 rest) ≤ length rest
length-drop_one [] = omega arith
length-drop_one (char ∷ rest) = omega arith

occurrences-drop_one : (c : ℕ) (rest : Text) → occurrences c (drop 1 rest) ≤ occurrences c rest
occurrences-drop_one c [] = omega arith
occurrences-drop_one c (char ∷ rest) = omega arith

count_from-ReturnsAtMost :
    (fuel : ℕ) (source : Text) (count : ℕ)
    → length source < fuel
    → ReturnsAtMost (count + occurrences b'(' source) (count_from fuel source count)
unfolding count_from
count_from-ReturnsAtMost fuel [] count h = omega arith
count_from-ReturnsAtMost zero (char ∷ rest) count h = absurd (omega arith)
count_from-ReturnsAtMost (suc fuel) (char ∷ rest) count h =
    let bound = count + occurrences b'(' rest in
    let escaped =
      ReturnsAtMost-mono (count_from fuel (drop 1 rest) count) _ bound
        (count_from-ReturnsAtMost fuel (drop 1 rest) count (omega (arith, length-drop_one rest)))
        (omega (arith, occurrences-drop_one b'(' rest)) in
    let skipped : char ≡ b'('
        → ReturnsAtMost bound (count_from fuel (skip_balanced_group (char ∷ rest)) count) =
      λ is_open.
        let shorter = skip_balanced_group_shorter char rest is_open in
        ReturnsAtMost-mono (count_from fuel (skip_balanced_group (char ∷ rest)) count) _ bound
          (count_from-ReturnsAtMost fuel (skip_balanced_group (char ∷ rest)) count
            (omega (arith, shorter)))
          (omega (arith, shorter)) in
    let counted = count_from-ReturnsAtMost fuel rest (count + 1) (omega arith) in
    let plain = count_from-ReturnsAtMost fuel rest count (omega arith) in
    elim (Bool-cases (char == b'\x5c')) [
      | inl slash ↦ rw slash (ReturnsAtMost-mono _ _ _ escaped (omega arith))
      | inr other ↦ elim (Bool-cases (char == b'(')) [
        | inl open_group ↦ elim (Bool-cases (starts_special rest)) [
          | inl special ↦
              rw (other, open_group, special)
                (ReturnsAtMost-mono _ _ _ (skipped ((==_iff char b'(').0 open_group)) (omega arith))
          | inr numbered ↦
              rw (other, open_group, numbered) (ReturnsAtMost-mono _ _ _ counted (omega arith))
        ]
        | inr another ↦ rw (other, another) (ReturnsAtMost-mono _ _ _ plain (omega arith))
      ]
    ]

-- The loop ends on every pattern, and finds at most as many groups as the pattern has opening
-- parentheses.
pub count_capturing_groups-ReturnsAtMost :
    (url_regex : Text)
    → ReturnsAtMost (occurrences b'(' url_regex) (count_capturing_groups url_regex)
unfolding count_capturing_groups
count_capturing_groups-ReturnsAtMost url_regex =
    ReturnsAtMost-mono (count_from (length url_regex + 1) url_regex 0) _ _
      (count_from-ReturnsAtMost (length url_regex + 1) url_regex 0 (omega arith)) (omega arith)

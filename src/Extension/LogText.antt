-- ===== src/Extension/LogText.antt =====
-- packages/extension/src/match-log-redaction.ts: the texts of a log row, as UTF-16 code units.
use rogatio.Prelude.{
  ℕ, suc, ◌≤◌, ◌&&◌, [], ◌∷◌, ◌++◌, leb, if◌then◌else◌, length, take, inl, inr, Bool-cases,
  length-append, arith,
}
use rogatio.Prelude.Texts.{Text}

abbrev pub log_string_max : ℕ
log_string_max = 200

-- `charCodeAt(cut.length - 1)` of a text that is not empty, and `slice(0, -1)`.
unfoldable pub last_unit : Text → ℕ
last_unit [] = 0
last_unit (c ∷ []) = c
last_unit (c ∷ d ∷ value) = last_unit (d ∷ value)

unfoldable pub without_last : Text → Text
without_last [] = []
without_last (c ∷ []) = []
without_last (c ∷ d ∷ value) = c ∷ without_last (d ∷ value)

-- `slice(0, LOG_STRING_MAX - 3)`
unfoldable pub cut_text : Text → Text
cut_text value = take 197 value

-- Half of a surrogate pair at the end is left out.
unfoldable pub without_half : Text → Text
unfolding last_unit without_last
without_half cut =
    if leb 0xd800 (last_unit cut) && leb (last_unit cut) 0xdbff then without_last cut else cut

unfoldable pub truncate_log_string : Text → Text
unfolding cut_text without_half
truncate_log_string value =
    if leb (length value) log_string_max
    then value
    else without_half (cut_text value) ++ b'.' ∷ b'.' ∷ b'.' ∷ []

length-without_last : (value : Text) → length (without_last value) ≤ length value
unfolding without_last
length-without_last [] = omega arith
length-without_last (c ∷ []) = omega arith
length-without_last (c ∷ d ∷ value) = omega (arith, length-without_last (d ∷ value))

length-take : (n : ℕ) (value : Text) → length (take n value) ≤ n
length-take ℕ.zero value = omega arith
length-take (suc n) [] = omega arith
length-take (suc n) (c ∷ value) = omega (arith, length-take n value)

length-cut_text : (value : Text) → length (cut_text value) ≤ 197
unfolding cut_text
length-cut_text value = length-take 197 value

length-without_half : (cut : Text) → length (without_half cut) ≤ length cut
unfolding without_half
length-without_half cut =
    elim (Bool-cases (leb 0xd800 (last_unit cut) && leb (last_unit cut) 0xdbff)) [
      | inl half ↦ rw half (length-without_last cut)
      | inr whole ↦ rw whole (omega arith)
    ]

-- A truncated text has at most 200 code units.
pub length-truncate_log_string :
    (value : Text) → length (truncate_log_string value) ≤ log_string_max
unfolding truncate_log_string
length-truncate_log_string value = elim (Bool-cases (leb (length value) log_string_max)) [
  | inl short ↦ rw (truncate_log_string, short) (ground arith)
  | inr long ↦
      rw
        (
          truncate_log_string,
          long,
          length-append (without_half (cut_text value)) (b'.' ∷ b'.' ∷ b'.' ∷ []),
        )
        (omega (arith, length-without_half (cut_text value), length-cut_text value))
]

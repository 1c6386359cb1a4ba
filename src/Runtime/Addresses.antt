-- ===== src/Runtime/Addresses.antt =====
-- packages/runtime/src/address-policy.ts: parsing the texts of IPv4 and IPv6 addresses. A text is
-- its code units.
use rogatio.Prelude.{
  ℕ, zero, suc, ◌+◌, ◌-◌, ◌*◌, Bool, false, not, ◌&&◌, ◌||◌, Option, none, some, List, [], ◌∷◌,
  ◌++◌, ◌==◌, leb, if◌then◌else◌, length, all, any, take, drop,
}
use rogatio.Prelude.Texts.{Text}

pub record Ipv4 : Type 0 where
  pub first : ℕ
  pub second : ℕ
  pub third : ℕ
  pub fourth : ℕ

-- `split` at one code unit: the part before the first separator, and the later parts.
unfoldable pub split_at : ℕ → Text → Text × List Text
split_at separator [] = ([], [])
split_at separator (c ∷ t) =
    let (part, parts) = split_at separator t in
    if c == separator then ([], part ∷ parts) else (c ∷ part, parts)

unfoldable pub split : ℕ → Text → List Text
unfolding split_at
split separator text = let (part, parts) = split_at separator text in part ∷ parts

-- `split("::")`: a separator takes both of its code units.
unfoldable pub split_pairs : Text → Text × List Text
split_pairs [] = ([], [])
split_pairs (c ∷ []) = (c ∷ [], [])
split_pairs (c ∷ d ∷ t) =
    let (part, parts) = split_pairs (d ∷ t) in
    let (later, laters) = split_pairs t in
    if c == b':' && d == b':' then ([], later ∷ laters) else (c ∷ part, parts)

abbrev is_decimal_digit : ℕ → Bool
is_decimal_digit c = leb b'0' c && leb c b'9'

-- The pattern `^(?:0|[1-9]\d*)$`.
unfoldable pub is_decimal : Text → Bool
is_decimal [] = false
is_decimal (c ∷ []) = is_decimal_digit c
is_decimal (c ∷ t) = is_decimal_digit c && (not (c == b'0') && all is_decimal_digit t)

unfoldable pub decimal_from : ℕ → Text → ℕ
decimal_from number [] = number
decimal_from number (c ∷ t) = decimal_from (number * 10 + (c - b'0')) t

-- One part of a dotted address; `-1` is `none`.
unfoldable pub parse_octet : Text → Option ℕ
unfolding is_decimal decimal_from
parse_octet part =
    if not (is_decimal part)
    then none
    else if leb (decimal_from 0 part) 255
    then some (decimal_from 0 part)
    else none

unfoldable pub of_octets : Option ℕ → Option ℕ → Option ℕ → Option ℕ → Option Ipv4
of_octets (some a) (some b) (some c) (some d) =
    some (record { first = a; second = b; third = c; fourth = d })
of_octets _ _ _ _ = none

unfoldable pub ipv4_of_parts : List Text → Option Ipv4
unfolding parse_octet of_octets
ipv4_of_parts (a ∷ b ∷ c ∷ d ∷ []) =
    of_octets (parse_octet a) (parse_octet b) (parse_octet c) (parse_octet d)
ipv4_of_parts _ = none

unfoldable pub parse_ipv4 : Text → Option Ipv4
unfolding split ipv4_of_parts
parse_ipv4 value = ipv4_of_parts (split b'.' value)

abbrev is_hex_digit : ℕ → Bool
is_hex_digit c = is_decimal_digit c || ((leb b'a' c && leb c b'f') || (leb b'A' c && leb c b'F'))

-- The digit's value in `Number.parseInt(part, 16)`.
unfoldable pub hex_value : ℕ → ℕ
hex_value c = if leb c b'9' then c - b'0' else if leb c b'F' then c - b'A' + 10 else c - b'a' + 10

unfoldable pub hex_from : ℕ → Text → ℕ
unfolding hex_value
hex_from number [] = number
hex_from number (c ∷ t) = hex_from (number * 16 + hex_value c) t

abbrev words_of_ipv4 : Option Ipv4 → Option (List ℕ)
words_of_ipv4 none = none
words_of_ipv4 (some ip) = some ((ip.first * 256 + ip.second) ∷ (ip.third * 256 + ip.fourth) ∷ [])

-- The words that one part of an IPv6 address pushes.
unfoldable pub part_words : Text → Option (List ℕ)
unfolding parse_ipv4 hex_from
part_words part =
    if any (λ c. c == b'.') part
    then words_of_ipv4 (parse_ipv4 part)
    else if leb 1 (length part) && (leb (length part) 4 && all is_hex_digit part)
    then some (hex_from 0 part ∷ [])
    else none

abbrev append_words : Option (List ℕ) → Option (List ℕ) → Option (List ℕ)
append_words (some words) (some later) = some (words ++ later)
append_words _ _ = none

unfoldable pub parse_words : List Text → Option (List ℕ)
unfolding part_words
parse_words [] = some []
parse_words (part ∷ parts) = append_words (part_words part) (parse_words parts)

-- The parts of one half of the text.
unfoldable pub half_parts : Text → List Text
unfolding split
half_parts [] = []
half_parts (c ∷ t) = split b':' (c ∷ t)

unfoldable pub zeros : ℕ → List ℕ
zeros zero = []
zeros (suc n) = 0 ∷ zeros n

abbrev whole_words : Option (List ℕ) → Option (List ℕ)
whole_words none = none
whole_words (some words) = if length words == 8 then some words else none

abbrev filled_words : ℕ → Option (List ℕ) → Option (List ℕ)
filled_words left none = none
filled_words left (some words) =
    if leb 8 (length words)
    then none
    else some (take left words ++ zeros (8 - length words) ++ drop left words)

unfoldable pub words_of_halves : Text × List Text → Option (List ℕ)
unfolding parse_words half_parts zeros
words_of_halves (left, []) = whole_words (parse_words (half_parts left))
words_of_halves (left, right ∷ []) =
    filled_words (length (half_parts left)) (parse_words (half_parts left ++ half_parts right))
words_of_halves (left, right ∷ more ∷ halves) = none

unfoldable pub parse_ipv6 : Text → Option (List ℕ)
unfolding split_pairs words_of_halves
parse_ipv6 value = if any (λ c. c == b'%') value then none else words_of_halves (split_pairs value)

-- ===== src/Runtime/Url.antt =====
-- packages/runtime/src/url.ts: the canonical form of an outbound target. `new URL` (`none` where it
-- throws) and `isIP` are parameters.
use rogatio.Prelude.{
  ℕ, ◌-◌, Bool, true, false, not, ◌&&◌, ◌||◌, Option, none, some, List, [], ◌∷◌, String, ◌==◌, leb,
  ltb, if◌then◌else◌, length, any, all, take, drop,
}
use rogatio.Prelude.Texts.{Text, utf16, codes}
use rogatio.Schema.Path.{includes_unit, has_control_unit, push_unit}
use rogatio.Runtime.Capability.{text_eq}

pub record ParsedUrl : Type 0 where
  pub protocol : Text
  pub username : Text
  pub password : Text
  pub hash : Text
  pub hostname : Text
  pub port : Text
  pub href : String

abbrev is_percent_digit : ℕ → Bool
is_percent_digit c =
    (leb b'0' c && leb c b'9') || ((leb b'a' c && leb c b'f') || (leb b'A' c && leb c b'F'))

unfoldable pub has_valid_percent_encoding : Text → Bool
has_valid_percent_encoding [] = true
has_valid_percent_encoding (c ∷ []) = not (c == b'%')
has_valid_percent_encoding (c ∷ a ∷ []) =
    let next = has_valid_percent_encoding (a ∷ []) in if c == b'%' then false else next
has_valid_percent_encoding (c ∷ a ∷ b ∷ rest) =
    let skipped = has_valid_percent_encoding rest in
    let next = has_valid_percent_encoding (a ∷ b ∷ rest) in
    if c == b'%' then is_percent_digit a && (is_percent_digit b && skipped) else next

-- `/%(?:2f|2F|5c|5C)/`
unfoldable pub has_encoded_slash : Text → Bool
has_encoded_slash (c ∷ a ∷ b ∷ rest) =
    (c == b'%'
      && ((a == b'2' && (b == b'f' || b == b'F')) || (a == b'5' && (b == b'c' || b == b'C'))))
    || has_encoded_slash (a ∷ b ∷ rest)
has_encoded_slash _ = false

-- The white space and line ends that `trim` removes.
abbrev is_space : ℕ → Bool
is_space c =
    (leb 9 c && leb c 13)
    || (c == 32
        || (c == 0xa0
            || (c == 0x1680
                || ((leb 0x2000 c && leb c 0x200a)
                    || (c == 0x2028
                        || (c == 0x2029
                            || (c == 0x202f || (c == 0x205f || (c == 0x3000 || c == 0xfeff)))))))))

abbrev starts_with_space : Text → Bool
starts_with_space [] = false
starts_with_space (c ∷ value) = is_space c

unfoldable pub ends_with : (ℕ → Bool) → Text → Bool
ends_with p [] = false
ends_with p (c ∷ []) = p c
ends_with p (c ∷ d ∷ value) = ends_with p (d ∷ value)

-- What follows the first "://".
unfoldable pub after_scheme : Text → Option Text
after_scheme (c ∷ d ∷ e ∷ rest) =
    let later = after_scheme (d ∷ e ∷ rest) in
    if c == b':' && (d == b'/' && e == b'/') then some rest else later
after_scheme _ = none

unfoldable pub until_marker : Text → Text
until_marker [] = []
until_marker (c ∷ rest) =
    let later = until_marker rest in if c == b'/' || (c == b'?' || c == b'#') then [] else c ∷ later

unfoldable pub raw_authority : Text → Option Text
unfolding after_scheme until_marker
raw_authority value = elim (after_scheme value) [
  | none ↦ none
  | some rest ↦ some (until_marker rest)
]

abbrev has_non_ascii : Text → Bool
has_non_ascii value = any (λ c. ltb 0x7f c) value

abbrev is_id_end : ℕ → Bool
is_id_end c = (leb b'a' c && leb c b'z') || (leb b'0' c && leb c b'9')

abbrev starts_with_id_end : Text → Bool
starts_with_id_end [] = false
starts_with_id_end (c ∷ label) = is_id_end c

-- `/^[a-z0-9](?:[a-z0-9-]{0,61}[a-z0-9])?$/`
unfoldable pub is_label : Text → Bool
unfolding ends_with
is_label label =
    starts_with_id_end label
    && (ends_with is_id_end label
        && (all (λ c. is_id_end c || c == b'-') label && leb (length label) 63))

-- `split(".")`
unfoldable pub split_dots : Text → List Text
split_dots [] = [] ∷ []
split_dots (c ∷ value) =
    let labels = split_dots value in if c == b'.' then [] ∷ labels else push_unit c labels

abbrev starts_with_bracket : Text → Bool
starts_with_bracket [] = false
starts_with_bracket (c ∷ hostname) = c == b'['

unfoldable pub unbracketed : Text → Text
unfolding ends_with
unbracketed hostname =
    if starts_with_bracket hostname && ends_with (λ c. c == b']') hostname
    then take (length hostname - 2) (drop 1 hostname)
    else hostname

module _ (is_ip : Text → ℕ) where
  unfoldable pub valid_hostname : Text → Bool
  unfolding unbracketed ends_with is_label split_dots
  valid_hostname hostname =
      if includes_unit b'%' (unbracketed hostname)
        || ends_with (λ c. c == b'.') (unbracketed hostname)
      then false
      else if not (is_ip (unbracketed hostname) == 0)
      then true
      else if length (unbracketed hostname) == 0 || ltb 253 (length (unbracketed hostname))
      then false
      else all is_label (split_dots (unbracketed hostname))

  -- The guards on the text.
  unfoldable pub is_plain_target : Text → Bool
  unfolding has_valid_percent_encoding has_encoded_slash ends_with
  is_plain_target value =
      not (length value == 0)
      && (not (starts_with_space value || ends_with is_space value)
          && (not (has_control_unit value)
              && (not (includes_unit b'\x5c' value || includes_unit b'#' value)
                  && (has_valid_percent_encoding value && not (has_encoded_slash value)))))

  unfoldable pub is_plain_authority : Option Text → Bool
  is_plain_authority none = false
  is_plain_authority (some authority) =
      not (length authority == 0)
      && not (
          includes_unit b'@' authority || (includes_unit b'*' authority || has_non_ascii authority))

  -- The port of the protocol, given by its default or written out.
  unfoldable pub has_standard_port : ParsedUrl → Bool
  unfolding text_eq
  has_standard_port url =
      (text_eq url.protocol (codes "http:")
        && (length url.port == 0 || text_eq url.port (codes "80")))
      || (text_eq url.protocol (codes "https:")
          && (length url.port == 0 || text_eq url.port (codes "443")))

  unfoldable pub is_plain_url : ParsedUrl → Bool
  unfolding valid_hostname has_standard_port
  is_plain_url url =
      length url.username == 0
      && (length url.password == 0
          && (length url.hash == 0
              && (not (length url.hostname == 0)
                  && (valid_hostname url.hostname && has_standard_port url))))

  unfoldable pub canonicalize_outbound_target : (String → Option ParsedUrl) → String → Option String
  unfolding is_plain_target is_plain_authority raw_authority is_plain_url
  canonicalize_outbound_target parse_url value =
      if not (is_plain_target (utf16 value) && is_plain_authority (raw_authority (utf16 value)))
      then none
      else elim (parse_url value) [
        | none ↦ none
        | some url ↦
            if is_plain_url url
              && not (includes_unit b'#' (utf16 url.href) || includes_unit b'@' (utf16 url.href))
            then some url.href
            else none
      ]

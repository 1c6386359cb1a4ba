-- ===== src/Runtime/Authorization.antt =====
-- packages/runtime/src/authorization.ts: an operation is authorized by an exact grant of the preset.
-- The descriptor is the value that its deep copy gives. The canonical form of an outbound target
-- and the comparison of origins are those of `Runtime.Url` and of the compiler.
pub mod Exact
pub mod Granted
pub mod Matching
use rogatio.Prelude.{
  ℕ, zero, suc, ◌+◌, Bool, true, false, not, ◌&&◌, ◌||◌, Option, none, some, List, [], ◌∷◌, String,
  str_eq, ◌==◌, leb, if◌then◌else◌, length, all, any,
}
use rogatio.Prelude.Json.{Json, object, Fields, end, field, own}
use rogatio.Prelude.Texts.{Text, utf16}
use rogatio.Schema.Types.{HttpMethod, method_rank}
use rogatio.Schema.Path.{normalize_logical_path}
use rogatio.Compiler.Matcher.{Platform, same_origin}
use rogatio.Runtime.Envelope.{string_of}
use rogatio.Runtime.Results.{RuntimeResult, ok, failed, authorization_denied}

-- packages/runtime/src/types.ts
pub data RuntimeOperationKind : Type 0 where
  outbound_http confined_file : RuntimeOperationKind

pub record RuntimeGrant : Type 0 where
  pub group_id : String
  pub rule_id : String
  pub operation_id : String
  pub kind : RuntimeOperationKind
  pub target : String
  pub method : HttpMethod

-- Of a matcher of the preset: its rule, and the value of its source.
pub record PresetMatcher : Type 0 where
  pub group_id : String
  pub rule_id : String
  pub source_value : String

pub record NormalizedRuntimePreset : Type 0 where
  pub matchers : List PresetMatcher
  pub grants : List RuntimeGrant
  pub digest : String

pub record AuthorizedOperation : Type 0 where
  pub group_id : String
  pub rule_id : String
  pub operation_id : String
  pub kind : RuntimeOperationKind
  pub target : String
  pub method : HttpMethod
  pub source_value : String
  pub preset_digest : String

abbrev is_id_start : ℕ → Bool
is_id_start c =
    (leb b'A' c && leb c b'Z') || ((leb b'a' c && leb c b'z') || (leb b'0' c && leb c b'9'))

-- `/^[A-Za-z0-9][A-Za-z0-9._-]{0,63}$/`
unfoldable pub valid_id : Text → Bool
valid_id [] = false
valid_id (c ∷ rest) =
    is_id_start c
    && (all (λ d. is_id_start d || (d == b'.' || (d == b'_' || d == b'-'))) rest
        && leb (length rest) 63)

unfoldable pub id_of : Option Json → Option String
unfolding valid_id
id_of value = elim (string_of value) [
  | none ↦ none
  | some text ↦ if valid_id (utf16 text) then some text else none
]

unfoldable pub kind_of : Option Json → Option RuntimeOperationKind
kind_of value = elim (string_of value) [
  | none ↦ none
  | some text ↦
      if str_eq text "outbound-http"
      then some outbound_http
      else if str_eq text "confined-file"
      then some confined_file
      else none
]

abbrev method_named : String → Option HttpMethod
method_named text =
    if str_eq text "GET"
    then some HttpMethod.get
    else if str_eq text "POST"
    then some HttpMethod.post
    else if str_eq text "PUT"
    then some HttpMethod.put
    else if str_eq text "PATCH"
    then some HttpMethod.patch
    else if str_eq text "DELETE"
    then some HttpMethod.delete
    else if str_eq text "HEAD"
    then some HttpMethod.head
    else if str_eq text "OPTIONS"
    then some HttpMethod.options
    else if str_eq text "CONNECT"
    then some HttpMethod.connect
    else if str_eq text "TRACE"
    then some HttpMethod.trace
    else none

unfoldable pub method_of : Option Json → Option HttpMethod
method_of value = elim (string_of value) [ none ↦ none | some text ↦ method_named text ]

-- `Object.keys(record).length`
unfoldable pub count_fields : Fields → ℕ
count_fields end = 0
count_fields (field key value fields) = suc (count_fields fields)

abbrev grant_with :
    Option String
    → Option String
    → Option String
    → Option RuntimeOperationKind
    → Option String
    → Option HttpMethod
    → Option RuntimeGrant
grant_with (some group) (some rule) (some operation) (some kind) (some target) (some method) =
    some record {
      group_id = group;
      rule_id = rule;
      operation_id = operation;
      kind = kind;
      target = target;
      method = method;
    }
grant_with _ _ _ _ _ _ = none

-- With six keys, of which six are there, there are no others.
unfoldable pub exact_descriptor : Json → Option RuntimeGrant
unfolding id_of kind_of method_of count_fields own
exact_descriptor (object fields) =
    if not (count_fields fields == 6)
    then none
    else grant_with (id_of (own "groupId" fields)) (id_of (own "ruleId" fields))
        (id_of (own "operationId" fields)) (kind_of (own "kind" fields))
        (string_of (own "target" fields)) (method_of (own "method" fields))
exact_descriptor _ = none

abbrev pub same_kind : RuntimeOperationKind → RuntimeOperationKind → Bool
same_kind outbound_http outbound_http = true
same_kind confined_file confined_file = true
same_kind _ _ = false

unfoldable pub matches_grant : RuntimeGrant → RuntimeGrant → Bool
matches_grant descriptor grant =
    str_eq descriptor.group_id grant.group_id
    && (str_eq descriptor.rule_id grant.rule_id
        && (str_eq descriptor.operation_id grant.operation_id
            && (same_kind descriptor.kind grant.kind
                && (str_eq descriptor.target grant.target
                    && method_rank descriptor.method == method_rank grant.method))))

abbrev pub is_matcher_of : RuntimeGrant → PresetMatcher → Bool
is_matcher_of grant candidate =
    str_eq candidate.group_id grant.group_id && str_eq candidate.rule_id grant.rule_id

-- `preset.matchers.find`
unfoldable pub find_matcher : RuntimeGrant → List PresetMatcher → Option PresetMatcher
find_matcher grant [] = none
find_matcher grant (candidate ∷ matchers) =
    let later = find_matcher grant matchers in
    if is_matcher_of grant candidate then some candidate else later

-- The first grant that the descriptor matches.
unfoldable pub find_grant : RuntimeGrant → List RuntimeGrant → Option RuntimeGrant
unfolding matches_grant
find_grant descriptor [] = none
find_grant descriptor (grant ∷ grants) =
    let later = find_grant descriptor grants in
    if matches_grant descriptor grant then some grant else later

module _ (canonicalize_outbound : String → Option String) (platform : Platform) where
  -- A logical path is answered as it is given.
  unfoldable pub canonical_target : RuntimeOperationKind → String → Option String
  unfolding normalize_logical_path
  canonical_target outbound_http target = canonicalize_outbound target
  canonical_target confined_file target = elim (normalize_logical_path (utf16 target)) [
    | none ↦ none
    | some path ↦ some target
  ]

  abbrev pub authorized_by : RuntimeGrant → PresetMatcher → String → AuthorizedOperation
  authorized_by grant found digest = record {
    group_id = grant.group_id;
    rule_id = grant.rule_id;
    operation_id = grant.operation_id;
    kind = grant.kind;
    target = grant.target;
    method = grant.method;
    source_value = found.source_value;
    preset_digest = digest;
  }

  abbrev pub of_matcher :
      RuntimeGrant → Option PresetMatcher → String → String → RuntimeResult AuthorizedOperation
  of_matcher grant none digest request_url = failed authorization_denied
  of_matcher grant (some found) digest request_url =
      if same_kind grant.kind outbound_http && not (same_origin platform grant.target request_url)
      then failed authorization_denied
      else ok (authorized_by grant found digest)

  abbrev pub of_grant :
      NormalizedRuntimePreset → Option RuntimeGrant → String → RuntimeResult AuthorizedOperation
  of_grant preset none request_url = failed authorization_denied
  of_grant preset (some grant) request_url =
      of_matcher grant (find_matcher grant preset.matchers) preset.digest request_url

  abbrev pub of_target :
      NormalizedRuntimePreset
      → RuntimeGrant
      → Option String
      → String
      → RuntimeResult AuthorizedOperation
  of_target preset descriptor none request_url = failed authorization_denied
  of_target preset descriptor (some target) request_url =
      of_grant preset (find_grant (record descriptor { target = target }) preset.grants) request_url

  abbrev pub of_descriptor :
      NormalizedRuntimePreset → Option RuntimeGrant → String → RuntimeResult AuthorizedOperation
  of_descriptor preset none request_url = failed authorization_denied
  of_descriptor preset (some descriptor) request_url =
      if length (utf16 request_url) == 0
      then failed authorization_denied
      else of_target preset descriptor (canonical_target descriptor.kind descriptor.target)
          request_url

  unfoldable pub authorize_exact :
      NormalizedRuntimePreset → Json → String → RuntimeResult AuthorizedOperation
  unfolding exact_descriptor canonical_target find_grant find_matcher same_origin
  authorize_exact preset value request_url =
      of_descriptor preset (exact_descriptor value) request_url

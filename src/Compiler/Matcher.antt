-- ===== src/Compiler/Matcher.antt =====
-- packages/compiler/src/selector.ts and the matching part of source-match.ts: which enabled
-- operation wins a request. URLs and regular expressions are the platform's: a record of what the
-- code reads of them.
pub mod Winner
use mathlib.Core.Option
use rogatio.Prelude.{
  ℕ, suc, ◌+◌, Bool, true, false, ◌&&◌, Option, none, some, List, [], ◌∷◌, String, ◌==◌, ltb, leb,
  if◌then◌else◌, str_eq, any, filter,
}
use rogatio.Prelude.Sorting.{sort}
use rogatio.Prelude.Texts.{includes, utf16_length}
use rogatio.Schema.Types.{
  SourceCondition, SourceKey, ResourceType, type_name, HttpMethod, method_name,
  max_url_regex_length,
}
use rogatio.Compiler.Types.{NormalizedMatcher, OperationKind, RogatioOperation}

-- `new URL` and `new RegExp`: `none` where they throw.
pub record Platform : Type 0 where
  pub url_origin : String → Option String
  pub url_hostname : String → Option String
  pub regexp_test : String → Option (String → Bool)

pub data Phase : Type 0 where
  request response : Phase

pub record RuleMatchContext : Type 0 where
  pub url : String
  pub target : String
  pub method : String
  pub initiator : String
  pub resource_type : String
  pub phase : Phase

pub data WinnerResult : Type 0 where
  winner : RogatioOperation → ℕ → WinnerResult
  no_winner : WinnerResult

-- `Number.MAX_SAFE_INTEGER`
abbrev pub max_safe_integer : ℕ
max_safe_integer = 9007199254740991

module _ (platform : Platform) where
  -- packages/schema/src/regex.ts
  unfoldable pub compile_url_regex : String → Option (String → Bool)
  compile_url_regex value =
      if utf16_length value == 0
      then none
      else if ltb max_url_regex_length (utf16_length value)
      then none
      else platform.regexp_test value

  unfoldable pub source_match_text : SourceCondition → String → Option String
  source_match_text source url = elim source.key [
    | SourceKey.url ↦ some url
    | SourceKey.host ↦ platform.url_hostname url
  ]

  unfoldable pub source_matches : SourceCondition → String → Bool
  unfolding compile_url_regex source_match_text
  source_matches source url = elim (compile_url_regex source.value) [
    | none ↦ false
    | some test ↦ elim (source_match_text source url) [ none ↦ false | some text ↦ test text ]
  ]

  unfoldable pub same_origin : String → String → Bool
  same_origin a b = elim (platform.url_origin a) [
    | none ↦ false
    | some origin ↦ elim (platform.url_origin b) [
      | none ↦ false
      | some another ↦ str_eq origin another
    ]
  ]

unfoldable pub resource_type_matches : List ResourceType → String → Bool
resource_type_matches types type = any (λ t. str_eq (type_name t) type) types

unfoldable pub method_matches : Option HttpMethod → String → Bool
method_matches none request_method = true
method_matches (some method) request_method = str_eq (method_name method) request_method

-- In the request phase every kind takes part, in the response phase response bodies only.
unfoldable pub phase_matches : Phase → OperationKind → Bool
phase_matches Phase.request kind = true
phase_matches Phase.response (OperationKind.response_body action) = true
phase_matches Phase.response _ = false

-- The guards in the code's order.
unfoldable pub is_candidate : Platform → List String → RuleMatchContext → RogatioOperation → Bool
is_candidate platform enabled context op =
    includes enabled op.group_id
    && (source_matches platform op.matcher.source context.url
        && (same_origin platform context.url context.target
            && (method_matches op.matcher.method context.method
                && (resource_type_matches op.matcher.resource_types context.resource_type
                    && phase_matches context.phase op.kind))))

abbrev pub same_rule : RogatioOperation → RogatioOperation → Bool
same_rule a b = str_eq a.group_id b.group_id && str_eq a.rule_id b.rule_id

unfoldable pub find_index : RogatioOperation → List RogatioOperation → Option ℕ
find_index op [] = none
find_index op (o ∷ operations) =
    let rest = Option.map suc (find_index op operations) in if same_rule o op then some 0 else rest

unfoldable pub get_source_order : RogatioOperation → List RogatioOperation → ℕ
unfolding find_index
get_source_order op operations = elim (find_index op operations) [
  | none ↦ max_safe_integer
  | some index ↦ index
]

-- The comparator's verdict that the first comes no later: the higher priority, then the lower
-- source order.
unfoldable pub comes_first : List RogatioOperation → RogatioOperation → RogatioOperation → Bool
comes_first operations a b =
    if a.matcher.priority == b.matcher.priority
    then leb (get_source_order a operations) (get_source_order b operations)
    else ltb b.matcher.priority a.matcher.priority

abbrev pick : List RogatioOperation → List RogatioOperation → WinnerResult
pick operations [] = no_winner
pick operations (op ∷ rest) = winner op (get_source_order op operations)

unfoldable pub select_winning_operation :
    Platform → List RogatioOperation → List String → RuleMatchContext → WinnerResult
unfolding is_candidate sort comes_first
select_winning_operation platform operations enabled context =
    pick operations
      (sort (comes_first operations) (filter (is_candidate platform enabled context) operations))

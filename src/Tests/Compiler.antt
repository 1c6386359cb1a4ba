-- ===== src/Tests/Compiler.antt =====
-- Compiling, matching and query rules at concrete rules and requests.
use rogatio.Prelude.{ℕ, ◌≡◌, refl, true, false, none, some, List, [], ◌∷◌, String, All, map, arith}
use rogatio.Prelude.Dict.{get, put}
use rogatio.Prelude.Sorting.{insert, sort}
use rogatio.Prelude.Texts.{utf16, utf16_length}
use rogatio.Schema.Types.{
  url, ResourceType, RogatioQueryAction, RogatioRule, RogatioGroup, RogatioProject, script, image,
  set, remove, type_rank,
}
use rogatio.Compiler.Types.{RogatioOperation, matcher}
use rogatio.Compiler.Compile.{canonical_resource_types, compile_operations}
use rogatio.Compiler.Compile.Canonical.{count, canonical_resource_types_of_count}
use rogatio.Compiler.Compile.Order.{
  HasPayload, of_operation, of_groups, of_operation-compile_operations,
}
use rogatio.Compiler.Matcher.{
  Platform, RuleMatchContext, Phase, winner, is_candidate, source_matches, compile_url_regex,
  source_match_text, same_origin, method_matches, resource_type_matches, phase_matches,
  get_source_order, find_index, comes_first, select_winning_operation,
}
use rogatio.Compiler.Matcher.Winner.{IsRight, select_winning_operation-IsRight}
use rogatio.Compiler.Query.{
  resolve_query_param_operation, removed_params, added_params, set_by_name, append_new,
  rewrite_params, query_action_to_dnr, apply_query_transform,
}
use rogatio.Compiler.Query.Values.{values, expected_values, values-apply_query_transform}

abbrev rule : String → ℕ → RogatioRule
rule id priority = record {
  id = id;
  name = "Rule";
  source = record { key = url; value = "shop" };
  resource_types = script ∷ image ∷ [];
  priority = priority;
  method = none;
  type = none;
  redirect = none;
  action = none;
  header_direction = none;
  header_operation = none;
  header_name = none;
  header_value = none;
  response_body = none;
  request_body = none;
  mock = none;
  redact_sensitive_in_logs = some true;
}

abbrev project : RogatioProject
project = record {
  name = "Shop";
  description = none;
  groups = record { id = "g"; name = "Group"; rules = rule "r" 1 ∷ rule "s" 2 ∷ [] } ∷ [];
  local_origins = none;
}

has_payload : All (λ (group : RogatioGroup). All HasPayload group.rules) project.groups
has_payload = ((λ h e. ground (arith, h), (λ h e. ground (arith, h), tt)), tt)

of_operation-compile_operations_example :
    (compiled : List RogatioOperation) × (compile_operations project ≡ some compiled)
    × (map of_operation compiled ≡ of_groups project.groups)
of_operation-compile_operations_example = of_operation-compile_operations project has_payload

same_count : (t : ResourceType) → count t (script ∷ image ∷ []) ≡ count t (image ∷ script ∷ [])
same_count t = ground arith

canonical_resource_types_of_count_example :
    (canonical_resource_types (script ∷ image ∷ [])
      ≡ canonical_resource_types (image ∷ script ∷ []))
    × ((t : ResourceType)
        → count t (canonical_resource_types (script ∷ image ∷ [])) ≡ count t (script ∷ image ∷ []))
canonical_resource_types_of_count_example =
    canonical_resource_types_of_count (script ∷ image ∷ []) (image ∷ script ∷ []) same_count

-- Every URL has the same origin and host, and every pattern matches.
abbrev anywhere : Platform
anywhere = record {
  url_origin = λ u. some "https://shop.example";
  url_hostname = λ u. some "shop.example";
  regexp_test = λ pattern. some (λ u. true);
}

abbrev operation : String → ℕ → RogatioOperation
operation id priority = record {
  group_id = "g";
  rule_id = id;
  name = "Rule";
  redact_sensitive_in_logs = false;
  matcher = record {
    source = record { key = url; value = "shop" };
    resource_types = script ∷ [];
    priority = priority;
    method = none;
  };
  kind = matcher;
}

abbrev request : RuleMatchContext
request = record {
  url = "https://shop.example/a.js";
  target = "https://shop.example";
  method = "GET";
  initiator = "https://shop.example";
  resource_type = "script";
  phase = Phase.request;
}

abbrev operations : List RogatioOperation
operations = operation "r" 1 ∷ operation "s" 2 ∷ operation "t" 2 ∷ []

select_example :
    select_winning_operation anywhere operations ("g" ∷ []) request ≡ winner (operation "s" 2) 1
unfolding select_winning_operation is_candidate source_matches compile_url_regex source_match_text
    utf16_length utf16 same_origin method_matches resource_type_matches phase_matches
    get_source_order find_index comes_first sort insert type_rank
select_example = refl

select_winning_operation-IsRight_example :
    IsRight anywhere operations
      ("g" ∷ [])
      request
      (select_winning_operation anywhere operations ("g" ∷ []) request)
select_winning_operation-IsRight_example =
    select_winning_operation-IsRight anywhere operations ("g" ∷ []) request

abbrev action : RogatioQueryAction
action = record {
  params =
      record { name = "a"; operation = some set; value = some "new" }
      ∷ record { name = "b"; operation = some remove; value = none }
      ∷ record { name = "d"; operation = none; value = some "more" }
      ∷ [];
}

abbrev pairs : List (String × String)
pairs = ("a", "1") ∷ ("b", "2") ∷ ("a", "3") ∷ ("c", "4") ∷ []

apply_example :
    apply_query_transform action pairs ≡ (("a", "new") ∷ ("c", "4") ∷ ("d", "more") ∷ [])
unfolding apply_query_transform rewrite_params set_by_name query_action_to_dnr added_params
    removed_params resolve_query_param_operation append_new get put
apply_example = refl

values-apply_query_transform_example :
    values "a" (apply_query_transform action pairs) ≡ expected_values action "a" (values "a" pairs)
values-apply_query_transform_example = values-apply_query_transform action "a" pairs

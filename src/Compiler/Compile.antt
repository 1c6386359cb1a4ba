-- ===== src/Compiler/Compile.antt =====
-- packages/compiler/src/compile.ts: `compileOperations` and its helpers, on a validated project.
-- The property snapshot and the schema validation before it are not part of this module.
pub mod Canonical
pub mod Order
use mathlib.Core.Option
use rogatio.Prelude.{
  ℕ, Bool, true, false, Option, none, some, List, [], ◌∷◌, ◌++◌, String, ◌==◌, if◌then◌else◌,
}
use rogatio.Schema.Types.{
  ResourceType, same_type, resource_types, RuleType, RogatioRule, RogatioGroup, RogatioProject,
  RogatioRuleAction, query_action, redirect_action, RequestBodyAction, ResponseBodyAction,
  HeaderDirection, HeaderOperationKind,
}
use rogatio.Compiler.Types.{NormalizedMatcher, HeaderPart, OperationKind, RogatioOperation}

-- The inner loop of `canonicalResourceTypes`: a copy for each place where the type stands.
unfoldable pub copies : ResourceType → List ResourceType → List ResourceType
copies canonical [] = []
copies canonical (type ∷ types) =
    let rest = copies canonical types in if same_type type canonical then canonical ∷ rest else rest

unfoldable pub canonical_from : List ResourceType → List ResourceType → List ResourceType
unfolding copies
canonical_from [] types = []
canonical_from (canonical ∷ more) types = copies canonical types ++ canonical_from more types

unfoldable pub canonical_resource_types : List ResourceType → List ResourceType
unfolding canonical_from
canonical_resource_types types = canonical_from resource_types types

unfoldable pub compile_matcher : RogatioRule → NormalizedMatcher
compile_matcher rule = record {
  source = rule.source;
  resource_types = canonical_resource_types rule.resource_types;
  priority = rule.priority;
  method = rule.method;
}

abbrev or_else {ℓ} : {A : Type ℓ} → Option A → A → A
or_else none d = d
or_else (some a) d = a

unfoldable pub resolve_redact_sensitive_in_logs : RogatioRule → Bool
resolve_redact_sensitive_in_logs rule = or_else rule.redact_sensitive_in_logs false

abbrev query_kind : Option RogatioRuleAction → OperationKind
query_kind none = OperationKind.matcher
query_kind (some (query_action action)) = OperationKind.query action
query_kind (some (redirect_action destination)) = OperationKind.matcher

-- The ladder over `rule.type`; `none` where the code throws.
unfoldable pub operation_kind : Option RuleType → RogatioRule → Option OperationKind
operation_kind none rule = some OperationKind.matcher
operation_kind (some RuleType.redirect) rule =
    some (OperationKind.redirect (or_else rule.redirect ""))
operation_kind (some RuleType.query) rule = some (query_kind rule.action)
operation_kind (some RuleType.header) rule = some (
    OperationKind.header (record {
      direction = or_else rule.header_direction HeaderDirection.request;
      operation = or_else rule.header_operation HeaderOperationKind.set;
      name = or_else rule.header_name "";
      value = rule.header_value;
    }))
operation_kind (some RuleType.response_body) rule =
    some (OperationKind.response_body (or_else rule.response_body (ResponseBodyAction.untagged [])))
operation_kind (some RuleType.request_body) rule =
    some (OperationKind.request_body (or_else rule.request_body (RequestBodyAction.replace "")))
operation_kind (some RuleType.mock) rule = Option.map OperationKind.mock rule.mock

unfoldable pub compile_rule : String → RogatioRule → Option RogatioOperation
unfolding operation_kind compile_matcher resolve_redact_sensitive_in_logs
compile_rule group_id rule =
    Option.map
      (λ kind. record {
        group_id = group_id;
        rule_id = rule.id;
        name = rule.name;
        redact_sensitive_in_logs = resolve_redact_sensitive_in_logs rule;
        matcher = compile_matcher rule;
        kind = kind;
      })
      (operation_kind rule.type rule)

infixl 5 ◌>>=◌
abbrev pub ◌>>=◌ {ℓ κ} : {A : Type ℓ} {B : Type κ} → Option A → (A → Option B) → Option B
none >>= k = none
some a >>= k = k a

-- The two loops, over an accumulator that is pushed to; `none` where the code throws.
unfoldable pub compile_rules :
    List RogatioOperation → String → List RogatioRule → Option (List RogatioOperation)
unfolding compile_rule
compile_rules operations group_id [] = some operations
compile_rules operations group_id (rule ∷ rules) = do
  operation ← compile_rule group_id rule
  compile_rules (operations ++ operation ∷ []) group_id rules

unfoldable pub compile_groups :
    List RogatioOperation → List RogatioGroup → Option (List RogatioOperation)
unfolding compile_rules
compile_groups operations [] = some operations
compile_groups operations (group ∷ groups) = do
  pushed ← compile_rules operations group.id group.rules
  compile_groups pushed groups

unfoldable pub compile_operations : RogatioProject → Option (List RogatioOperation)
unfolding compile_groups
compile_operations project = compile_groups [] project.groups

-- ===== src/Compiler/Compile/Order.antt =====
-- The operations of a project stand in the order of its groups and rules, one for each rule.
use mathlib.Core.Option
use rogatio.Prelude.{
  ◌≢◌, none, inl, inr, Option-cases, All, ◌≡◌, refl, ap, ◌∙◌, Option, some, List, [], ◌∷◌, ◌++◌,
  String, arith, map, Bool,
}
use mathlib.Core.List.{append-nil, append_assoc, map-append}
use rogatio.Schema.Types.{
  RuleType, RogatioRule, RogatioGroup, RogatioProject, SourceCondition, HttpMethod, ResourceType,
}
use rogatio.Compiler.Types.{RogatioOperation}
use rogatio.Compiler.Compile.{
  ◌>>=◌, operation_kind, canonical_resource_types, compile_rule, compile_rules, compile_groups,
  compile_operations, resolve_redact_sensitive_in_logs,
}
use rogatio.Prelude.{ℕ}

-- What an operation takes over from its rule.
pub record Header : Type 0 where
  pub group_id : String
  pub rule_id : String
  pub name : String
  pub redact : Bool
  pub source : SourceCondition
  pub types : List ResourceType
  pub priority : ℕ
  pub method : Option HttpMethod

abbrev pub of_operation : RogatioOperation → Header
of_operation operation = record {
  group_id = operation.group_id;
  rule_id = operation.rule_id;
  name = operation.name;
  redact = operation.redact_sensitive_in_logs;
  source = operation.matcher.source;
  types = operation.matcher.resource_types;
  priority = operation.matcher.priority;
  method = operation.matcher.method;
}

abbrev pub of_rule : String → RogatioRule → Header
of_rule group_id rule = record {
  group_id = group_id;
  rule_id = rule.id;
  name = rule.name;
  redact = resolve_redact_sensitive_in_logs rule;
  source = rule.source;
  types = canonical_resource_types rule.resource_types;
  priority = rule.priority;
  method = rule.method;
}

abbrev pub of_groups : List RogatioGroup → List Header
of_groups [] = []
of_groups (group ∷ groups) = map (of_rule group.id) group.rules ++ of_groups groups

of_operation-compile_rule :
    (group_id : String) (rule : RogatioRule) (operation : RogatioOperation)
    → compile_rule group_id rule ≡ some operation
    → of_operation operation ≡ of_rule group_id rule
unfolding compile_rule
of_operation-compile_rule group_id rule operation h =
    let (kind, found, same) = (Option.map-eq-some_iff _ _).0 h in rw (← same)

>>=-eq-some {ℓ κ} :
    {A : Type ℓ} {B : Type κ} (m : Option A) (f : A → Option B) {b : B}
    → (m >>= f) ≡ some b
    → (a : A) × (m ≡ some a) × (f a ≡ some b)
>>=-eq-some none f h = cc
>>=-eq-some (some a) f h = (a, refl, h)

of_operation-compile_rules :
    (operations : List RogatioOperation) (group_id : String) (rules : List RogatioRule)
    (compiled : List RogatioOperation)
    → compile_rules operations group_id rules ≡ some compiled
    → map of_operation compiled ≡ map of_operation operations ++ map (of_rule group_id) rules
unfolding compile_rules
of_operation-compile_rules operations group_id [] compiled h =
    let same : compiled ≡ operations = cc in rw append-nil (ap (map of_operation) same)
of_operation-compile_rules operations group_id (rule ∷ rules) compiled h =
    let (operation, one, rest) = >>=-eq-some (compile_rule group_id rule) _ h in
    of_operation-compile_rules (operations ++ operation ∷ []) group_id rules compiled rest
    ∙ simp (map-append, append_assoc, of_operation-compile_rule group_id rule operation one)

of_operation-compile_groups :
    (operations : List RogatioOperation) (groups : List RogatioGroup)
    (compiled : List RogatioOperation)
    → compile_groups operations groups ≡ some compiled
    → map of_operation compiled ≡ map of_operation operations ++ of_groups groups
unfolding compile_groups
of_operation-compile_groups operations [] compiled h =
    let same : compiled ≡ operations = cc in rw append-nil (ap (map of_operation) same)
of_operation-compile_groups operations (group ∷ groups) compiled h =
    let (pushed, first, rest) = >>=-eq-some (compile_rules operations group.id group.rules) _ h in
    of_operation-compile_groups pushed groups compiled rest
    ∙ simp (of_operation-compile_rules operations group.id group.rules pushed first, append_assoc)

-- Every mock rule carries its payload.
abbrev pub HasPayload : RogatioRule → Type 0
HasPayload rule = rule.type ≡ some RuleType.mock → rule.mock ≢ none

operation_kind-ne-none :
    (type : Option RuleType) (rule : RogatioRule)
    → (type ≡ some RuleType.mock → rule.mock ≢ none)
    → operation_kind type rule ≢ none
unfolding operation_kind
operation_kind-ne-none type rule h = ground arith

compile_rule-ne-none :
    (group_id : String) (rule : RogatioRule) → HasPayload rule → compile_rule group_id rule ≢ none
unfolding compile_rule
compile_rule-ne-none group_id rule h e = elim (Option-cases (operation_kind rule.type rule)) [
  | inl no_kind ↦ operation_kind-ne-none rule.type rule h no_kind
  | inr (kind, found) ↦ ground arith
]

compile_rules-ne-none :
    (operations : List RogatioOperation) (group_id : String) (rules : List RogatioRule)
    → All HasPayload rules
    → compile_rules operations group_id rules ≢ none
unfolding compile_rules
compile_rules-ne-none operations group_id [] h = cc
compile_rules-ne-none operations group_id (rule ∷ rules) h =
    elim (Option-cases (compile_rule group_id rule)) [
      | inl fails ↦ absurd (compile_rule-ne-none group_id rule h.0 fails)
      | inr (operation, found) ↦
          rw found (compile_rules-ne-none (operations ++ operation ∷ []) group_id rules h.1)
    ]

compile_groups-ne-none :
    (operations : List RogatioOperation) (groups : List RogatioGroup)
    → All (λ group. All HasPayload group.rules) groups
    → compile_groups operations groups ≢ none
unfolding compile_groups
compile_groups-ne-none operations [] h = cc
compile_groups-ne-none operations (group ∷ groups) h =
    elim (Option-cases (compile_rules operations group.id group.rules)) [
      | inl fails ↦ absurd (compile_rules-ne-none operations group.id group.rules h.0 fails)
      | inr (pushed, found) ↦ rw found (compile_groups-ne-none pushed groups h.1)
    ]

-- Where every mock rule carries its payload, compiling does not throw, and gives one operation for
-- each rule, in the order of the groups and of the rules in a group, with the rule's ids, name,
-- source, priority, method and log flag, and with its resource types in canonical order.
pub of_operation-compile_operations :
    (project : RogatioProject)
    → All (λ group. All HasPayload group.rules) project.groups
    → (compiled : List RogatioOperation) × (compile_operations project ≡ some compiled)
      × (map of_operation compiled ≡ of_groups project.groups)
unfolding compile_operations
of_operation-compile_operations project h = elim (Option-cases (compile_groups [] project.groups)) [
  | inl fails ↦ absurd (compile_groups-ne-none [] project.groups h fails)
  | inr (compiled, found) ↦
      (compiled, found, of_operation-compile_groups [] project.groups compiled found)
]

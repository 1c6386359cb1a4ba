-- ===== src/Runtime/Authorization/Matching.antt =====
-- packages/runtime/src/authorization.ts: a grant that matches a descriptor is the descriptor.
use rogatio.Prelude.{
  ℕ, Bool, ap, ◌∙◌, ==_iff, str_eq, eq_iff, arith, if◌then◌else◌, ◌≡◌, refl, sym, true, false, ◌&&◌,
  ◌==◌,
}
use rogatio.Schema.Types.{HttpMethod, method_rank}
use rogatio.Runtime.Authorization.{
  RuntimeOperationKind, outbound_http, confined_file, RuntimeGrant, PresetMatcher, same_kind,
  matches_grant, is_matcher_of,
}

same_kind-equal : (a b : RuntimeOperationKind) → same_kind a b ≡ true → a ≡ b
same_kind-equal outbound_http outbound_http h = refl
same_kind-equal outbound_http confined_file h = cc
same_kind-equal confined_file outbound_http h = cc
same_kind-equal confined_file confined_file h = refl

-- A method by its rank.
abbrev method_at : ℕ → HttpMethod
method_at rank =
    if rank == 0
    then HttpMethod.get
    else if rank == 1
    then HttpMethod.post
    else if rank == 2
    then HttpMethod.put
    else if rank == 3
    then HttpMethod.patch
    else if rank == 4
    then HttpMethod.delete
    else if rank == 5
    then HttpMethod.head
    else if rank == 6
    then HttpMethod.options
    else if rank == 7
    then HttpMethod.connect
    else HttpMethod.trace

method_at-method_rank : (method : HttpMethod) → method_at (method_rank method) ≡ method
unfolding method_rank
method_at-method_rank HttpMethod.get = refl
method_at-method_rank HttpMethod.post = refl
method_at-method_rank HttpMethod.put = refl
method_at-method_rank HttpMethod.patch = refl
method_at-method_rank HttpMethod.delete = refl
method_at-method_rank HttpMethod.head = refl
method_at-method_rank HttpMethod.options = refl
method_at-method_rank HttpMethod.connect = refl
method_at-method_rank HttpMethod.trace = refl

method_rank-injective : (a b : HttpMethod) → (method_rank a == method_rank b) ≡ true → a ≡ b
method_rank-injective a b h =
    sym (method_at-method_rank a)
    ∙ (ap method_at ((==_iff (method_rank a) (method_rank b)).0 h) ∙ method_at-method_rank b)

conjuncts :
    (a b c d e f : Bool)
    → (a && (b && (c && (d && (e && f))))) ≡ true
    → (a ≡ true) × (b ≡ true) × (c ≡ true) × (d ≡ true) × (e ≡ true) × (f ≡ true)
conjuncts true true true true true f h = (refl, refl, refl, refl, refl, h)
conjuncts true true true true false f h = cc
conjuncts true true true false e f h = cc
conjuncts true true false d e f h = cc
conjuncts true false c d e f h = cc
conjuncts false b c d e f h = cc

-- A grant that matches is the descriptor.
pub matches_grant-equal :
    (descriptor grant : RuntimeGrant) → matches_grant descriptor grant ≡ true → grant ≡ descriptor
unfolding matches_grant
matches_grant-equal descriptor grant h =
    let fields =
      conjuncts (str_eq descriptor.group_id grant.group_id)
        (str_eq descriptor.rule_id grant.rule_id)
        (str_eq descriptor.operation_id grant.operation_id) (same_kind descriptor.kind grant.kind)
        (str_eq descriptor.target grant.target)
        (method_rank descriptor.method == method_rank grant.method) h in
    let groups = (eq_iff descriptor.group_id grant.group_id).0 (fields.0) in
    let rules = (eq_iff descriptor.rule_id grant.rule_id).0 (fields.1) in
    let operations = (eq_iff descriptor.operation_id grant.operation_id).0 (fields.2) in
    let kinds = same_kind-equal descriptor.kind grant.kind (fields.3) in
    let targets = (eq_iff descriptor.target grant.target).0 (fields.4) in
    let methods = method_rank-injective descriptor.method grant.method (fields.5) in
    λ i. record {
      group_id = sym groups i;
      rule_id = sym rules i;
      operation_id = sym operations i;
      kind = sym kinds i;
      target = sym targets i;
      method = sym methods i;
    }

pub same_rule :
    (grant : RuntimeGrant) (found : PresetMatcher)
    → is_matcher_of grant found ≡ true
    → (found.group_id ≡ grant.group_id) × (found.rule_id ≡ grant.rule_id)
same_rule grant found h =
    ground (arith, h, eq_iff found.group_id grant.group_id, eq_iff found.rule_id grant.rule_id)

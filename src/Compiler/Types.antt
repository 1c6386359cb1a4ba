-- ===== src/Compiler/Types.antt =====
-- packages/compiler/src/types.ts: compiled operations. The union over `kind` is one record with
-- the shared fields and the part that depends on the kind.
use rogatio.Prelude.{ℕ, Bool, Option, List, String}
use rogatio.Schema.Types.{
  SourceCondition, ResourceType, HttpMethod, RogatioQueryAction, HeaderDirection,
  HeaderOperationKind, ResponseBodyAction, RequestBodyAction, MockAction,
}

pub record NormalizedMatcher : Type 0 where
  pub source : SourceCondition
  pub resource_types : List ResourceType
  pub priority : ℕ
  pub method : Option HttpMethod

pub record HeaderPart : Type 0 where
  pub direction : HeaderDirection
  pub operation : HeaderOperationKind
  pub name : String
  pub value : Option String

pub data OperationKind : Type 0 where
  matcher : OperationKind
  redirect : String → OperationKind
  query : RogatioQueryAction → OperationKind
  header : HeaderPart → OperationKind
  response_body : ResponseBodyAction → OperationKind
  request_body : RequestBodyAction → OperationKind
  mock : MockAction → OperationKind

pub record RogatioOperation : Type 0 where
  pub group_id : String
  pub rule_id : String
  pub name : String
  pub redact_sensitive_in_logs : Bool
  pub matcher : NormalizedMatcher
  pub kind : OperationKind

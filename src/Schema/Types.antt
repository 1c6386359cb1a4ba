-- ===== src/Schema/Types.antt =====
-- packages/schema/src/types.ts and limits.ts: a project, its groups and rules. An optional field
-- is an `Option`. A rule carries every field that the type declares, as before validation.
use rogatio.Prelude.{ℕ, Bool, Option, List, [], ◌∷◌, String, ◌==◌}

pub data SourceKey : Type 0 where
  url host : SourceKey

pub record SourceCondition : Type 0 where
  pub key : SourceKey
  pub value : String

pub data ResourceType : Type 0 where
  main_frame sub_frame stylesheet script image font object media : ResourceType
  xmlhttprequest ping csp_report websocket webtransport webbundle other : ResourceType

-- The position in `RESOURCE_TYPES`.
unfoldable pub type_rank : ResourceType → ℕ
type_rank main_frame = 0
type_rank sub_frame = 1
type_rank stylesheet = 2
type_rank script = 3
type_rank image = 4
type_rank font = 5
type_rank object = 6
type_rank media = 7
type_rank xmlhttprequest = 8
type_rank ping = 9
type_rank csp_report = 10
type_rank websocket = 11
type_rank webtransport = 12
type_rank webbundle = 13
type_rank other = 14

-- The names that requests are compared with.
abbrev pub type_name : ResourceType → String
type_name main_frame = "main_frame"
type_name sub_frame = "sub_frame"
type_name stylesheet = "stylesheet"
type_name script = "script"
type_name image = "image"
type_name font = "font"
type_name object = "object"
type_name media = "media"
type_name xmlhttprequest = "xmlhttprequest"
type_name ping = "ping"
type_name csp_report = "csp_report"
type_name websocket = "websocket"
type_name webtransport = "webtransport"
type_name webbundle = "webbundle"
type_name other = "other"

abbrev pub same_type : ResourceType → ResourceType → Bool
same_type a b = type_rank a == type_rank b

abbrev pub resource_types : List ResourceType
resource_types =
    main_frame ∷ sub_frame ∷ stylesheet ∷ script ∷ image ∷ font ∷ object ∷ media ∷ xmlhttprequest
    ∷ ping ∷ csp_report ∷ websocket ∷ webtransport ∷ webbundle ∷ other ∷ []

pub data HttpMethod : Type 0 where
  get post put patch delete head options connect trace : HttpMethod

unfoldable pub method_rank : HttpMethod → ℕ
method_rank get = 0
method_rank post = 1
method_rank put = 2
method_rank patch = 3
method_rank delete = 4
method_rank head = 5
method_rank options = 6
method_rank connect = 7
method_rank trace = 8

abbrev pub method_name : HttpMethod → String
method_name get = "GET"
method_name post = "POST"
method_name put = "PUT"
method_name patch = "PATCH"
method_name delete = "DELETE"
method_name head = "HEAD"
method_name options = "OPTIONS"
method_name connect = "CONNECT"
method_name trace = "TRACE"

pub data RuleType : Type 0 where
  redirect query header response_body request_body mock : RuleType

pub data QueryParamOperation : Type 0 where
  set remove : QueryParamOperation

pub record RogatioQueryParam : Type 0 where
  pub name : String
  pub operation : Option QueryParamOperation
  pub value : Option String

pub record RogatioQueryAction : Type 0 where
  pub params : List RogatioQueryParam

pub data HeaderDirection : Type 0 where
  request response : HeaderDirection

pub data HeaderOperationKind : Type 0 where
  set append remove : HeaderOperationKind

pub record ResponseBodyReplacement : Type 0 where
  pub pattern : String
  pub replacement : String

pub data ResponseBodyAction : Type 0 where
  replace : String → ResponseBodyAction
  regex : List ResponseBodyReplacement → ResponseBodyAction
  untagged : List ResponseBodyReplacement → ResponseBodyAction

pub data RequestBodyAction : Type 0 where
  replace : String → RequestBodyAction
  regex : String → String → RequestBodyAction

pub record MockHeader : Type 0 where
  pub name : String
  pub value : String

pub record MockAction : Type 0 where
  pub status : ℕ
  pub headers : Option (List MockHeader)
  pub delay_ms : Option ℕ
  pub body : Option String
  pub file : Option String

-- `action` holds a query action or the redirect form of the same field.
pub data RogatioRuleAction : Type 0 where
  query_action : RogatioQueryAction → RogatioRuleAction
  redirect_action : String → RogatioRuleAction

pub record RogatioRule : Type 0 where
  pub id : String
  pub name : String
  pub source : SourceCondition
  pub resource_types : List ResourceType
  pub priority : ℕ
  pub method : Option HttpMethod
  pub type : Option RuleType
  pub redirect : Option String
  pub action : Option RogatioRuleAction
  pub header_direction : Option HeaderDirection
  pub header_operation : Option HeaderOperationKind
  pub header_name : Option String
  pub header_value : Option String
  pub response_body : Option ResponseBodyAction
  pub request_body : Option RequestBodyAction
  pub mock : Option MockAction
  pub redact_sensitive_in_logs : Option Bool

pub record RogatioGroup : Type 0 where
  pub id : String
  pub name : String
  pub rules : List RogatioRule

-- The version is fixed by the type.
pub record RogatioProject : Type 0 where
  pub name : String
  pub description : Option String
  pub groups : List RogatioGroup
  pub local_origins : Option (List String)

-- limits.ts
abbrev pub max_groups : ℕ
max_groups = 64

abbrev pub max_rules_per_group : ℕ
max_rules_per_group = 256

abbrev pub max_rules_per_project : ℕ
max_rules_per_project = 4096

abbrev pub max_id_length : ℕ
max_id_length = 64

abbrev pub max_label_length : ℕ
max_label_length = 100

abbrev pub max_url_regex_length : ℕ
max_url_regex_length = 2048

abbrev pub max_mock_file_path_length : ℕ
max_mock_file_path_length = 2048

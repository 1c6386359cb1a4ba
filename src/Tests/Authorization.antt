-- ===== src/Tests/Authorization.antt =====
-- The authorization of an operation: a preset with one outbound grant.
use mathlib.Core.List.{Memᴰ}
use rogatio.Prelude.{◌≡◌, refl, Option, none, some, [], ◌∷◌, String}
use rogatio.Prelude.Json.{Json, string, object, end, field}
use rogatio.Prelude.Texts.{utf16}
use rogatio.Schema.Types.{HttpMethod, method_rank}
use rogatio.Compiler.Matcher.{Platform}
use rogatio.Runtime.Results.{ok}
use rogatio.Runtime.Authorization.{
  outbound_http, RuntimeGrant, PresetMatcher, NormalizedRuntimePreset, AuthorizedOperation,
  authorize_exact,
}
use rogatio.Runtime.Authorization.Exact.{IsAuthorized, authorize_exact-IsAuthorized}
use rogatio.Runtime.Authorization.Granted.{authorize_exact-granted}

abbrev grant : RuntimeGrant
grant = record {
  group_id = "g1";
  rule_id = "r1";
  operation_id = "o1";
  kind = outbound_http;
  target = "https://a.test/x";
  method = HttpMethod.get;
}

abbrev matcher : PresetMatcher
matcher = record { group_id = "g1"; rule_id = "r1"; source_value = "https://a.test/*" }

abbrev preset : NormalizedRuntimePreset
preset = record { matchers = matcher ∷ []; grants = grant ∷ []; digest = "sha256:0" }

abbrev descriptor : Json
descriptor = object (
    field "groupId" (string "g1") (
      field "ruleId" (string "r1") (
        field "operationId" (string "o1") (
          field "kind" (string "outbound-http")
            (field "target" (string "https://A.test/x") (field "method" (string "GET") end))))))

abbrev canonical_case : String → Option String
canonical_case target = some "https://a.test/x"

abbrev one_origin : Platform
one_origin = record {
  url_origin = λ url. some "https://a.test";
  url_hostname = λ url. some "a.test";
  regexp_test = λ pattern. none;
}

abbrev authorized : AuthorizedOperation
authorized = record {
  group_id = "g1";
  rule_id = "r1";
  operation_id = "o1";
  kind = outbound_http;
  target = "https://a.test/x";
  method = HttpMethod.get;
  source_value = "https://a.test/*";
  preset_digest = "sha256:0";
}

authorize_exact-IsAuthorized_example :
    IsAuthorized canonical_case one_origin preset descriptor "https://a.test/" authorized
unfolding authorize_exact utf16 method_rank
authorize_exact-IsAuthorized_example =
    authorize_exact-IsAuthorized canonical_case one_origin preset descriptor "https://a.test/"
      authorized refl

authorize_exact-granted_example :
    (operation : AuthorizedOperation) × (authorize_exact canonical_case one_origin preset descriptor
        "https://a.test/"
      ≡ ok operation)
unfolding authorize_exact utf16 method_rank
authorize_exact-granted_example =
    authorize_exact-granted canonical_case one_origin preset descriptor "https://a.test/"
      "https://a.test/x" (record grant { target = "https://A.test/x" }) grant matcher refl refl refl
      (Memᴰ.head refl) refl (Memᴰ.head refl) refl refl

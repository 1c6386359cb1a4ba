-- ===== src/Runtime/Authorization/Granted.antt =====
-- packages/runtime/src/authorization.ts: what is granted is authorized.
use mathlib.Core.List.{Memᴰ}
use rogatio.Prelude.{
  ◌≡◌, refl, ap, ◌∙◌, sym, true, false, Option, some, List, [], ◌∷◌, ◌==◌, Bool-cases, length, inl,
  inr, String,
}
use rogatio.Prelude.Json.{Json}
use rogatio.Prelude.Texts.{utf16}
use rogatio.Compiler.Matcher.{Platform}
use rogatio.Runtime.Results.{ok}
use rogatio.Runtime.Authorization.{
  RuntimeOperationKind, outbound_http, confined_file, RuntimeGrant, PresetMatcher,
  NormalizedRuntimePreset, AuthorizedOperation, exact_descriptor, same_kind, matches_grant,
  is_matcher_of, find_matcher, find_grant, canonical_target, authorized_by, of_matcher,
  authorize_exact,
}
use rogatio.Runtime.Authorization.Exact.{HasOrigin, find_grant-some}
use rogatio.Runtime.Authorization.Matching.{matches_grant-equal}

find_grant-found :
    (descriptor grant : RuntimeGrant) (grants : List RuntimeGrant)
    → Memᴰ grant grants
    → matches_grant descriptor grant ≡ true
    → (g : RuntimeGrant) × (find_grant descriptor grants ≡ some g)
unfolding find_grant
find_grant-found descriptor grant [] member matches = elim member [ ]
find_grant-found descriptor grant (g ∷ grants) member matches =
    elim (Bool-cases (matches_grant descriptor g)) [
      | inl here ↦ (g, rw here refl)
      | inr other ↦ rw other (find_grant-found descriptor grant grants (later member other) matches)
    ]
  where
    clash : true ≡ false → ⊥
    clash h = cc

    later : Memᴰ grant (g ∷ grants) → matches_grant descriptor g ≡ false → Memᴰ grant grants
    later (Memᴰ.head same) other =
        absurd (clash (sym matches ∙ ap (matches_grant descriptor) same ∙ other))
    later (Memᴰ.tail rest) other = rest

find_matcher-found :
    (grant : RuntimeGrant) (found : PresetMatcher) (matchers : List PresetMatcher)
    → Memᴰ found matchers
    → is_matcher_of grant found ≡ true
    → (m : PresetMatcher) × (find_matcher grant matchers ≡ some m)
unfolding find_matcher
find_matcher-found grant found [] member matches = elim member [ ]
find_matcher-found grant found (m ∷ matchers) member matches =
    elim (Bool-cases (is_matcher_of grant m)) [
      | inl here ↦ (m, rw here refl)
      | inr other ↦ rw other (find_matcher-found grant found matchers (later member other) matches)
    ]
  where
    clash : true ≡ false → ⊥
    clash h = cc

    later : Memᴰ found (m ∷ matchers) → is_matcher_of grant m ≡ false → Memᴰ found matchers
    later (Memᴰ.head same) other =
        absurd (clash (sym matches ∙ ap (is_matcher_of grant) same ∙ other))
    later (Memᴰ.tail rest) other = rest

-- What a match says of the fields that are used later.
record Agree (descriptor grant : RuntimeGrant) : Type 0 where
  groups : descriptor.group_id ≡ grant.group_id
  rules : descriptor.rule_id ≡ grant.rule_id
  kinds : same_kind descriptor.kind grant.kind ≡ true
  targets : descriptor.target ≡ grant.target

same_kind_refl : (kind : RuntimeOperationKind) → same_kind kind kind ≡ true
same_kind_refl outbound_http = refl
same_kind_refl confined_file = refl

matches_grant-Agree :
    (descriptor grant : RuntimeGrant)
    → matches_grant descriptor grant ≡ true
    → Agree descriptor grant
matches_grant-Agree descriptor grant h =
    let same = sym (matches_grant-equal descriptor grant h) in
    record {
      groups = ap (λ g. g.group_id) same;
      rules = ap (λ g. g.rule_id) same;
      kinds =
          ap (λ g. same_kind descriptor.kind g.kind) (sym same) ∙ same_kind_refl descriptor.kind;
      targets = ap (λ g. g.target) same;
    }

same_kind-agree :
    (a b c : RuntimeOperationKind)
    → same_kind a b ≡ true
    → same_kind a c ≡ true
    → same_kind b outbound_http ≡ same_kind c outbound_http
same_kind-agree outbound_http outbound_http outbound_http h k = refl
same_kind-agree outbound_http outbound_http confined_file h k = cc
same_kind-agree outbound_http confined_file c h k = cc
same_kind-agree confined_file outbound_http c h k = cc
same_kind-agree confined_file confined_file outbound_http h k = cc
same_kind-agree confined_file confined_file confined_file h k = refl

module _ (canonicalize_outbound : String → Option String) (platform : Platform) where
  of_matcher_with_origin :
      (g : RuntimeGrant) (m : PresetMatcher) (digest request_url : String)
      → HasOrigin canonicalize_outbound platform g request_url
      → of_matcher canonicalize_outbound platform g (some m) digest request_url
        ≡ ok (authorized_by canonicalize_outbound platform g m digest)
  of_matcher_with_origin g m digest request_url origin = rw origin refl

  -- A descriptor whose canonical form matches a grant of the preset is authorized for a request
  -- that is not empty, when the preset has a matcher for the rule of the grant, and an outbound
  -- grant has the origin of the request.
  pub authorize_exact-granted :
      (preset : NormalizedRuntimePreset) (value : Json) (request_url target : String)
      (descriptor grant : RuntimeGrant) (found : PresetMatcher)
      → exact_descriptor value ≡ some descriptor
      → canonical_target canonicalize_outbound platform descriptor.kind descriptor.target
        ≡ some target
      → (length (utf16 request_url) == 0) ≡ false
      → Memᴰ grant preset.grants
      → matches_grant (record descriptor { target = target }) grant ≡ true
      → Memᴰ found preset.matchers
      → is_matcher_of grant found ≡ true
      → HasOrigin canonicalize_outbound platform grant request_url
      → (operation : AuthorizedOperation) × (authorize_exact canonicalize_outbound platform preset
            value request_url
          ≡ ok operation)
  unfolding authorize_exact
  authorize_exact-granted preset value request_url target descriptor grant found described canonical
        nonempty granted exact has_matcher of_rule origin =
      let canonical_descriptor : RuntimeGrant = record descriptor { target = target } in
      let first = find_grant-found canonical_descriptor grant preset.grants granted exact in
      let g = first.0 in
      let asked = matches_grant-Agree canonical_descriptor grant exact in
      let answered =
        matches_grant-Agree canonical_descriptor g
          ((find_grant-some canonical_descriptor g preset.grants (first.1)).1) in
      let matcher =
        find_matcher-found g found preset.matchers has_matcher
          (same_rule g (sym answered.groups ∙ asked.groups) (sym answered.rules ∙ asked.rules)) in
      let own_origin =
        same_origins g
          (same_kind-agree descriptor.kind g.kind grant.kind answered.kinds asked.kinds)
          (sym answered.targets ∙ asked.targets) in
      (
        authorized_by canonicalize_outbound platform g (matcher.0) preset.digest,
        rw (authorize_exact, described, nonempty, canonical, first.1, matcher.1)
            (of_matcher_with_origin g (matcher.0) preset.digest request_url own_origin),
      )
    where
      same_rule :
          (g : RuntimeGrant)
          → g.group_id ≡ grant.group_id
          → g.rule_id ≡ grant.rule_id
          → is_matcher_of g found ≡ true
      same_rule g group rule = rw (group, rule) of_rule

      same_origins :
          (g : RuntimeGrant)
          → same_kind g.kind outbound_http ≡ same_kind grant.kind outbound_http
          → g.target ≡ grant.target
          → HasOrigin canonicalize_outbound platform g request_url
      same_origins g kind same = rw (kind, same) origin

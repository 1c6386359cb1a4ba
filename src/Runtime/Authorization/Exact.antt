-- ===== src/Runtime/Authorization/Exact.antt =====
-- packages/runtime/src/authorization.ts: what is authorized is granted, and what is granted is
-- authorized.
use mathlib.Core.Path.{subst}
use mathlib.Core.List.{Memᴰ}
use rogatio.Prelude.{
  ◌≡◌, refl, sym, true, false, not, ◌&&◌, Option, none, some, List, [], ◌∷◌, ◌==◌, Bool-cases,
  length, inl, inr, String,
}
use rogatio.Prelude.Json.{Json}
use rogatio.Prelude.Texts.{utf16}
use rogatio.Compiler.Matcher.{Platform, same_origin}
use rogatio.Runtime.Results.{ok, failed, authorization_denied}
use rogatio.Runtime.Authorization.Matching.{matches_grant-equal, same_rule}
use rogatio.Runtime.Authorization.{
  outbound_http, RuntimeGrant, PresetMatcher, NormalizedRuntimePreset, AuthorizedOperation,
  exact_descriptor, same_kind, matches_grant, is_matcher_of, find_matcher, find_grant,
  canonical_target, authorized_by, of_matcher, of_grant, of_target, of_descriptor, authorize_exact,
}

pub find_grant-some :
    (descriptor grant : RuntimeGrant) (grants : List RuntimeGrant)
    → find_grant descriptor grants ≡ some grant
    → Memᴰ grant grants × (matches_grant descriptor grant ≡ true)
unfolding find_grant
find_grant-some descriptor grant [] found = cc
find_grant-some descriptor grant (g ∷ grants) found =
    elim (Bool-cases (matches_grant descriptor g)) [
      | inl here ↦
          let same = some_injective g grant (rw here at found) in
          (Memᴰ.head (sym same), subst (λ h. matches_grant descriptor h ≡ true) same here)
      | inr other ↦
          let later = find_grant-some descriptor grant grants (rw other at found) in
          (Memᴰ.tail (later.0), later.1)
    ]
  where
    some_injective : (g h : RuntimeGrant) → some g ≡ some h → g ≡ h
    some_injective g h e = cc

find_matcher-some :
    (grant : RuntimeGrant) (found : PresetMatcher) (matchers : List PresetMatcher)
    → find_matcher grant matchers ≡ some found
    → Memᴰ found matchers × (is_matcher_of grant found ≡ true)
unfolding find_matcher
find_matcher-some grant found [] e = cc
find_matcher-some grant found (m ∷ matchers) e = elim (Bool-cases (is_matcher_of grant m)) [
  | inl here ↦
      let same = some_injective m found (rw here at e) in
      (Memᴰ.head (sym same), subst (λ n. is_matcher_of grant n ≡ true) same here)
  | inr other ↦
      let later = find_matcher-some grant found matchers (rw other at e) in
      (Memᴰ.tail (later.0), later.1)
]
  where
    some_injective : (g h : PresetMatcher) → some g ≡ some h → g ≡ h
    some_injective g h e = cc

module _ (canonicalize_outbound : String → Option String) (platform : Platform) where
  -- The grant may be used for the request: an outbound grant only towards its own origin.
  abbrev pub HasOrigin : RuntimeGrant → String → Type 0
  HasOrigin grant request_url =
      (same_kind grant.kind outbound_http && not (same_origin platform grant.target request_url))
      ≡ false

  origin_of_outbound :
      (grant : RuntimeGrant) (request_url : String)
      → HasOrigin grant request_url
      → grant.kind ≡ outbound_http
      → same_origin platform grant.target request_url ≡ true
  origin_of_outbound grant request_url h outbound =
      elim (Bool-cases (same_origin platform grant.target request_url)) [
        | inl same ↦ same
        | inr foreign ↦ absurd (clash (rw (outbound, foreign) at h))
      ]
    where
      clash : true ≡ false → ⊥
      clash h = cc

  -- The authorized operation is a grant of the preset, the descriptor with its target in canonical
  -- form, and has the source of a matcher of its rule.
  pub record IsAuthorized (preset : NormalizedRuntimePreset) (value : Json) (request_url : String)
      (operation : AuthorizedOperation) : Type 0 where
    pub descriptor : RuntimeGrant
    pub target : String
    pub grant : RuntimeGrant
    pub found : PresetMatcher
    pub described : exact_descriptor value ≡ some descriptor
    pub canonical :
        canonical_target canonicalize_outbound platform descriptor.kind descriptor.target
        ≡ some target
    pub granted : Memᴰ grant preset.grants
    pub exact : grant ≡ record descriptor { target = target }
    pub has_matcher : Memᴰ found preset.matchers
    pub of_group : found.group_id ≡ grant.group_id
    pub of_rule : found.rule_id ≡ grant.rule_id
    pub same_origins :
        grant.kind ≡ outbound_http → same_origin platform grant.target request_url ≡ true
    pub is_operation : operation ≡ record {
      group_id = grant.group_id;
      rule_id = grant.rule_id;
      operation_id = grant.operation_id;
      kind = grant.kind;
      target = grant.target;
      method = grant.method;
      source_value = found.source_value;
      preset_digest = preset.digest;
    }

  of_descriptor-ok :
      (preset : NormalizedRuntimePreset) (descriptor : Option RuntimeGrant) (request_url : String)
      (operation : AuthorizedOperation)
      → of_descriptor canonicalize_outbound platform preset descriptor request_url ≡ ok operation
      → (d : RuntimeGrant) × (descriptor ≡ some d)
        × (of_target canonicalize_outbound platform preset d
              (canonical_target canonicalize_outbound platform d.kind d.target)
              request_url
            ≡ ok operation)
  of_descriptor-ok preset none request_url operation e = cc
  of_descriptor-ok preset (some d) request_url operation e =
      elim (Bool-cases (length (utf16 request_url) == 0)) [
        | inl empty ↦ refused (rw empty at e)
        | inr url ↦ (d, refl, rw url at e)
      ]
    where
      refused :
          failed authorization_denied ≡ ok operation
          → (c : RuntimeGrant) × (some d ≡ some c)
            × (of_target canonicalize_outbound platform preset c
                  (canonical_target canonicalize_outbound platform c.kind c.target)
                  request_url
                ≡ ok operation)
      refused h = cc

  of_target-ok :
      (preset : NormalizedRuntimePreset) (d : RuntimeGrant) (target : Option String)
      (request_url : String) (operation : AuthorizedOperation)
      → of_target canonicalize_outbound platform preset d target request_url ≡ ok operation
      → (t : String) × (target ≡ some t)
        × (of_grant canonicalize_outbound platform preset
              (find_grant (record d { target = t }) preset.grants)
              request_url
            ≡ ok operation)
  of_target-ok preset d none request_url operation e = cc
  of_target-ok preset d (some t) request_url operation e = (t, refl, e)

  of_grant-ok :
      (preset : NormalizedRuntimePreset) (grant : Option RuntimeGrant) (request_url : String)
      (operation : AuthorizedOperation)
      → of_grant canonicalize_outbound platform preset grant request_url ≡ ok operation
      → (g : RuntimeGrant) × (grant ≡ some g)
        × (of_matcher canonicalize_outbound platform g
              (find_matcher g preset.matchers)
              preset.digest
              request_url
            ≡ ok operation)
  of_grant-ok preset none request_url operation e = cc
  of_grant-ok preset (some g) request_url operation e = (g, refl, e)

  of_matcher-ok :
      (g : RuntimeGrant) (found : Option PresetMatcher) (digest request_url : String)
      (operation : AuthorizedOperation)
      → of_matcher canonicalize_outbound platform g found digest request_url ≡ ok operation
      → (m : PresetMatcher) × (found ≡ some m)
        × HasOrigin g request_url
        × (operation ≡ authorized_by canonicalize_outbound platform g m digest)
  of_matcher-ok g none digest request_url operation e = cc
  of_matcher-ok g (some m) digest request_url operation e =
      elim (Bool-cases
        (same_kind g.kind outbound_http && not (same_origin platform g.target request_url))) [
          | inl foreign ↦ refused (rw foreign at e)
          | inr own_origin ↦ (m, refl, own_origin, granted_value (rw own_origin at e))
        ]
    where
      refused :
          failed authorization_denied ≡ ok operation
          → (n : PresetMatcher) × (some m ≡ some n)
            × HasOrigin g request_url
            × (operation ≡ authorized_by canonicalize_outbound platform g n digest)
      refused h = cc

      granted_value :
          ok (authorized_by canonicalize_outbound platform g m digest) ≡ ok operation
          → operation ≡ authorized_by canonicalize_outbound platform g m digest
      granted_value h = cc

  -- An operation that is authorized has the fields of a grant of the preset that is equal to the
  -- descriptor with its target in canonical form, and has the digest of the preset and the source
  -- of a matcher of the preset that has the group and the rule of the grant; and an outbound grant
  -- has the origin of the request.
  pub authorize_exact-IsAuthorized :
      (preset : NormalizedRuntimePreset) (value : Json) (request_url : String)
      (operation : AuthorizedOperation)
      → authorize_exact canonicalize_outbound platform preset value request_url ≡ ok operation
      → IsAuthorized preset value request_url operation
  unfolding authorize_exact
  authorize_exact-IsAuthorized preset value request_url operation authorized =
      let a = of_descriptor-ok preset (exact_descriptor value) request_url operation authorized in
      let b =
        of_target-ok preset (a.0)
          (canonical_target canonicalize_outbound platform (a.0).kind (a.0).target) request_url
          operation (a.2) in
      let c =
        of_grant-ok preset (find_grant (record (a.0) { target = b.0 }) preset.grants) request_url
          operation (b.2) in
      let d =
        of_matcher-ok (c.0) (find_matcher (c.0) preset.matchers) preset.digest request_url operation
          (c.2) in
      let grant = find_grant-some (record (a.0) { target = b.0 }) (c.0) preset.grants (c.1) in
      let found = find_matcher-some (c.0) (d.0) preset.matchers (d.1) in
      record {
        descriptor = a.0;
        target = b.0;
        grant = c.0;
        found = d.0;
        described = a.1;
        canonical = b.1;
        granted = grant.0;
        exact = matches_grant-equal (record (a.0) { target = b.0 }) (c.0) (grant.1);
        has_matcher = found.0;
        of_group = (same_rule (c.0) (d.0) (found.1)).0;
        of_rule = (same_rule (c.0) (d.0) (found.1)).1;
        same_origins = origin_of_outbound (c.0) request_url (d.2);
        is_operation = d.3;
      }

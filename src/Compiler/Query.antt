-- ===== src/Compiler/Query.antt =====
-- packages/compiler/src/query.ts: the query transform of a query rule, and its effect on the
-- name-value pairs of a URL. Parsing and printing the URL are the platform's.
pub mod Maps
pub mod Values
use rogatio.Prelude.{
  Bool, true, false, Option, none, some, List, [], ◌∷◌, ◌++◌, String, if◌then◌else◌, str_eq,
}
use rogatio.Prelude.Dict.{get, put}
use rogatio.Prelude.Texts.{includes}
use rogatio.Schema.Types.{QueryParamOperation, RogatioQueryParam, RogatioQueryAction}

pub record DnrQueryTransform : Type 0 where
  pub add_or_replace_params : Option (List (String × String))
  pub remove_params : Option (List String)

unfoldable pub resolve_query_param_operation : RogatioQueryParam → QueryParamOperation
resolve_query_param_operation param = elim param.operation [
  | none ↦ QueryParamOperation.set
  | some operation ↦ operation
]

abbrev is_remove : QueryParamOperation → Bool
is_remove QueryParamOperation.remove = true
is_remove QueryParamOperation.set = false

abbrev cons_some : String → Option String → List (String × String) → List (String × String)
cons_some name none pairs = pairs
cons_some name (some value) pairs = (name, value) ∷ pairs

-- What the loop of `queryActionToDNR` pushes, in order.
unfoldable pub added_params : List RogatioQueryParam → List (String × String)
unfolding resolve_query_param_operation
added_params [] = []
added_params (param ∷ params) =
    let later = added_params params in
    if is_remove (resolve_query_param_operation param)
    then later
    else cons_some param.name param.value later

unfoldable pub removed_params : List RogatioQueryParam → List String
unfolding resolve_query_param_operation
removed_params [] = []
removed_params (param ∷ params) =
    let later = removed_params params in
    if is_remove (resolve_query_param_operation param) then param.name ∷ later else later

-- A field is left out where its list is empty.
abbrev unless_empty {ℓ} : {A : Type ℓ} → List A → Option (List A)
unless_empty [] = none
unless_empty (x ∷ xs) = some (x ∷ xs)

abbrev or_empty {ℓ} : {A : Type ℓ} → Option (List A) → List A
or_empty none = []
or_empty (some xs) = xs

unfoldable pub query_action_to_dnr : RogatioQueryAction → DnrQueryTransform
unfolding added_params removed_params
query_action_to_dnr action = record {
  add_or_replace_params = unless_empty (added_params action.params);
  remove_params = unless_empty (removed_params action.params);
}

-- `setByName`, set entry by entry.
unfoldable pub set_by_name :
    List (String × String) → List (String × String) → List (String × String)
unfolding put
set_by_name entries [] = entries
set_by_name entries ((key, value) ∷ params) = set_by_name (put key value entries) params

-- The last loop: the set names that replaced nothing.
unfoldable pub append_new : List String → List (String × String) → List (String × String)
append_new replaced [] = []
append_new replaced ((name, value) ∷ entries) =
    let later = append_new replaced entries in
    if includes replaced name then later else (name, value) ∷ later

-- The loop over the existing pairs, with the names replaced so far, and the last loop behind it.
unfoldable pub rewrite_params :
    List String
    → List (String × String)
    → List String
    → List (String × String)
    → List (String × String)
unfolding append_new get
rewrite_params removes sets replaced [] = append_new replaced sets
rewrite_params removes sets replaced ((key, value) ∷ existing) =
    let later = rewrite_params removes sets replaced existing in
    let placed = λ (v : String). (key, v) ∷ rewrite_params removes sets (key ∷ replaced) existing in
    if includes removes key then later else elim (get key sets) [
      | none ↦ (key, value) ∷ later
      | some v ↦ if includes replaced key then later else placed v
    ]

-- `applyQueryTransform` on the pairs of the URL.
unfoldable pub apply_query_transform :
    RogatioQueryAction → List (String × String) → List (String × String)
unfolding rewrite_params set_by_name query_action_to_dnr
apply_query_transform action existing =
    let transform = query_action_to_dnr action in
    rewrite_params (or_empty transform.remove_params)
      (set_by_name [] (or_empty transform.add_or_replace_params)) [] existing

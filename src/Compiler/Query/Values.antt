-- ===== src/Compiler/Query/Values.antt =====
-- What a query rule does to the values of each name, and to the pairs that it does not name.
use rogatio.Prelude.{
  ◌≡◌, refl, ap, ◌∙◌, true, false, Bool, Option, none, some, List, [], ◌∷◌, String, if◌then◌else◌,
  str_eq, eq_iff, arith, ◌||◌,
}
use rogatio.Prelude.Texts.{includes}
use rogatio.Schema.Types.{RogatioQueryAction}
use rogatio.Compiler.Query.{
  added_params, removed_params, set_by_name, append_new, rewrite_params, apply_query_transform,
  or_empty, unless_empty,
}
use rogatio.Prelude.Dict.{get}
use rogatio.Prelude.Dict.Laws.{HasDistinctKeys}
use rogatio.Compiler.Query.Maps.{set_by_name-HasDistinctKeys, last_value, get-set_by_name}

-- The values of a name in the pairs of a query, in order.
abbrev pub values : String → List (String × String) → List String
values n [] = []
values n ((key, value) ∷ pairs) =
    let later = values n pairs in if str_eq key n then value ∷ later else later

abbrev singleton_of : Option String → List String
singleton_of none = []
singleton_of (some v) = v ∷ []

values-append_new :
    (n : String) (replaced : List String) (entries : List (String × String))
    → HasDistinctKeys entries
    → values n (append_new replaced entries)
      ≡ (if includes replaced n then [] else singleton_of (get n entries))
unfolding append_new get
values-append_new n replaced [] h = ground arith
values-append_new n replaced ((k, v) ∷ entries) h =
    ground (arith, eq_iff k n, values-append_new n replaced entries h.1)

-- The values of a name after the loops.
abbrev after : Bool → Bool → Option String → List String → List String
after replaced removed none old = if removed then [] else old
after replaced removed (some v) old = if replaced then [] else v ∷ []

values-rewrite_params :
    (n : String) (removes : List String) (sets : List (String × String)) (replaced : List String)
    (existing : List (String × String))
    → HasDistinctKeys sets
    → values n (rewrite_params removes sets replaced existing)
      ≡ after (includes replaced n) (includes removes n) (get n sets) (values n existing)
unfolding rewrite_params
values-rewrite_params n removes sets replaced [] h =
    ground (arith, values-append_new n replaced sets h)
values-rewrite_params n removes sets replaced ((key, value) ∷ existing) h = ground (
  arith,
  eq_iff key n,
  values-rewrite_params n removes sets replaced existing h,
  values-rewrite_params n removes sets (key ∷ replaced) existing h,
)

or_empty-unless_empty {ℓ} : {A : Type ℓ} (xs : List A) → or_empty (unless_empty xs) ≡ xs
or_empty-unless_empty [] = refl
or_empty-unless_empty (x ∷ xs) = refl

-- The values that a rule asks for: the last one that it sets, none where it only removes the name,
-- the old ones where it does not name it.
abbrev pub expected_values : RogatioQueryAction → String → List String → List String
expected_values action n old =
    after false (includes (removed_params action.params) n)
      (last_value n none (added_params action.params)) old

-- After the transform the values of every name are the last value that the rule sets, alone; else
-- no value where the rule removes the name; else the values that it had, in their order.
pub values-apply_query_transform :
    (action : RogatioQueryAction) (n : String) (existing : List (String × String))
    → values n (apply_query_transform action existing)
      ≡ expected_values action n (values n existing)
unfolding apply_query_transform
values-apply_query_transform action n existing =
    let sets = added_params action.params in
    rw (or_empty-unless_empty, or_empty-unless_empty)
      (values-rewrite_params n (removed_params action.params) (set_by_name [] sets) [] existing
          (set_by_name-HasDistinctKeys [] sets tt)
        ∙ ap
            (λ found.
              after false (includes (removed_params action.params) n) found (values n existing))
            (get-set_by_name n [] sets))

abbrev is_some {ℓ} : {A : Type ℓ} → Option A → Bool
is_some none = false
is_some (some a) = true

-- The pairs whose names are neither removed nor set.
abbrev pub unnamed :
    List String → List (String × String) → List (String × String) → List (String × String)
unnamed removes sets [] = []
unnamed removes sets ((key, value) ∷ pairs) =
    let later = unnamed removes sets pairs in
    if includes removes key || is_some (get key sets) then later else (key, value) ∷ later

-- Every entry of the second map is one of the first.
abbrev IsWithin : List (String × String) → List (String × String) → Type 0
IsWithin sets [] = Unit
IsWithin sets ((k, v) ∷ entries) = (is_some (get k sets) ≡ true) × IsWithin sets entries

unnamed-append_new :
    (removes : List String) (sets : List (String × String)) (replaced : List String)
    (entries : List (String × String))
    → IsWithin sets entries
    → unnamed removes sets (append_new replaced entries) ≡ []
unfolding append_new
unnamed-append_new removes sets replaced [] h = refl
unnamed-append_new removes sets replaced ((k, v) ∷ entries) h =
    ground (arith, unnamed-append_new removes sets replaced entries h.1)

IsWithin-cons :
    (k v : String) (sets entries : List (String × String))
    → IsWithin sets entries
    → IsWithin ((k, v) ∷ sets) entries
unfolding get
IsWithin-cons k v sets [] h = tt
IsWithin-cons k v sets ((key, value) ∷ entries) h =
    (ground arith, IsWithin-cons k v sets entries h.1)

IsWithin-refl : (sets : List (String × String)) → IsWithin sets sets
unfolding get
IsWithin-refl [] = tt
IsWithin-refl ((k, v) ∷ sets) =
    (ground (arith, eq_iff k k), IsWithin-cons k v sets sets (IsWithin-refl sets))

unnamed-rewrite_params :
    (removes : List String) (sets : List (String × String)) (replaced : List String)
    (existing : List (String × String))
    → unnamed removes sets (rewrite_params removes sets replaced existing)
      ≡ unnamed removes sets existing
unfolding rewrite_params
unnamed-rewrite_params removes sets replaced [] =
    unnamed-append_new removes sets replaced sets (IsWithin-refl sets)
unnamed-rewrite_params removes sets replaced ((key, value) ∷ existing) = ground (
  arith,
  unnamed-rewrite_params removes sets replaced existing,
  unnamed-rewrite_params removes sets (key ∷ replaced) existing,
)

-- The pairs that the rule does not name stay, in their order.
pub unnamed-apply_query_transform :
    (action : RogatioQueryAction) (existing : List (String × String))
    → let kept =
        unnamed (removed_params action.params) (set_by_name [] (added_params action.params)) in
      kept (apply_query_transform action existing) ≡ kept existing
unfolding apply_query_transform
unnamed-apply_query_transform action existing =
    let sets = added_params action.params in
    rw (or_empty-unless_empty, or_empty-unless_empty)
      (unnamed-rewrite_params (removed_params action.params) (set_by_name [] sets) [] existing)

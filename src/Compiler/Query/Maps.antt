-- ===== src/Compiler/Query/Maps.antt =====
-- The map of set values: its keys stay distinct, and it holds the last value of each name.
use rogatio.Prelude.{◌≡◌, refl, ap, ◌∙◌, Option, some, List, [], ◌∷◌, String, if◌then◌else◌, str_eq}
use rogatio.Prelude.Dict.{get, put}
use rogatio.Prelude.Dict.Laws.{HasDistinctKeys, get-put, put-HasDistinctKeys}
use rogatio.Compiler.Query.{set_by_name}

pub set_by_name-HasDistinctKeys :
    (entries params : List (String × String))
    → HasDistinctKeys entries
    → HasDistinctKeys (set_by_name entries params)
unfolding set_by_name
set_by_name-HasDistinctKeys entries [] h = h
set_by_name-HasDistinctKeys entries ((key, value) ∷ params) h =
    set_by_name-HasDistinctKeys (put key value entries) params
      (put-HasDistinctKeys key value entries h)

-- The value that the last parameter of a name sets.
abbrev pub last_value : String → Option String → List (String × String) → Option String
last_value n found [] = found
last_value n found ((key, value) ∷ params) =
    last_value n (if str_eq key n then some value else found) params

pub get-set_by_name :
    (n : String) (entries params : List (String × String))
    → get n (set_by_name entries params) ≡ last_value n (get n entries) params
unfolding set_by_name
get-set_by_name n entries [] = refl
get-set_by_name n entries ((key, value) ∷ params) =
    get-set_by_name n (put key value entries) params
    ∙ ap (λ found. last_value n found params) (get-put n key value entries)

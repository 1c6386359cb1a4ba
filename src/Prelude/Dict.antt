-- ===== src/Prelude/Dict.antt =====
-- An object used as a dictionary, and a `Map`: entries in order of insertion. Setting a key that is
-- there keeps its place, and a new key comes last.
pub mod Laws
use rogatio.Prelude.Tests.{if◌then◌else◌}
use Prim.Native.String.{String}
use mathlib.Core.List.{List, [], ◌∷◌}
use mathlib.Core.Option.{Option, none, some}
use text.Mathlib.Text.{◌==◌}

module _ {ℓ} {V : Type ℓ} where
  unfoldable pub put : String → V → List (String × V) → List (String × V)
  put key value [] = (key, value) ∷ []
  put key value ((k, v) ∷ entries) =
      let later = put key value entries in if k == key then (k, value) ∷ entries else (k, v) ∷ later

  unfoldable pub get : String → List (String × V) → Option V
  get key [] = none
  get key ((k, v) ∷ entries) = let later = get key entries in if k == key then some v else later

  unfoldable pub delete : String → List (String × V) → List (String × V)
  delete key [] = []
  delete key ((k, v) ∷ entries) =
      let later = delete key entries in if k == key then entries else (k, v) ∷ later

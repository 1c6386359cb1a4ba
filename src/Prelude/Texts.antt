-- ===== src/Prelude/Texts.antt =====
-- Texts: the native `String` where the program only compares whole texts, and a list of UTF-16
-- code units where it walks them.
use Prim.Native.Char.{code}
use Prim.Native.Nat.{ℕ, ◌+◌, ◌-◌, ◌/◌, ◌%◌}
use Prim.Native.String.{String}
use mathlib.Core.Bool.{Bool, true, false, ◌||◌}
use mathlib.Core.List.{List, [], ◌∷◌}
use text.Mathlib.Text.{◌==◌ as str_eq}
use mathlib.Core.Path.{◌≡◌, refl}
use native.Mathlib.Omega.{arith}
use rogatio.Prelude.Tests.{ltb, ◌==◌, if◌then◌else◌}
use rogatio.Prelude.Lists.{length}

abbrev pub Text : Type 0
Text = List ℕ

-- The code units of an ASCII text.
abbrev pub codes : String → Text
codes String.[] = []
codes (String.◌∷◌ c s) = code c ∷ codes s

-- `includes` of an array of strings, and `has` of a `Set`.
abbrev pub includes : List String → String → Bool
includes [] s = false
includes (x ∷ xs) s = str_eq x s || includes xs s

-- The UTF-16 code units of a string, and its `length`.
unfoldable pub utf16 : String → Text
utf16 String.[] = []
utf16 (String.◌∷◌ c s) =
    let later = utf16 s in
    if ltb (code c) 0x10000
    then code c ∷ later
    else (0xd800 + (code c - 0x10000) / 0x400) ∷ (0xdc00 + (code c - 0x10000) % 0x400) ∷ later

unfoldable pub utf16_length : String → ℕ
unfolding utf16
utf16_length s = length (utf16 s)

-- `<` of strings, by code units.
unfoldable pub text_lt : Text → Text → Bool
text_lt t [] = false
text_lt [] (d ∷ u) = true
text_lt (c ∷ t) (d ∷ u) = let later = text_lt t u in if c == d then later else ltb c d

pub text_lt_asymm : (t u : Text) → text_lt t u ≡ true → text_lt u t ≡ false
unfolding text_lt
text_lt_asymm t [] h = cc
text_lt_asymm [] (d ∷ u) h = refl
text_lt_asymm (c ∷ t) (d ∷ u) h = ground (arith, text_lt_asymm t u)

-- Not to come later is transitive.
pub text_lt_cotrans :
    (t u v : Text) → text_lt u t ≡ false → text_lt v u ≡ false → text_lt v t ≡ false
unfolding text_lt
text_lt_cotrans [] u v h k = refl
text_lt_cotrans (c ∷ t) [] v h k = cc
text_lt_cotrans (c ∷ t) (d ∷ u) [] h k = cc
text_lt_cotrans (c ∷ t) (d ∷ u) (e ∷ v) h k = ground (arith, text_lt_cotrans t u v)

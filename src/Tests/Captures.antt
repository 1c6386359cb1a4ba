-- ===== src/Tests/Captures.antt =====
-- Capture templates: "$1", "$$" and a pattern with one group.
use rogatio.Prelude.{◌≡◌, refl, false, Option, none, some, List, [], ◌∷◌, arith}
use rogatio.Prelude.Texts.{Text, codes}
use rogatio.Schema.Captures.{
  count_capturing_groups, validate_capture_template, contains_url_capture_reference,
  substitute_url_captures,
}
use rogatio.Schema.Captures.Groups.{
  occurrences, ReturnsAtMost, count_capturing_groups-ReturnsAtMost,
}
use rogatio.Schema.Captures.Substitution.{AgreeBelow}
use rogatio.Schema.Captures.Escape.{escape, substitute_url_captures-escape}

abbrev pattern_text : Text
pattern_text = codes "^/a/([^/]+)/(?:b|c)$"

abbrev template : Text
template = codes "/z/$1/$$"

abbrev plain : Text
plain = codes "/z/$$1"

abbrev captures : List (Option Text)
captures = some (codes "x") ∷ some (codes "y") ∷ []

abbrev others : List (Option Text)
others = some (codes "x") ∷ none ∷ []

substitute_example : substitute_url_captures template captures ≡ codes "/z/x/$"
unfolding substitute_url_captures
substitute_example = refl

one_group : count_capturing_groups pattern_text ≡ some 1
unfolding count_capturing_groups
one_group = refl

count_capturing_groups-ReturnsAtMost_example :
    ReturnsAtMost (occurrences b'(' pattern_text) (count_capturing_groups pattern_text)
count_capturing_groups-ReturnsAtMost_example = count_capturing_groups-ReturnsAtMost pattern_text

no_reference : contains_url_capture_reference plain ≡ false
unfolding contains_url_capture_reference
no_reference = refl

accepted : validate_capture_template template pattern_text ≡ some []
unfolding validate_capture_template
accepted = refl

agree : AgreeBelow 1 captures others
agree i h = ground (arith, h)

substitute_url_captures-escape_example :
    substitute_url_captures (escape (codes "cost $1")) captures ≡ codes "cost $1"
substitute_url_captures-escape_example = substitute_url_captures-escape (codes "cost $1") captures

-- ===== src/Schema/Captures/Escape.antt =====
-- Writing a text as a template: every `$` doubled.
use rogatio.Prelude.{ℕ, ◌≡◌, ◌≢◌, refl, Option, List, [], ◌∷◌, arith, ◌==◌, if◌then◌else◌}
use rogatio.Prelude.Texts.{Text}
use rogatio.Schema.Captures.{substitute_url_captures}

-- The text that stands for itself as a template.
pub escape : Text → Text
escape [] = []
escape (char ∷ rest) =
    let later = escape rest in if char == b'$' then b'$' ∷ b'$' ∷ later else char ∷ later

substitute_plain :
    (char : ℕ) (rest : Text) (captures : List (Option Text))
    → char ≢ b'$'
    → substitute_url_captures (char ∷ rest) captures ≡ char ∷ substitute_url_captures rest captures
unfolding substitute_url_captures
substitute_plain char [] captures h = refl
substitute_plain char (next ∷ rest) captures h = ground arith

-- An escaped text is substituted to the text itself, whatever was captured.
pub substitute_url_captures-escape :
    (text : Text) (captures : List (Option Text))
    → substitute_url_captures (escape text) captures ≡ text
unfolding escape substitute_url_captures
substitute_url_captures-escape [] captures = refl
substitute_url_captures-escape (char ∷ rest) captures = ground (
  arith,
  substitute_url_captures-escape rest captures,
  substitute_plain char (escape rest) captures,
)

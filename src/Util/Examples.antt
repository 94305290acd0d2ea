-- ===== src/Util/Examples.antt =====
-- Tests of the string functions.
use tavernmx.Common.{ℕ, ◌≡◌, refl, arith, List, [], ◌∷◌, All}
use tavernmx.Common.Text.{Text, lit}
use tavernmx.Util.{tokenize_string, tokenize_loop}
use tavernmx.Util.Tokens.{IsToken}

abbrev command : Text
command = lit "/join  den"

tokens : tokenize_string command b' ' [] ≡ lit "/join" ∷ lit "den" ∷ []
unfolding tokenize_string tokenize_loop
tokens = refl

abbrev words : List (Text × ℕ)
words = (lit "a", 0) ∷ (lit "bc", 1) ∷ []

apart : All (λ p. IsToken b' ' p.0) words
apart = (
  (refl, ((λ e. absurd (omega arith)), tt)),
  ((refl, ((λ e. absurd (omega arith)), ((λ e. absurd (omega arith)), tt))), tt),
)

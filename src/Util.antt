-- ===== src/Util.antt =====
-- src/shared/util.cpp: `tokenize_string` and `str_tolower`.
pub mod Tokens
mod Examples
use tavernmx.Common.{ℕ, Bool, List, [], ◌∷◌, ◌++◌, map, not, ◌&&◌, ◌==◌, if◌then◌else◌}
use tavernmx.Common.Text.{Text, is_empty, tolower}

-- The loop of `tokenize_string`: its variables are the token so far and the output.
unfoldable pub tokenize_loop : ℕ → Text → Text → List Text → Text × List Text
tokenize_loop delimiter [] token output = (token, output)
tokenize_loop delimiter (c ∷ input) token output =
    let cut = tokenize_loop delimiter input [] (output ++ token ∷ []) in
    let grow = tokenize_loop delimiter input (token ++ c ∷ []) output in
    let skip = tokenize_loop delimiter input token output in
    if (c == delimiter) && not (is_empty token)
    then cut
    else if not (c == delimiter)
    then grow
    else skip

unfoldable pub tokenize_string : Text → ℕ → List Text → List Text
unfolding tokenize_loop
tokenize_string [] delimiter output = output
tokenize_string (c ∷ input) delimiter output =
    let (token, out) = tokenize_loop delimiter (c ∷ input) [] output in
    if not (is_empty token) then out ++ token ∷ [] else out

unfoldable pub str_tolower : Text → Text
str_tolower = map tolower

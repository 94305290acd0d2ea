-- ===== src/Util/Tokens.antt =====
-- What `tokenize_string` returns: the maximal runs of characters other than the delimiter.
use native.Mathlib.Decide.{ℕ_discrete}
use tavernmx.Common.{
  replicate, ℕ, zero, suc, ◌≡◌, refl, sym, ap, ◌∙◌, ◌≢◌, false, not, List, [], ◌∷◌, ◌++◌, arith,
  ◌==◌, if◌then◌else◌, append-nil, append_assoc, All, ==_of_eq, ==_of_ne, map,
}
use tavernmx.Common.Text.{Text, is_empty}
use tavernmx.Util.{tokenize_loop, tokenize_string}

-- A run so far followed by the rest of the tokens, if the run is not empty.
abbrev with_run : Text → List Text → List Text
with_run [] ts = ts
with_run (x ∷ xs) ts = (x ∷ xs) ∷ ts

-- The reference: split at every delimiter and leave the empty pieces out. `run` is the piece so far.
unfoldable pub pieces : ℕ → Text → Text → List Text
pieces d run [] = with_run run []
pieces d run (c ∷ cs) =
    let cut = with_run run (pieces d [] cs) in
    let grow = pieces d (run ++ c ∷ []) cs in if c == d then cut else grow

tokenize_loop-pieces :
    (d : ℕ) (input token : Text) (output : List Text)
    → (tokenize_loop d input token output).1 ++ with_run (tokenize_loop d input token output).0 []
      ≡ output ++ pieces d token input
unfolding tokenize_loop pieces
tokenize_loop-pieces d [] token output = refl
tokenize_loop-pieces d (c ∷ input) [] output =
    ground
      (arith, tokenize_loop-pieces d input (c ∷ []) output, tokenize_loop-pieces d input [] output)
tokenize_loop-pieces d (c ∷ input) (t ∷ ts) output = ground (
  arith,
  tokenize_loop-pieces d input [] (output ++ (t ∷ ts) ∷ []),
  tokenize_loop-pieces d input (t ∷ (ts ++ c ∷ [])) output,
  append_assoc output ((t ∷ ts) ∷ []) (pieces d [] input),
)

with_run-append :
    (out : List Text) (run : Text)
    → out ++ with_run run [] ≡ (if not (is_empty run) then out ++ run ∷ [] else out)
with_run-append out [] = append-nil out
with_run-append out (x ∷ xs) = refl

-- For every input, delimiter and previous output, `tokenize_string` appends to the output exactly
-- the non-empty pieces between delimiters, in their order.
pub tokenize_string-pieces :
    (d : ℕ) (input : Text) (output : List Text)
    → tokenize_string input d output ≡ output ++ pieces d [] input
unfolding tokenize_string
tokenize_string-pieces d [] output = unfold pieces in sym (append-nil output)
tokenize_string-pieces d (c ∷ input) output =
    sym (with_run-append _ _) ∙ tokenize_loop-pieces d (c ∷ input) [] output

-- A token: not empty, and without the delimiter.
abbrev pub IsToken : ℕ → Text → Type 0
IsToken d t = (is_empty t ≡ false) × All (λ c. c ≢ d) t

All-snoc {ℓ κ} :
    {A : Type ℓ} (P : A → Type κ) (xs : List A) (y : A) → All P xs → P y → All P (xs ++ y ∷ [])
All-snoc P [] y h p = (p, tt)
All-snoc P (x ∷ xs) y h p = (h.0, All-snoc P xs y h.1 p)

with_run-IsToken :
    (d : ℕ) (run : Text) (ts : List Text)
    → All (λ c. c ≢ d) run
    → All (IsToken d) ts
    → All (IsToken d) (with_run run ts)
with_run-IsToken d [] ts r h = h
with_run-IsToken d (x ∷ xs) ts r h = ((refl, r), h)

pieces-IsToken :
    (d : ℕ) (run input : Text) → All (λ c. c ≢ d) run → All (IsToken d) (pieces d run input)
unfolding pieces
pieces-IsToken d run [] h = with_run-IsToken d run [] h tt
pieces-IsToken d run (c ∷ input) h = elim (ℕ_discrete c d) [
  | yes e ↦ rw (==_of_eq c d e) (with_run-IsToken d run _ h (pieces-IsToken d [] input tt))
  | no ne ↦ rw (==_of_ne c d ne) (pieces-IsToken d (run ++ c ∷ []) input (All-snoc _ run c h ne))
]

-- Tokens, each followed by one delimiter and some number more.
unfoldable pub spaced : ℕ → List (Text × ℕ) → Text
spaced d [] = []
spaced d ((t, k) ∷ rest) = t ++ (replicate (suc k) d ++ spaced d rest)

pub pieces-token :
    (d : ℕ) (run t rest : Text)
    → All (λ c. c ≢ d) t
    → pieces d run (t ++ rest) ≡ pieces d (run ++ t) rest
unfolding pieces
pieces-token d run [] rest h = rw (append-nil run)
pieces-token d run (c ∷ t) rest h = rw (==_of_ne c d h.0) (
    pieces-token d (run ++ c ∷ []) t rest h.1
    ∙ ap (λ q. pieces d q rest) (append_assoc run (c ∷ []) t))

pieces-gap : (d k : ℕ) (rest : Text) → pieces d [] (replicate k d ++ rest) ≡ pieces d [] rest
unfolding pieces
pieces-gap d zero rest = refl
pieces-gap d (suc k) rest = rw (==_of_eq d d refl) (pieces-gap d k rest)

pub pieces-cut :
    (d k : ℕ) (t rest : Text)
    → is_empty t ≡ false
    → pieces d t (replicate (suc k) d ++ rest) ≡ t ∷ pieces d [] rest
unfolding pieces
pieces-cut d k [] rest h = cc
pieces-cut d k (c ∷ t) rest h = rw (==_of_eq d d refl) (ap (◌∷◌ (c ∷ t)) (pieces-gap d k rest))

pieces-spaced :
    (d : ℕ) (ts : List (Text × ℕ))
    → All (λ p. IsToken d p.0) ts
    → pieces d [] (spaced d ts) ≡ map (λ p. p.0) ts
unfolding spaced
pieces-spaced d [] h = unfold pieces in refl
pieces-spaced d ((t, k) ∷ rest) h =
    pieces-token d [] t _ h.0.1
    ∙ pieces-cut d k t (spaced d rest) h.0.0
    ∙ ap (◌∷◌ t) (pieces-spaced d rest h.1)

-- Round trip: any tokens, written with any positive number of delimiters after each and any number
-- in front, are what `tokenize_string` reads back.
pub tokenize_string-spaced :
    (d gap : ℕ) (ts : List (Text × ℕ))
    → All (λ p. IsToken d p.0) ts
    → tokenize_string (replicate gap d ++ spaced d ts) d [] ≡ map (λ p. p.0) ts
tokenize_string-spaced d gap ts h =
    tokenize_string-pieces d _ [] ∙ pieces-gap d gap (spaced d ts) ∙ pieces-spaced d ts h

-- Every string that `tokenize_string` appends is not empty and is free of the delimiter.
pub tokenize_string-IsToken : (d : ℕ) (input : Text) → All (IsToken d) (tokenize_string input d [])
tokenize_string-IsToken d input =
    rw (tokenize_string-pieces d input []) (pieces-IsToken d [] input tt)

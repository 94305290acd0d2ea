-- ===== src/Common/Maps.antt =====
-- `std::unordered_map<std::string, V>` as a list of pairs in which no key occurs twice. The program
-- never depends on the order in which such a map is iterated over.
use mathlib.Core.List.{List, [], ◌∷◌}
use mathlib.Core.Option.{Option, none, some}
use mathlib.Core.Path.{◌≡◌, refl, sym, ◌∙◌}
use mathlib.Core.Logic.{inl, inr}
use mathlib.Core.Bool.{false}
use tavernmx.Common.Tests.{if◌then◌else◌, Bool-cases}
use tavernmx.Common.Text.{Text, text_eq, text_eq-false, text_eq_of, text_ne_of}

module _ {ℓ} {V : Type ℓ} where
  -- `find`: the value under a key.
  unfoldable pub lookup : Text → List (Text × V) → Option V
  lookup k [] = none
  lookup k ((j, v) ∷ ps) = if text_eq j k then some v else lookup k ps

  -- `m[name] = value`
  unfoldable pub put : Text → V → List (Text × V) → List (Text × V)
  put name value [] = (name, value) ∷ []
  put name value ((n, v) ∷ h) =
      if text_eq n name then (name, value) ∷ h else (n, v) ∷ put name value h

  -- What is found after it.
  pub lookup-put :
      (n k : Text) (b : V) (h : List (Text × V))
      → lookup k (put n b h) ≡ (if text_eq n k then some b else lookup k h)
  unfolding put lookup
  lookup-put n k b [] = refl
  lookup-put n k b ((m, c) ∷ h) = elim (Bool-cases (text_eq m n)) [
    | inl e ↦ elim (Bool-cases (text_eq n k)) [
      | inl e' ↦ rw (e, text_eq_of m n e, lookup, e')
      | inr e' ↦ rw (e, text_eq_of m n e, lookup, e')
    ]
    | inr e ↦ elim (Bool-cases (text_eq m k)) [
      | inl e' ↦
          let other : text_eq n k ≡ false =
            text_eq-false n k (λ q. text_ne_of m n e (text_eq_of m k e' ∙ sym q)) in
          rw (e, lookup, e', other)
      | inr e' ↦ rw (e, lookup, e') (lookup-put n k b h)
    ]
  ]

  -- `find` and `erase`
  unfoldable pub erase : Text → List (Text × V) → List (Text × V)
  erase name [] = []
  erase name ((n, v) ∷ h) = if text_eq n name then h else (n, v) ∷ erase name h

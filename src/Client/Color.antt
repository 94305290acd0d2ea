-- ===== src/Client/Color.antt =====
-- `chat_name_to_color` of src/client/client-ui/chatwindow.cpp: the color of a user name. `uint32_t`
-- arithmetic wraps at 2^32. The result is the three channels that are handed to `IM_COL32`.
use tavernmx.Common.{
  ℕ, zero, suc, ◌+◌, ◌-◌, ◌*◌, ◌/◌, ◌%◌, ◌^◌, ◌≤◌, ◌<◌, ◌≡◌, ◌∙◌, Bool, true, false, Option, none,
  some, [], ◌∷◌, arith, ltb, Bool-cases, inl, inr, if◌then◌else◌,
}
use tavernmx.Common.Text.{Text}

unfoldable pub color_too_dark : ℕ → ℕ → ℕ → Bool
color_too_dark r g b = ltb ((r * 299 + g * 587 + b * 114) % 2 ^ 32 / 1000) 128

-- `std::rotl(x, 5)` and `std::rotr(x, n)`
abbrev pub rotl5 : ℕ → ℕ
rotl5 x = x * 2 ^ 5 % 2 ^ 32 + x / 2 ^ 27

abbrev pub rotr : ℕ → ℕ → ℕ
rotr n x = x / 2 ^ n + x % 2 ^ n * 2 ^ (32 - n)

unfoldable pub hash_name : ℕ → Text → ℕ
hash_name hash [] = hash
hash_name hash (c ∷ cs) = hash_name ((c + (rotl5 hash + 2 ^ 32 - hash) % 2 ^ 32) % 2 ^ 32) cs

-- The `while` loop, which has run out of fuel where this is `none`.
unfoldable pub brighten : ℕ → ℕ → ℕ → ℕ → Option (ℕ × ℕ × ℕ)
brighten zero r g b = none
brighten (suc fuel) r g b =
    let rest = brighten fuel (r + 20) (g + 20) (b + 20) in
    if color_too_dark r g b then rest else some (r, g, b)

unfoldable pub chat_name_to_color : ℕ → Text → Option (ℕ × ℕ × ℕ)
chat_name_to_color fuel chat_name =
    let hash = hash_name 0 chat_name in
    brighten fuel (rotr 16 hash % 256) (rotr 8 hash % 256) (hash % 256)

-- The channels after some rounds of the loop, no longer too dark.
abbrev pub IsBright : ℕ → ℕ → ℕ → ℕ → Option (ℕ × ℕ × ℕ) → Type 0
IsBright rounds r g b o =
    (k : ℕ) × (k ≤ rounds)
    × (o ≡ some (r + 20 * k, g + 20 * k, b + 20 * k))
    × (color_too_dark (r + 20 * k) (g + 20 * k) (b + 20 * k) ≡ false)

dark_sum :
    (r g b : ℕ)
    → r ≤ 600
    → g ≤ 600
    → b ≤ 600
    → color_too_dark r g b ≡ true
    → r * 299 + g * 587 + b * 114 < 128000
unfolding color_too_dark
dark_sum r g b hr hg hb d =
    let small : (r * 299 + g * 587 + b * 114) % 2 ^ 32 / 1000 < 128 = ground arith in omega arith

none_added : (x : ℕ) → x ≡ x + 20 * 0
none_added x = omega arith

more : (x k : ℕ) → x + 20 + 20 * k ≡ x + 20 * (k + 1)
more x k = omega arith

stays : (n r g b : ℕ) → color_too_dark r g b ≡ false → IsBright n r g b (some (r, g, b))
stays n r g b light = (
  0,
  omega arith,
  (λ i. some (none_added r i, none_added g i, none_added b i)),
  rw (← none_added r, ← none_added g, ← none_added b) light,
)

brighten-IsBright :
    (n r g b : ℕ)
    → r + 20 * n ≤ 600
    → g + 20 * n ≤ 600
    → b + 20 * n ≤ 600
    → 128000 ≤ r * 299 + g * 587 + b * 114 + 20000 * n
    → IsBright n r g b (brighten (suc n) r g b)
unfolding brighten
brighten-IsBright zero r g b hr hg hb bright = elim (Bool-cases (color_too_dark r g b)) [
  | inr light ↦ rw light (stays zero r g b light)
  | inl dark ↦ absurd (omega (arith, dark_sum r g b (omega arith) (omega arith) (omega arith) dark))
]
brighten-IsBright (suc n) r g b hr hg hb bright = elim (Bool-cases (color_too_dark r g b)) [
  | inr light ↦ rw light (stays (suc n) r g b light)
  | inl dark ↦
      let (k, few, e, light) =
        brighten-IsBright n (r + 20) (g + 20) (b + 20) (omega arith) (omega arith) (omega arith)
          (omega arith) in
      rw dark (
        k + 1,
        omega arith,
        e ∙ (λ i. some (more r k i, more g k i, more b k i)),
        rw (← more r k, ← more g k, ← more b k) light,
      )
]

-- For every name the loop ends after at most 7 rounds: the color is that of the hash, each channel
-- raised by the same multiple of 20, of at most 140; it is not too dark; and so no channel is above
-- 395.
pub chat_name_to_color-IsBright :
    (chat_name : Text)
    → let hash = hash_name 0 chat_name in
      IsBright 7
        (rotr 16 hash % 256)
        (rotr 8 hash % 256)
        (hash % 256)
        (chat_name_to_color 8 chat_name)
unfolding chat_name_to_color
chat_name_to_color-IsBright chat_name =
    let hash = hash_name 0 chat_name in
    brighten-IsBright 7 (rotr 16 hash % 256) (rotr 8 hash % 256) (hash % 256) (omega arith)
      (omega arith) (omega arith) (omega arith)

-- ===== src/Ui/Typed.antt =====
-- The texts that the connect screen accepts (src/client/client-ui/connect.cpp), by their characters.
use tavernmx.Common.{
  ℕ, zero, suc, ◌+◌, ◌-◌, ◌*◌, ◌/◌, ◌%◌, ◌^◌, ◌<◌, ◌≤◌, ◌≡◌, ◌≢◌, ◌↔◌, refl, arith, Bool, true,
  false, Bool-cases, inl, inr, not, ◌||◌, ◌==◌, Option, none, some, Option-cases, List, [], ◌∷◌,
  ◌++◌, ltb, lt→ltb, all_of, All,
}
use tavernmx.Common.Text.{Text, is_empty, isalnum, isdigit, isupper, digits, to_string}
use tavernmx.Ui.Connect.{decimal, stoi, load_certificates, is_host_char}

decimal-append : (n : ℕ) (s t : Text) → decimal n (s ++ t) ≡ decimal (decimal n s) t
unfolding decimal
decimal-append n [] t = refl
decimal-append n (c ∷ s) t = decimal-append (n * 10 + (c - b'0')) s t

decimal-digits : (fuel n : ℕ) → n < fuel → decimal 0 (digits fuel n) ≡ n
unfolding decimal digits
decimal-digits zero n h = absurd (omega arith)
decimal-digits (suc fuel) n h = elim (Bool-cases (ltb n 10)) [
  | inl e ↦ rw e (ground arith)
  | inr e ↦
      let ih : decimal 0 (digits fuel (n / 10)) ≡ n / 10 =
        decimal-digits fuel (n / 10) (ground arith) in
      rw (e, decimal-append 0 (digits fuel (n / 10)) ((n % 10 + b'0') ∷ []), ih) (omega arith)
]

all_of-append :
    (p : ℕ → Bool) (s t : Text) → all_of p s ≡ true → all_of p t ≡ true → all_of p (s ++ t) ≡ true
all_of-append p [] t a b = b
all_of-append p (c ∷ s) t a b = ground (arith, all_of-append p s t)

digits-IsDigits : (fuel n : ℕ) → all_of isdigit (digits fuel n) ≡ true
unfolding digits
digits-IsDigits zero n = refl
digits-IsDigits (suc fuel) n = elim (Bool-cases (ltb n 10)) [
  | inl e ↦ rw e (ground arith)
  | inr e ↦ rw e (
      all_of-append isdigit (digits fuel (n / 10)) ((n % 10 + b'0') ∷ [])
        (digits-IsDigits fuel (n / 10)) (ground arith))
]

append-ne-nil : (s : Text) (c : ℕ) → is_empty (s ++ c ∷ []) ≡ false
append-ne-nil [] c = refl
append-ne-nil (x ∷ s) c = refl

pub to_string-ne-nil : (n : ℕ) → is_empty (to_string n) ≡ false
unfolding to_string digits
to_string-ne-nil n = elim (Bool-cases (ltb n 10)) [
  | inl e ↦ rw e
  | inr e ↦ rw e (append-ne-nil (digits n (n / 10)) (n % 10 + b'0'))
]

pub to_string-IsDigits : (n : ℕ) → all_of isdigit (to_string n) ≡ true
unfolding to_string
to_string-IsDigits n = digits-IsDigits (suc n) n

-- `std::stoi` reads back what `std::to_string` writes of a number below 2^31.
pub stoi-to_string : (n : ℕ) → n < 2 ^ 31 → stoi (to_string n) ≡ some n
unfolding to_string
stoi-to_string n h = rw (decimal-digits (suc n) n (omega arith), lt→ltb n (2 ^ 31) h)

-- One or more characters, each of which passes the test.
abbrev pub IsWord : (ℕ → Bool) → Text → Type 0
IsWord p s = (s ≢ []) × All (λ c. p c ≡ true) s

all_of_iff : (p : ℕ → Bool) (s : Text) → (all_of p s ≡ true) ↔ All (λ c. p c ≡ true) s
all_of_iff p [] = (λ h. tt, λ h. refl)
all_of_iff p (c ∷ s) = (
  λ h. (ground arith, (all_of_iff p s).0 (ground arith)),
  λ h. ground (arith, h.0, (all_of_iff p s).1 h.1),
)

pub IsWord-iff : (p : ℕ → Bool) (s : Text) → ((is_empty s || not (all_of p s)) ≡ false) ↔ IsWord p s
IsWord-iff p [] = (λ h. absurd (cc), λ h. absurd (h.0 refl))
IsWord-iff p (c ∷ s) = (
  λ h. (λ e. cc, (all_of_iff p (c ∷ s)).0 (ground arith)),
  λ h. ground (arith, (all_of_iff p (c ∷ s)).1 h.1),
)

-- The characters that may be typed, by their codes.
pub data IsDigit (c : ℕ) : Type 0 where
  digit : b'0' ≤ c → c ≤ b'9' → IsDigit c

pub data IsAlphanumeric (c : ℕ) : Type 0 where
  numeric : IsDigit c → IsAlphanumeric c
  upper_case : b'A' ≤ c → c ≤ b'Z' → IsAlphanumeric c
  lower_case : b'a' ≤ c → c ≤ b'z' → IsAlphanumeric c

pub data IsHostChar (c : ℕ) : Type 0 where
  alphanumeric : IsAlphanumeric c → IsHostChar c
  dot : c ≡ b'.' → IsHostChar c
  hyphen : c ≡ b'-' → IsHostChar c

pub isdigit_iff : (c : ℕ) → (isdigit c ≡ true) ↔ IsDigit c
isdigit_iff c = (λ h. digit (ground arith) (ground arith), λ d. elim d [ digit l u ↦ ground arith ])

pub isalnum_iff : (c : ℕ) → (isalnum c ≡ true) ↔ IsAlphanumeric c
isalnum_iff c = (
  λ h. elim (Bool-cases (isdigit c)) [
    | inl d ↦ numeric ((isdigit_iff c).0 d)
    | inr d ↦ elim (Bool-cases (isupper c)) [
      | inl u ↦ upper_case (ground arith) (ground arith)
      | inr u ↦ lower_case (ground arith) (ground arith)
    ]
  ],
  λ q. elim q [
    | numeric d ↦ ground (arith, (isdigit_iff c).1 d)
    | upper_case l u ↦ ground arith
    | lower_case l u ↦ ground arith
  ],
)

pub is_host_char_iff : (c : ℕ) → (is_host_char c ≡ true) ↔ IsHostChar c
is_host_char_iff c = (
  λ h. elim (Bool-cases (isalnum c)) [
    | inl a ↦ alphanumeric ((isalnum_iff c).0 a)
    | inr a ↦ elim (Bool-cases (c == b'.')) [
      | inl d ↦ dot (ground arith)
      | inr d ↦ hyphen (ground arith)
    ]
  ],
  λ q. elim q [
    | alphanumeric a ↦ ground (arith, (isalnum_iff c).1 a)
    | dot e ↦ ground arith
    | hyphen e ↦ ground arith
  ],
)

All-map {ℓ κ} :
    {P : ℕ → Type ℓ} {Q : ℕ → Type κ} → ((c : ℕ) → P c → Q c) → (s : Text) → All P s → All Q s
All-map f [] a = tt
All-map f (c ∷ s) a = (f c a.0, All-map f s a.1)

-- One or more characters of a kind.
abbrev pub Consists : (ℕ → Type 0) → Text → Type 0
Consists P s = (s ≢ []) × All P s

pub Consists-iff :
    (p : ℕ → Bool) (P : ℕ → Type 0)
    → ((c : ℕ) → (p c ≡ true) ↔ P c)
    → (s : Text) → ((is_empty s || not (all_of p s)) ≡ false) ↔ Consists P s
Consists-iff p P f s = (
  λ h. let w = (IsWord-iff p s).0 h in (w.0, All-map (λ c. (f c).0) s w.1),
  λ w. (IsWord-iff p s).1 (w.0, All-map (λ c. (f c).1) s w.1),
)

pub load_certificates_iff :
    (load : Text → Option Text) (paths : List Text)
    → (load_certificates load paths ≡ none) ↔ All (λ path. load path ≡ none) paths
unfolding load_certificates
load_certificates_iff load [] = (λ h. tt, λ a. refl)
load_certificates_iff load (c ∷ cs) = elim (Option-cases (load c)) [
  | inl e ↦ (
    λ h. (e, (load_certificates_iff load cs).0 (rw (load_certificates, e) at h)),
    λ a. rw (load_certificates, e) ((load_certificates_iff load cs).1 a.1),
  )
  | inr (x, e) ↦ (λ h. absurd (cc (rw (load_certificates, e) at h)), λ a. absurd (cc (e, a.0)))
]

-- ===== src/Client/Commands.antt =====
-- What a submitted line sends, and the labels of the room list.
use tavernmx.Common.{
  ℕ, zero, suc, ◌+◌, ◌≤◌, ◌≡◌, ◌≢◌, ◌∙◌, refl, sym, ap, true, false, none, some, List, [], ◌∷◌,
  ◌++◌, replicate, length, arith, get_elem?, set, append-nil, ◌==◌, ==_of_ne, Bool-cases,
  Option-cases, ◌⊎◌, length-set, length-replicate, inl, inr, if◌then◌else◌,
}
use tavernmx.Common.Text.{Text, lit, text_eq, text_eq_refl, is_empty, tolower}
use tavernmx.Common.Result.{ok}
use tavernmx.Json.{Json}
use tavernmx.Messaging.{create_room_create}
use tavernmx.Rooms.{is_valid_room_name}
use tavernmx.Util.{tokenize_string, str_tolower}
use tavernmx.Util.Tokens.{IsToken, pieces, pieces-token, pieces-cut, tokenize_string-pieces}
use tavernmx.Client.{room_label, copy_string, write}
use tavernmx.Client.Update.{Client, send, clear_input, submit_text, run_command}

-- A line that starts with another character than the delimiter has a first token.
pieces-head :
    (d : ℕ) (run input : Text)
    → is_empty run ≡ false
    → (t : Text) × (ts : List Text) × (pieces d run input ≡ t ∷ ts)
unfolding pieces
pieces-head d [] input h = absurd (cc)
pieces-head d (r ∷ run) [] h = (_, _, refl)
pieces-head d (r ∷ run) (c ∷ input) h = elim (Bool-cases (c == d)) [
  | inl e ↦ rw e (_, _, refl)
  | inr e ↦ rw e (pieces-head d (r ∷ (run ++ c ∷ [])) input refl)
]

first_token :
    (d c : ℕ) (rest : Text)
    → c ≢ d
    → (t : Text) × (ts : List Text) × (tokenize_string (c ∷ rest) d [] ≡ t ∷ ts)
first_token d c rest ne =
    let (t, ts, e) = pieces-head d (c ∷ []) rest refl in
    let start : pieces d [] (c ∷ rest) ≡ pieces d (c ∷ []) rest =
      unfold pieces in rw (==_of_ne c d ne) refl in
    (t, ts, tokenize_string-pieces d (c ∷ rest) [] ∙ start ∙ e)

last_token : (d : ℕ) (name : Text) → IsToken d name → pieces d [] name ≡ name ∷ []
last_token d [] h = absurd (cc (h.0))
last_token d (c ∷ name) h =
    ap (pieces d []) (sym (append-nil (c ∷ name)))
    ∙ pieces-token d [] (c ∷ name) [] h.1
    ∙ unfold pieces in refl

-- A command with one argument is two tokens.
two_tokens :
    (d k : ℕ) (command name : Text)
    → IsToken d command
    → IsToken d name
    → tokenize_string (command ++ (replicate (suc k) d ++ name)) d [] ≡ command ∷ name ∷ []
two_tokens d k command name hc hn =
    tokenize_string-pieces d _ []
    ∙ pieces-token d [] command _ hc.1
    ∙ pieces-cut d k command name hc.0
    ∙ ap (◌∷◌ command) (last_token d name hn)

slash_lowered : (c : ℕ) → tolower c ≡ b'/' → (c == b'/') ≡ true
slash_lowered c h = ground arith

module _ (json : Json) where
  open json use {Value}

  -- Submitting a line never reads a token that is not there, whatever the line, the rooms and the
  -- selection: it always returns.
  pub submit_total :
      (typed : Text) (c : Client Value) → (d : Client Value) × (submit_text json typed c ≡ ok d)
  unfolding submit_text
  submit_total [] c = (c, refl)
  submit_total (first ∷ rest) c = elim (Bool-cases (first == b'/')) [
    | inl command ↦
        let (t, ts, e) = first_token b' ' first rest (λ q. absurd (ground arith)) in
        rw (command, e) (_, refl)
    | inr chat ↦ elim (Bool-cases (is_empty c.screen.current_room_name)) [
      | inl nowhere ↦ rw (chat, nowhere) (_, refl)
      | inr room ↦ rw (chat, room) (_, refl)
    ]
  ]

  run_create :
      (command t name : Text) (c : Client Value)
      → text_eq command (lit "/create_room") ≡ true
      → run_command json command (t ∷ name ∷ []) c
        ≡ (if is_valid_room_name name then send (create_room_create json name) c else c)
  unfolding run_command
  run_create command t name c e = rw e

  -- The command `/create_room`, in any mixture of cases, followed by any positive number of spaces and
  -- a room name, sends one ROOM_CREATE for that name if the name is valid and nothing otherwise; in
  -- either case the input is cleared.
  pub create_command :
      (k : ℕ) (command name : Text) (c : Client Value)
      → str_tolower command ≡ lit "/create_room"
      → IsToken b' ' command
      → IsToken b' ' name
      → submit_text json (command ++ (replicate (suc k) b' ' ++ name)) c
        ≡ ok (
            clear_input
              (if is_valid_room_name name then send (create_room_create json name) c else c))
  unfolding submit_text str_tolower
  create_command k [] name c l hc hn = absurd (cc)
  create_command k (x ∷ command) name c l hc hn =
      let slash : (x == b'/') ≡ true = slash_lowered x (cc) in
      rw (slash, two_tokens b' ' k (x ∷ command) name hc hn)
        (ap (λ d. ok (clear_input d))
          (run_create _ (x ∷ command) name c (rw l (text_eq_refl (lit "/create_room")))))

get_elem-past : (a : List ℕ) (i : ℕ) → length a ≤ i → get_elem? a i ≡ none
get_elem-past [] i h = refl
get_elem-past (x ∷ a) zero h = absurd (omega arith)
get_elem-past (x ∷ a) (suc i) h = get_elem-past a i (omega arith)

write-cases :
    (a : List ℕ) (i c : ℕ) → (write (some a) i c ≡ none) ⊎ (write (some a) i c ≡ some (set a i c))
write-cases a i c = elim (Option-cases (get_elem? a i)) [
  | inl gone ↦ inl (rw gone)
  | inr (x, found) ↦ inr (rw found)
]

copy_nowhere : (i : ℕ) (s : Text) → copy_string none i s ≡ none
unfolding copy_string
copy_nowhere i [] = refl
copy_nowhere i (c ∷ s) = copy_nowhere (i + 1) s

-- An array that ends where the NUL belongs.
copy_overflows :
    (a : List ℕ) (i : ℕ) (s : Text) → length a ≡ i + length s → copy_string (some a) i s ≡ none
unfolding copy_string
copy_overflows a i [] h = rw (get_elem-past a i (omega arith)) refl
copy_overflows a i (c ∷ s) h = elim (write-cases a i c) [
  | inl out ↦ rw out (copy_nowhere (i + 1) s)
  | inr wrote ↦ rw wrote (copy_overflows (set a i c) (i + 1) s (omega (arith, length-set a i c)))
]

-- Writing the label of a room always goes past the end of the array that `update_rooms` allocates for
-- it, whatever the name: the array has one byte for each character and one more, and `#`, the
-- characters and the terminating NUL need two more.
pub label_overflows : (name : Text) → room_label name ≡ none
unfolding room_label
label_overflows name = elim (write-cases (replicate (length name + 1) 0) 0 b'#') [
  | inl out ↦ ap (λ a. copy_string a 1 name) out ∙ copy_nowhere 1 name
  | inr wrote ↦
      ap (λ a. copy_string a 1 name) wrote
      ∙ copy_overflows (set (replicate (length name + 1) 0) 0 b'#') 1 name (
          length-set (replicate (length name + 1) 0) 0 b'#'
          ∙ length-replicate (length name + 1) 0
          ∙ omega arith)
]

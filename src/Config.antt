-- ===== src/Config.antt =====
-- What the two configuration files share: src/server/serverconfiguration.cpp and
-- src/client/clientconfiguration.cpp. The children are the two classes.
pub mod Server
pub mod Client
mod Examples
use tavernmx.Common.{
  ℕ, ◌-◌, ◌%◌, ◌^◌, ◌≡◌, refl, subst, arith, Bool, true, false, Option, none, some, List, [], ◌∷◌,
  if◌then◌else◌,
}
use tavernmx.Common.Int.{ℤ, pos, negsuc}
use tavernmx.Common.Text.{Text, is_empty}
use tavernmx.Common.Result.{
  Result, ok, err, Error, parse_error, type_error, transport_error, ssl_error, undefined,
  server_error, client_error, ◌>>=◌, bind_ok, bind_inv, ok_inj,
}
use tavernmx.Json.{Json, at, or_type_error, value_int, value_text}

-- The file at the path: whether it can be opened, and its value if it can be parsed.
pub record ConfigFile (V : Type 0) : Type 0 where
  pub good : Bool
  pub value : Option V

abbrev pub parse : {V : Type 0} → Option V → Result V
parse none = err parse_error
parse (some v) = ok v

-- The `catch` of both constructors.
abbrev pub catch_parse_error {ℓ} : {A : Type ℓ} → Error → Result A → Result A
catch_parse_error e (ok a) = ok a
catch_parse_error e (err parse_error) = err e
catch_parse_error e (err other) = err other

pub catch_inv {ℓ} :
    {A : Type ℓ} (e : Error) (r : Result A) {a : A} → catch_parse_error e r ≡ ok a → r ≡ ok a
catch_inv e (ok b) h = h
catch_inv e (err type_error) h = absurd (cc)
catch_inv e (err parse_error) h = absurd (cc)
catch_inv e (err transport_error) h = absurd (cc)
catch_inv e (err ssl_error) h = absurd (cc)
catch_inv e (err undefined) h = absurd (cc)
catch_inv e (err (server_error t)) h = absurd (cc)
catch_inv e (err (client_error t)) h = absurd (cc)

pub parse_inv : {V : Type 0} (o : Option V) {v : V} → parse o ≡ ok v → o ≡ some v
parse_inv none h = absurd (cc)
parse_inv (some w) h = cc

-- `if (!log_file.empty()) this->log_file = log_file`
abbrev pub none_if_empty : Text → Option Text
none_if_empty s = if is_empty s then none else some s

-- An `int32_t` as a `uint32_t`.
abbrev pub wrap_u32 : ℤ → ℕ
wrap_u32 (pos n) = n % 2 ^ 32
wrap_u32 (negsuc n) = 2 ^ 32 - 1 - n % 2 ^ 32

abbrev pub or_error {ℓ} : {A : Type ℓ} → Error → Option A → Result A
or_error e none = err e
or_error e (some a) = ok a

module _ (json : Json) where
  open json use {Value}

  -- A value that has to be a string, or the exception `e` is thrown.
  unfoldable pub required_text : Error → Value → Text → Result Text
  required_text e v k = do x ← at json v k; or_error e (json.get_text x)

  -- The strings of an array, each converted in its turn.
  unfoldable pub texts_of : List Value → Result (List Text)
  texts_of [] = ok []
  texts_of (x ∷ xs) = do s ← or_type_error (json.get_text x); rest ← texts_of xs; ok (s ∷ rest)

  -- An object has no such key or has an integer there, and `n` is what it says or the default.
  abbrev pub SaysInt : Option Value → ℤ → ℤ → Type 0
  SaysInt none d n = d ≡ n
  SaysInt (some x) d n = json.get_int x ≡ some n

  abbrev pub SaysText : Option Value → Text → Text → Type 0
  SaysText none d s = d ≡ s
  SaysText (some x) d s = json.get_text x ≡ some s

  -- The values are strings, and these are they.
  abbrev pub AreTexts : List Value → List Text → Type 0
  AreTexts [] [] = Unit
  AreTexts (x ∷ xs) (s ∷ ss) = (json.get_text x ≡ some s) × AreTexts xs ss
  AreTexts _ _ = ⊥

  pub value_int_inv :
      (v : Value) (k : Text) (d n : ℤ)
      → value_int json v k d ≡ ok n
      → (json.is_object v ≡ true) × SaysInt (json.field v k) d n
  value_int_inv v k d n h = ground arith

  pub value_int_ok :
      (v : Value) (k : Text) (d n : ℤ)
      → json.is_object v ≡ true
      → SaysInt (json.field v k) d n
      → value_int json v k d ≡ ok n
  value_int_ok v k d n o h = ground arith

  pub value_text_inv :
      (v : Value) (k d s : Text)
      → value_text json v k d ≡ ok s
      → (json.is_object v ≡ true) × SaysText (json.field v k) d s
  value_text_inv v k d s h = ground arith

  pub value_text_ok :
      (v : Value) (k d s : Text)
      → json.is_object v ≡ true
      → SaysText (json.field v k) d s
      → value_text json v k d ≡ ok s
  value_text_ok v k d s o h = ground arith

  pub at_inv :
      (v : Value) (k : Text) {x : Value}
      → at json v k ≡ ok x
      → (json.is_object v ≡ true) × (json.field v k ≡ some x)
  at_inv v k h = ground arith

  pub at_ok :
      (v : Value) (k : Text) {x : Value}
      → json.is_object v ≡ true
      → json.field v k ≡ some x
      → at json v k ≡ ok x
  at_ok v k o h = ground arith

  pub required_text_inv :
      (e : Error) (v : Value) (k : Text) {s : Text}
      → required_text e v k ≡ ok s
      → (x : Value) × (json.field v k ≡ some x) × (json.get_text x ≡ some s)
  unfolding required_text
  required_text_inv e v k h =
      let (x, p, q) = bind_inv (at json v k) _ h in (x, (at_inv v k p).1, ground arith)

  pub required_text_ok :
      (e : Error) (v : Value) (k : Text) {s : Text} (x : Value)
      → json.is_object v ≡ true
      → json.field v k ≡ some x
      → json.get_text x ≡ some s
      → required_text e v k ≡ ok s
  unfolding required_text
  required_text_ok e v k x o f t = bind_ok _ (at_ok v k o f) (rw t)

  pub texts_of_inv : (xs : List Value) (ss : List Text) → texts_of xs ≡ ok ss → AreTexts xs ss
  unfolding texts_of
  texts_of_inv [] [] h = tt
  texts_of_inv [] (s ∷ ss) h = absurd (cc)
  texts_of_inv (x ∷ xs) ss h =
      let (s, p, q) = bind_inv (or_type_error (json.get_text x)) _ h in
      let (rest, r, e) = bind_inv (texts_of xs) _ q in
      let read : AreTexts (x ∷ xs) (s ∷ rest) = (ground (arith, p), texts_of_inv xs rest r) in
      subst (AreTexts (x ∷ xs)) (ok_inj e) read

  pub texts_of_ok : (xs : List Value) (ss : List Text) → AreTexts xs ss → texts_of xs ≡ ok ss
  unfolding texts_of
  texts_of_ok [] [] h = refl
  texts_of_ok [] (s ∷ ss) h = absurd h
  texts_of_ok (x ∷ xs) [] h = absurd h
  texts_of_ok (x ∷ xs) (s ∷ ss) h = rw (h.0, texts_of_ok xs ss h.1)

  pub required_text_missing :
      (e : Error) (v : Value) (k : Text)
      → json.is_object v ≡ true
      → json.field v k ≡ none
      → required_text e v k ≡ err undefined
  unfolding required_text
  required_text_missing e v k o f = rw (o, f)

  pub required_text_other :
      (e : Error) (v : Value) (k : Text) (x : Value)
      → json.is_object v ≡ true
      → json.field v k ≡ some x
      → json.get_text x ≡ none
      → required_text e v k ≡ err e
  unfolding required_text
  required_text_other e v k x o f t = rw (o, f, t)

-- ===== src/Json.antt =====
-- The JSON library (nlohmann::json) as the program uses it: a type of values, the calls that the
-- program makes, and the documented laws that it relies on. The library is not part of the
-- repository, so every definition that handles JSON takes it as an argument.
pub mod Sample
use mathlib.Core.Option
use tavernmx.Common.{
  ℕ, ◌<◌, ◌≡◌, Bool, true, false, not, Option, none, some, List, [], ◌∷◌, ◌++◌, length,
  if◌then◌else◌,
}
unfoldable pub use tavernmx.Common.Maps.{lookup}
use tavernmx.Common.Int.{ℤ, to_int32}
use tavernmx.Common.Text.{Text, text_eq}
use tavernmx.Common.Result.{Result, ok, err, type_error, undefined}

abbrev pub is_some {ℓ} : {A : Type ℓ} → Option A → Bool
is_some none = false
is_some (some x) = true

pub record Json : Type 1 where
  pub Value : Type 0
  pub null : Value
  -- `json::array()`
  pub array : Value
  -- A value from an initializer list of pairs; `json::object()` is that of no pairs.
  pub object_of : List (Text × Value) → Value
  pub of_text : Text → Value
  pub of_int : ℤ → Value
  pub is_null : Value → Bool
  pub is_object : Value → Bool
  pub is_array : Value → Bool
  pub is_primitive : Value → Bool
  -- What an object holds under a key; `none` if the key is absent, and for other values.
  pub field : Value → Text → Option Value
  -- `v[key] = x`, which makes an object of a null value; `none` where it throws a type error.
  pub set_field : Value → Text → Value → Option Value
  -- `push_back`; `none` where it throws a type error.
  pub push_back : Value → Value → Option Value
  -- The values that `items()` and a range-based `for` visit.
  pub elements : Value → List Value
  -- `get<std::string>()` and `get<int32_t>()`; `none` where they throw a type error. The latter
  -- converts every number, and a Boolean.
  pub get_text : Value → Option Text
  pub get_int : Value → Option ℤ
  pub to_msgpack : Value → List ℕ
  -- `none` where it throws a parse error.
  pub from_msgpack : List ℕ → Option Value
  pub is_object-object_of : (ps : List (Text × Value)) → is_object (object_of ps) ≡ true
  pub field-object_of : (ps : List (Text × Value)) (k : Text) → field (object_of ps) k ≡ lookup k ps
  pub is_array-array : is_array array ≡ true
  pub elements-array : elements array ≡ []
  pub push_back-array :
      (v x : Value)
      → is_array v ≡ true
      → (w : Value) × (push_back v x ≡ some w)
        × (is_array w ≡ true)
        × (elements w ≡ elements v ++ x ∷ [])
  pub set_field-object :
      (v : Value) (k : Text) (x : Value)
      → is_object v ≡ true
      → (w : Value) × (set_field v k x ≡ some w)
        × (is_object w ≡ true)
        × ((j : Text) → field w j ≡ (if text_eq k j then some x else field v j))
  pub set_field-null :
      (k : Text) (x : Value) → (w : Value) × (set_field null k x ≡ some w) × (is_object w ≡ true)
  pub field-other : (v : Value) (k : Text) → is_object v ≡ false → field v k ≡ none
  pub get_text-of_text : (s : Text) → get_text (of_text s) ≡ some s
  pub primitive-of_text :
      (s : Text) → (is_primitive (of_text s) ≡ true) × (is_null (of_text s) ≡ false)
  pub get_int-of_int : (n : ℤ) → to_int32 n ≡ n → get_int (of_int n) ≡ some n
  pub primitive-of_int : (n : ℤ) → (is_primitive (of_int n) ≡ true) × (is_null (of_int n) ≡ false)
  pub from_msgpack-to_msgpack : (v : Value) → from_msgpack (to_msgpack v) ≡ some v
  pub to_msgpack_pos : (v : Value) → 0 < length (to_msgpack v)

abbrev pub or_type_error {ℓ} : {A : Type ℓ} → Option A → Result A
or_type_error none = err type_error
or_type_error (some a) = ok a

abbrev pub or_undefined {ℓ} : {A : Type ℓ} → Option A → Result A
or_undefined none = err undefined
or_undefined (some a) = ok a

module _ (json : Json) where
  abbrev pub contains : json.Value → Text → Bool
  contains v k = is_some (json.field v k)

  -- `operator[]` of a constant value: a type error unless it is an object, and undefined behaviour
  -- for an absent key.
  abbrev pub at : json.Value → Text → Result json.Value
  at v k = if json.is_object v then or_undefined (json.field v k) else err type_error

  -- `value(key, default)`: a type error unless it is an object.
  abbrev default_int : ℤ → Option json.Value → Result ℤ
  default_int d none = ok d
  default_int d (some v) = or_type_error (json.get_int v)

  abbrev pub value_int : json.Value → Text → ℤ → Result ℤ
  value_int v k d = if json.is_object v then default_int d (json.field v k) else err type_error

  abbrev default_text : Text → Option json.Value → Result Text
  default_text d none = ok d
  default_text d (some v) = or_type_error (json.get_text v)

  abbrev pub value_text : json.Value → Text → Text → Result Text
  value_text v k d = if json.is_object v then default_text d (json.field v k) else err type_error

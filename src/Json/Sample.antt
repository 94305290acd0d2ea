-- ===== src/Json/Sample.antt =====
-- A JSON library for the tests: a value is its own encoding, a tag followed by its content, and the
-- content of an array or an object is a sequence of chunks, each preceded by its length.
use tavernmx.Common.{
  ℕ, zero, suc, map, ◌≤◌, ◌≡◌, ◌∙◌, refl, sym, ap, Bool, true, false, not, ◌||◌, Option, none, some,
  List, [], ◌∷◌, ◌++◌, arith, length-append, take, drop, length, ◌==◌, Bool-cases, inl, inr,
  if◌then◌else◌,
}
use tavernmx.Common.Int.{ℤ, pos, negsuc}
use tavernmx.Common.Text.{Text, text_eq, text_eq_of, text_ne_of, text_eq-false}
use tavernmx.Json.{Json, lookup}

abbrev pub Chunk : Type 0
Chunk = List ℕ

abbrev pub join_chunks : List Chunk → List ℕ
join_chunks [] = []
join_chunks (x ∷ xs) = length x ∷ x ++ join_chunks xs

abbrev pub split_chunks : ℕ → List ℕ → List Chunk
split_chunks zero bytes = []
split_chunks (suc n) [] = []
split_chunks (suc n) (k ∷ bytes) = take k bytes ∷ split_chunks n (drop k bytes)

abbrev pub chunks : List ℕ → List Chunk
chunks bytes = split_chunks (length bytes) bytes

take-front :
    (xs ys : List ℕ) → (take (length xs) (xs ++ ys) ≡ xs) × (drop (length xs) (xs ++ ys) ≡ ys)
take-front [] ys = (refl, refl)
take-front (x ∷ xs) ys = let (t, d) = take-front xs ys in (ap (◌∷◌ x) t, d)

split-join :
    (n : ℕ) (xs : List Chunk) → length (join_chunks xs) ≤ n → split_chunks n (join_chunks xs) ≡ xs
split-join zero [] h = refl
split-join (suc n) [] h = refl
split-join zero (x ∷ xs) h = absurd (omega arith)
split-join (suc n) (x ∷ xs) h =
    let (front, back) = take-front x (join_chunks xs) in
    let fits : length (join_chunks xs) ≤ n = omega (arith, length-append x (join_chunks xs)) in
    rw (front, back) (ap (◌∷◌ x) (split-join n xs fits))

pub chunks-join : (xs : List Chunk) → chunks (join_chunks xs) ≡ xs
chunks-join xs = split-join _ xs (omega arith)

abbrev pub of_pairs : List (Text × Chunk) → List Chunk
of_pairs [] = []
of_pairs ((k, v) ∷ ps) = k ∷ v ∷ of_pairs ps

abbrev pub to_pairs : List Chunk → List (Text × Chunk)
to_pairs [] = []
to_pairs (k ∷ []) = []
to_pairs (k ∷ v ∷ xs) = (k, v) ∷ to_pairs xs

to_pairs-of_pairs : (ps : List (Text × Chunk)) → to_pairs (of_pairs ps) ≡ ps
to_pairs-of_pairs [] = refl
to_pairs-of_pairs ((k, v) ∷ ps) = ap (◌∷◌ (k, v)) (to_pairs-of_pairs ps)

abbrev pub put_pair : Text → Chunk → List (Text × Chunk) → List (Text × Chunk)
put_pair k x [] = (k, x) ∷ []
put_pair k x ((j, v) ∷ ps) = if text_eq j k then (j, x) ∷ ps else (j, v) ∷ put_pair k x ps

pub lookup-put_pair :
    (k j : Text) (x : Chunk) (ps : List (Text × Chunk))
    → lookup j (put_pair k x ps) ≡ (if text_eq k j then some x else lookup j ps)
unfolding lookup
lookup-put_pair k j x [] = refl
lookup-put_pair k j x ((i, v) ∷ ps) = elim (Bool-cases (text_eq i k)) [
  | inl e ↦ elim (Bool-cases (text_eq k j)) [
    | inl e' ↦ rw (e, text_eq_of i k e, lookup, e')
    | inr e' ↦ rw (e, text_eq_of i k e, lookup, e')
  ]
  | inr e ↦ elim (Bool-cases (text_eq i j)) [
    | inl e' ↦
        let other : text_eq k j ≡ false =
          text_eq-false k j (λ q. text_ne_of i k e (text_eq_of i j e' ∙ sym q)) in
        rw (e, lookup, e', other)
    | inr e' ↦ rw (e, lookup, e') (lookup-put_pair k j x ps)
  ]
]

-- The tags: 1 a string, 2 and 3 an integer, 4 an array, 5 an object; no tag is the null value.
abbrev pub text_of : Chunk → Option Text
text_of [] = none
text_of (t ∷ s) = if t == 1 then some s else none

abbrev pub int_of : Chunk → Option ℤ
int_of (t ∷ n ∷ []) = if t == 2 then some (pos n) else if t == 3 then some (negsuc n) else none
int_of _ = none

abbrev pub of_int : ℤ → Chunk
of_int (pos n) = 2 ∷ n ∷ []
of_int (negsuc n) = 3 ∷ n ∷ []

abbrev pub has_tag : ℕ → Chunk → Bool
has_tag t [] = false
has_tag t (u ∷ s) = u == t

abbrev pub has_no_tag : Chunk → Bool
has_no_tag [] = true
has_no_tag (t ∷ s) = false

abbrev pub content : Chunk → List Chunk
content [] = []
content (t ∷ s) = chunks s

abbrev pub object : List (Text × Chunk) → Chunk
object ps = 5 ∷ join_chunks (of_pairs ps)

abbrev pub array : List Chunk → Chunk
array xs = 4 ∷ join_chunks xs

abbrev pub pairs : Chunk → List (Text × Chunk)
pairs v = to_pairs (content v)

pub pairs-object : (ps : List (Text × Chunk)) → pairs (object ps) ≡ ps
pairs-object ps = ap to_pairs (chunks-join (of_pairs ps)) ∙ to_pairs-of_pairs ps

pub get_int_of : (n : ℤ) → int_of (of_int n) ≡ some n
get_int_of (pos n) = refl
get_int_of (negsuc n) = refl

pub primitive_int :
    (n : ℤ)
    → (not (has_tag 4 (of_int n) || has_tag 5 (of_int n)) ≡ true) × (has_no_tag (of_int n) ≡ false)
primitive_int (pos n) = (refl, refl)
primitive_int (negsuc n) = (refl, refl)

abbrev pub put_field : Chunk → Text → Chunk → Option Chunk
put_field v k x =
    if has_tag 5 v || has_no_tag v then some (object (put_pair k x (pairs v))) else none

abbrev pub add_element : Chunk → Chunk → Option Chunk
add_element v x = if has_tag 4 v || has_no_tag v then some (array (content v ++ x ∷ [])) else none

abbrev pub visited : Chunk → List Chunk
visited v =
    if has_tag 4 v
    then content v
    else if has_tag 5 v
    then map (λ p. p.1) (pairs v)
    else if has_no_tag v
    then []
    else v ∷ []

abbrev pub get_pair : Chunk → Text → Option Chunk
get_pair v k = if has_tag 5 v then lookup k (pairs v) else none

abbrev pub unpack : List ℕ → Option Chunk
unpack [] = none
unpack (b ∷ v) = some v

abbrev pub sample_json : Json
sample_json = record {
  Value = Chunk;
  null = [];
  array = array [];
  object_of = object;
  of_text = λ s. 1 ∷ s;
  of_int = of_int;
  is_null = has_no_tag;
  is_object = has_tag 5;
  is_array = has_tag 4;
  is_primitive = λ v. not (has_tag 4 v || has_tag 5 v);
  field = get_pair;
  set_field = put_field;
  push_back = add_element;
  elements = visited;
  get_text = text_of;
  get_int = int_of;
  to_msgpack = λ v. 0 ∷ v;
  from_msgpack = unpack;
  is_object-object_of = λ ps. refl;
  field-object_of = λ ps k. ap (lookup k) (pairs-object ps);
  is_array-array = refl;
  elements-array = chunks-join [];
  push_back-array =
      λ v x h. (array (content v ++ x ∷ []), rw h, refl, rw h (chunks-join (content v ++ x ∷ [])));
  set_field-object = λ v k x h. (
    object (put_pair k x (pairs v)),
    rw h,
    refl,
    λ j. rw (pairs-object (put_pair k x (pairs v)), h) (lookup-put_pair k j x (pairs v)),
  );
  set_field-null = λ k x. (object (put_pair k x []), refl, refl);
  field-other = λ v k h. rw h;
  get_text-of_text = λ s. refl;
  primitive-of_text = λ s. (refl, refl);
  get_int-of_int = λ n h. get_int_of n;
  primitive-of_int = primitive_int;
  from_msgpack-to_msgpack = λ v. refl;
  to_msgpack_pos = λ v. omega arith;
}

-- ===== src/Property/Types.antt =====
-- The C++ types of properties: `property::value_type_id` and the functions `get` of
-- include/mqtt/properties.h and src/properties.cpp.
use paho_mqtt_cpp.Prelude.{
  ℕ, ◌<◌, ◌^◌, ◌≡◌, ◌⊎◌, inl, inr, refl, true, false, Bool, Option, none, some, Str, ℤ, arith,
}
use paho_mqtt_cpp.Buffer.{to_c_int}
use paho_mqtt_cpp.Property.{
  PropertyType, byte, two_byte_integer, four_byte_integer, variable_byte_integer, binary_data,
  utf_8_encoded_string, utf_8_string_pair, LenString, Value, byte_value, integer2, integer4, text,
  pair, Property, to_unsigned, new_number, new_text, new_pair, copy, copied_as, copy_block, block,
  number_value, string_of, get_byte, get_integer2, get_integer4, get_string, get_string_pair,
}

-- What `typeid` tells apart; `binary` is `string`, and `int` is `int32_t`.
pub data TypeId : Type 0 where
  uint8_t uint16_t uint32_t string string_pair int : TypeId

pub data Got : Type 0 where
  unsigned : ℕ → Got
  signed : ℤ → Got
  one : Str → Got
  two : Str → Str → Got

abbrev pub type_id : Option PropertyType → TypeId
type_id (some byte) = uint8_t
type_id (some two_byte_integer) = uint16_t
type_id (some four_byte_integer) = uint32_t
type_id (some variable_byte_integer) = uint32_t
type_id (some binary_data) = string
type_id (some utf_8_encoded_string) = string
type_id (some utf_8_string_pair) = string_pair
type_id none = int

-- `value_type_id`
unfoldable pub value_type_id : (ℕ → Option PropertyType) → Property → TypeId
value_type_id type_of p = type_id (type_of p.identifier)

abbrev pub map_got : {A : Type 0} → (A → Got) → Option A → Option Got
map_got f none = none
map_got f (some a) = some (f a)

-- The specialization of `get` for a type; `none` reads another member of the union.
unfoldable pub get : TypeId → Property → Option Got
unfolding get_byte get_integer2 get_integer4 get_string get_string_pair
get uint8_t p = map_got unsigned (get_byte p)
get uint16_t p = map_got unsigned (get_integer2 p)
get uint32_t p = map_got unsigned (get_integer4 p)
get string p = map_got one (get_string p)
get string_pair p = map_got (λ (a, b). two a b) (get_string_pair p)
get int p = map_got (λ n. signed (to_c_int n)) (get_integer4 p)

-- A value of the member that a type has, in its range.
pub data Fits : Option PropertyType → Value → Type 0 where
  fits_byte : (n : ℕ) → n < 2 ^ 8 → Fits (some byte) (byte_value n)
  fits_two_byte : (n : ℕ) → n < 2 ^ 16 → Fits (some two_byte_integer) (integer2 n)
  fits_four_byte : (n : ℕ) → n < 2 ^ 32 → Fits (some four_byte_integer) (integer4 n)
  fits_variable : (n : ℕ) → n < 2 ^ 32 → Fits (some variable_byte_integer) (integer4 n)
  fits_binary : (t : LenString) → Fits (some binary_data) (text t)
  fits_string : (t : LenString) → Fits (some utf_8_encoded_string) (text t)
  fits_pair : (s t : LenString) → Fits (some utf_8_string_pair) (pair s t)

-- The values of a C++ type.
pub data Has : TypeId → Got → Type 0 where
  has_uint8 : (n : ℕ) → n < 2 ^ 8 → Has uint8_t (unsigned n)
  has_uint16 : (n : ℕ) → n < 2 ^ 16 → Has uint16_t (unsigned n)
  has_uint32 : (n : ℕ) → n < 2 ^ 32 → Has uint32_t (unsigned n)
  has_string : (s : Str) → Has string (one s)
  has_pair : (s t : Str) → Has string_pair (two s t)

abbrev pub IsTyped : (ℕ → Option PropertyType) → Property → Type 0
IsTyped type_of p = Fits (type_of p.identifier) p.value

-- What the getter of a type reads, in its range, and from a copy too.
Reads : Option PropertyType → ℕ → ℕ → ℕ → Value → Type 0
Reads typ c fresh fresh_val v =
    (g : Got) × (get (type_id typ) (record { identifier = c; value = v }) ≡ some g)
    × Has (type_id typ) g
    × Fits typ (copied_as typ fresh fresh_val v)
    × (get (type_id typ) (record { identifier = c; value = copied_as typ fresh fresh_val v })
        ≡ some g)

Fits-Reads : {typ : Option PropertyType} {v : Value} (c a b : ℕ) → Fits typ v → Reads typ c a b v
unfolding get Reads
Fits-Reads c a b (fits_byte n h) = (unsigned n, refl, has_uint8 n h, fits_byte n h, refl)
Fits-Reads c a b (fits_two_byte n h) = (unsigned n, refl, has_uint16 n h, fits_two_byte n h, refl)
Fits-Reads c a b (fits_four_byte n h) = (unsigned n, refl, has_uint32 n h, fits_four_byte n h, refl)
Fits-Reads c a b (fits_variable n h) = (unsigned n, refl, has_uint32 n h, fits_variable n h, refl)
Fits-Reads c a b (fits_binary t) =
    (one (string_of t), refl, has_string (string_of t), fits_binary (copy_block a t), refl)
Fits-Reads c a b (fits_string t) =
    (one (string_of t), refl, has_string (string_of t), fits_string (copy_block a t), refl)
Fits-Reads c a b (fits_pair s t) = (
  two (string_of s) (string_of t),
  refl,
  has_pair (string_of s) (string_of t),
  fits_pair (copy_block a s) (copy_block b t),
  refl,
)

-- A property whose value has the type of its code is read by the `get` of the type that
-- `value_type_id` names, with a value of that type; a copy has a value of the code's type too, and
-- the same is read from it.
pub IsTyped-reads :
    (type_of : ℕ → Option PropertyType) (p : Property) (fresh fresh_val : ℕ)
    → IsTyped type_of p
    → (g : Got) × (get (value_type_id type_of p) p ≡ some g)
      × Has (value_type_id type_of p) g
      × IsTyped type_of (copy type_of fresh fresh_val p)
      × (get (value_type_id type_of p) (copy type_of fresh fresh_val p) ≡ some g)
unfolding value_type_id copy Reads
IsTyped-reads type_of p fresh fresh_val h = Fits-Reads p.identifier fresh fresh_val h

-- Which constructor a type of C asks for.
abbrev pub is_number : PropertyType → Bool
is_number byte = true
is_number two_byte_integer = true
is_number four_byte_integer = true
is_number variable_byte_integer = true
is_number binary_data = false
is_number utf_8_encoded_string = false
is_number utf_8_string_pair = false

to_unsigned_bound :
    (i : ℤ) → (to_unsigned 8 i < 2 ^ 8) × (to_unsigned 16 i < 2 ^ 16) × (to_unsigned 32 i < 2 ^ 32)
unfolding to_unsigned
to_unsigned_bound i = ground arith

number-Fits :
    (typ : PropertyType) (i : ℤ)
    → is_number typ ≡ true
    → Fits (some typ) (number_value (some typ) i)
number-Fits byte i h = fits_byte _ (to_unsigned_bound i).0
number-Fits two_byte_integer i h = fits_two_byte _ (to_unsigned_bound i).1
number-Fits four_byte_integer i h = fits_four_byte _ (to_unsigned_bound i).2
number-Fits variable_byte_integer i h = fits_variable _ (to_unsigned_bound i).2
number-Fits binary_data i h = cc
number-Fits utf_8_encoded_string i h = cc
number-Fits utf_8_string_pair i h = cc

-- A property has a value of its code's type when it is made of a number with a code for numbers, of
-- a text with one for texts, or of a pair with one for pairs.
pub made-IsTyped :
    (type_of : ℕ → Option PropertyType) (typ : PropertyType) (c c' c'' a b : ℕ) (i : ℤ) (s t : Str)
    → type_of c ≡ some typ
    → is_number typ ≡ true
    → (type_of c' ≡ some binary_data) ⊎ (type_of c' ≡ some utf_8_encoded_string)
    → type_of c'' ≡ some utf_8_string_pair
    → IsTyped type_of (new_number type_of c i)
      × IsTyped type_of (new_text c' s a)
      × IsTyped type_of (new_pair c'' s t a b)
unfolding new_number new_text new_pair
made-IsTyped type_of typ c c' c'' a b i s t h n h' h'' = (
  rw h (number-Fits typ i n),
  elim h' [ inl q ↦ rw q (fits_binary (block a s)) | inr q ↦ rw q (fits_string (block a s)) ],
  rw h'' (fits_pair (block a s) (block b t)),
)

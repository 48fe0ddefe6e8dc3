-- ===== src/Property/Values.antt =====
-- What is read from a property is what it was made of.
use paho_mqtt_cpp.Prelude.{
  ℕ, ◌<◌, ◌^◌, ◌≡◌, ◌⊎◌, inl, inr, ap, ap₂, Option, some, length, take-all, Str, pos, arith,
}
use paho_mqtt_cpp.Buffer.{to_c_int}
use paho_mqtt_cpp.Property.{
  PropertyType, byte, two_byte_integer, four_byte_integer, variable_byte_integer, binary_data,
  utf_8_encoded_string, utf_8_string_pair, Property, block, string_of, new_unsigned, new_text,
  new_pair, copy, get_byte, get_integer2, get_integer4, get_string, get_string_pair, to_unsigned,
}

string_of-block : (fresh : ℕ) (s : Str) → length s < 2 ^ 31 → string_of (block fresh s) ≡ s
string_of-block fresh s h =
    let whole : to_c_int (length s) ≡ pos (length s) = ground arith in
    rw whole (take-all (length s) s (omega arith))

-- Back from a C `int` to the number.
to_unsigned-to_c_int : (n : ℕ) → n < 2 ^ 32 → to_unsigned 32 (to_c_int n) ≡ n
unfolding to_unsigned
to_unsigned-to_c_int n h = ground arith

to_unsigned_byte : (n : ℕ) → n < 2 ^ 8 → to_unsigned 8 (to_c_int n) ≡ n
unfolding to_unsigned
to_unsigned_byte n h = ground arith

to_unsigned_two_byte : (n : ℕ) → n < 2 ^ 16 → to_unsigned 16 (to_c_int n) ≡ n
unfolding to_unsigned
to_unsigned_two_byte n h = ground arith

-- An unsigned number that the type of its code has room for, given to a new property, is read from
-- it and from a copy of it.
pub get-new_unsigned :
    (type_of : ℕ → Option PropertyType) (c1 c2 c4 n1 n2 n4 fresh fresh_val : ℕ)
    → type_of c1 ≡ some byte
    → type_of c2 ≡ some two_byte_integer
    → (type_of c4 ≡ some four_byte_integer) ⊎ (type_of c4 ≡ some variable_byte_integer)
    → n1 < 2 ^ 8
    → n2 < 2 ^ 16
    → n4 < 2 ^ 32
    → let new : ℕ → ℕ → Property = new_unsigned type_of in
      let copied = copy type_of fresh fresh_val in
      (get_byte (new c1 n1) ≡ some n1)
      × (get_byte (copied (new c1 n1)) ≡ some n1)
      × (get_integer2 (new c2 n2) ≡ some n2)
      × (get_integer2 (copied (new c2 n2)) ≡ some n2)
      × (get_integer4 (new c4 n4) ≡ some n4)
      × (get_integer4 (copied (new c4 n4)) ≡ some n4)
unfolding new_unsigned get_byte get_integer2 get_integer4 copy
get-new_unsigned type_of c1 c2 c4 n1 n2 n4 fresh fresh_val h1 h2 h4 b1 b2 b4 =
    let w1 = to_unsigned_byte n1 b1 in
    let w2 = to_unsigned_two_byte n2 b2 in
    let w4 = to_unsigned-to_c_int n4 b4 in
    (ground arith, ground arith, ground arith, ground arith, ground arith, ground arith)

-- Texts of fewer than 2^31 bytes, given to a new property of a type for text, are read from it and
-- from a copy of it.
pub get-new_text :
    (type_of : ℕ → Option PropertyType) (c c' fresh fresh_val : ℕ) (name val : Str)
    → (type_of c ≡ some utf_8_encoded_string) ⊎ (type_of c ≡ some binary_data)
    → type_of c' ≡ some utf_8_string_pair
    → length name < 2 ^ 31
    → length val < 2 ^ 31
    → (get_string (new_text c val fresh) ≡ some val)
      × (get_string (copy type_of fresh fresh_val (new_text c val fresh)) ≡ some val)
      × (get_string_pair (new_pair c' name val fresh fresh_val) ≡ some (name, val))
      × (get_string_pair (copy type_of fresh fresh_val (new_pair c' name val fresh fresh_val))
          ≡ some (name, val))
unfolding new_text new_pair get_string get_string_pair copy
get-new_text type_of c c' fresh fresh_val name val h h' b b' =
    let at_name = string_of-block fresh name b in
    let at_val = string_of-block fresh_val val b' in
    let at_val' = string_of-block fresh val b' in
    (
      ap some at_val',
      elim h [ inl utf ↦ rw utf (ap some at_val') | inr bin ↦ rw bin (ap some at_val') ],
      ap₂ (λ x y. some (x, y)) at_name at_val,
      rw h' (ap₂ (λ x y. some (x, y)) at_name at_val),
    )

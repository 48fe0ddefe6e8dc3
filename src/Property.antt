-- ===== src/Property.antt =====
-- `property` of include/mqtt/properties.h and src/properties.cpp: a value of MQTT v5, and the
-- memory that it owns. A block of memory has an address; what an operation allocates it is given,
-- and what it frees is part of its result. The type that a code has is the C library's to say, and
-- a parameter.
pub mod Values
pub mod Ownership
pub mod Types
pub mod Print
pub mod Printed
mod Tests
use paho_mqtt_cpp.Prelude.{
  ℕ, ◌+◌, ◌-◌, ◌%◌, ◌^◌, if◌then◌else◌, Bool, Option, none, some, List, [], ◌∷◌, length, take, Str,
  ℤ, pos, negsuc,
}
use paho_mqtt_cpp.Buffer.{to_c_int}

-- `MQTTPropertyTypes`
pub data PropertyType : Type 0 where
  byte two_byte_integer four_byte_integer variable_byte_integer : PropertyType
  binary_data utf_8_encoded_string utf_8_string_pair : PropertyType

-- `MQTTLenString`: an address with the bytes there, and a length.
pub record LenString : Type 0 where
  pub address : ℕ
  pub bytes : Str
  pub len : ℤ

-- The member of the union that was written last; none after a constructor that writes none.
pub data Value : Type 0 where
  byte_value integer2 integer4 : ℕ → Value
  text : LenString → Value
  pair : LenString → LenString → Value
  unset zeroed : Value

-- `MQTTProperty`
pub record Property : Type 0 where
  pub identifier : ℕ
  pub value : Value

-- `uint8_t(val)`, `uint16_t(val)` and `uint32_t(val)` of an `int32_t`
unfoldable pub to_unsigned : ℕ → ℤ → ℕ
to_unsigned w (pos n) = n % 2 ^ w
to_unsigned w (negsuc n) = 2 ^ w - 1 - n % 2 ^ w

-- The switch of the constructor from a number.
abbrev pub number_value : Option PropertyType → ℤ → Value
number_value (some byte) val = byte_value (to_unsigned 8 val)
number_value (some two_byte_integer) val = integer2 (to_unsigned 16 val)
number_value (some four_byte_integer) val = integer4 (to_unsigned 32 val)
number_value (some variable_byte_integer) val = integer4 (to_unsigned 32 val)
number_value (some binary_data) val = unset
number_value (some utf_8_encoded_string) val = unset
number_value (some utf_8_string_pair) val = unset
number_value none val = unset

-- `property(c, int32_t)`
unfoldable pub new_number : (ℕ → Option PropertyType) → ℕ → ℤ → Property
new_number type_of c val = record { identifier = c; value = number_value (type_of c) val }

-- `property(c, uint32_t)`
unfoldable pub new_unsigned : (ℕ → Option PropertyType) → ℕ → ℕ → Property
unfolding new_number
new_unsigned type_of c val = new_number type_of c (to_c_int val)

-- A new block with the bytes of a buffer.
abbrev pub block : ℕ → Str → LenString
block fresh bytes = record { address = fresh; bytes = bytes; len = to_c_int (length bytes) }

-- `property(c, val)` and `property(c, name, val)`; the code's type is not looked at.
unfoldable pub new_text : ℕ → Str → ℕ → Property
new_text c val fresh = record { identifier = c; value = text (block fresh val) }

unfoldable pub new_pair : ℕ → Str → Str → ℕ → ℕ → Property
new_pair c name val fresh fresh_val = record {
  identifier = c;
  value = pair (block fresh name) (block fresh_val val);
}

-- What the destructor frees, by the code's type; `none` is a pointer that was never set, or another
-- member of the union taken for a pointer.
abbrev pub freed_as : Option PropertyType → Value → Option (List ℕ)
freed_as (some utf_8_string_pair) (pair name val) = some (val.address ∷ name.address ∷ [])
freed_as (some utf_8_string_pair) zeroed = some []
freed_as (some utf_8_string_pair) value = none
freed_as (some binary_data) (text t) = some (t.address ∷ [])
freed_as (some binary_data) (pair name val) = some (name.address ∷ [])
freed_as (some binary_data) zeroed = some []
freed_as (some binary_data) value = none
freed_as (some utf_8_encoded_string) (text t) = some (t.address ∷ [])
freed_as (some utf_8_encoded_string) (pair name val) = some (name.address ∷ [])
freed_as (some utf_8_encoded_string) zeroed = some []
freed_as (some utf_8_encoded_string) value = none
freed_as typ value = some []

-- `~property`
unfoldable pub destroy : (ℕ → Option PropertyType) → Property → Option (List ℕ)
destroy type_of p = freed_as (type_of p.identifier) p.value

-- A copy of a block.
abbrev pub copy_block : ℕ → LenString → LenString
copy_block fresh t = record t { address = fresh }

-- `copy`, which takes new blocks for the text that the code's type has. From a value of another
-- type it would read through pointers that were never set; no pointer of the result is known then.
abbrev pub copied_as : Option PropertyType → ℕ → ℕ → Value → Value
copied_as (some utf_8_string_pair) fresh fresh_val (pair name val) =
    pair (copy_block fresh name) (copy_block fresh_val val)
copied_as (some utf_8_string_pair) fresh fresh_val zeroed =
    pair (block fresh []) (block fresh_val [])
copied_as (some utf_8_string_pair) fresh fresh_val value = unset
copied_as (some binary_data) fresh fresh_val (text t) = text (copy_block fresh t)
copied_as (some binary_data) fresh fresh_val (pair name val) = pair (copy_block fresh name) val
copied_as (some binary_data) fresh fresh_val zeroed = text (block fresh [])
copied_as (some binary_data) fresh fresh_val value = unset
copied_as (some utf_8_encoded_string) fresh fresh_val (text t) = text (copy_block fresh t)
copied_as (some utf_8_encoded_string) fresh fresh_val (pair name val) =
    pair (copy_block fresh name) val
copied_as (some utf_8_encoded_string) fresh fresh_val zeroed = text (block fresh [])
copied_as (some utf_8_encoded_string) fresh fresh_val value = unset
copied_as typ fresh fresh_val value = value

-- The copy constructor, and that from a C struct.
unfoldable pub copy : (ℕ → Option PropertyType) → ℕ → ℕ → Property → Property
copy type_of fresh fresh_val other = record other {
  value = copied_as (type_of other.identifier) fresh fresh_val other.value;
}

-- `memset(&other.prop_, 0, sizeof(MQTTProperty))`
abbrev pub nothing : Property
nothing = record { identifier = 0; value = zeroed }

-- The move constructor: the property, and what is left of the other.
unfoldable pub move_construct : Property → Property × Property
move_construct other = (other, nothing)

-- The assignments of another property: the new property, what is left of the other, and what is
-- freed.
unfoldable pub copy_assign :
    (ℕ → Option PropertyType) → ℕ → ℕ → Property → Property → Property × List ℕ
unfolding copy
copy_assign type_of fresh fresh_val rhs p = (copy type_of fresh fresh_val rhs, [])

unfoldable pub move_assign : Property → Property → Property × Property × List ℕ
move_assign rhs p = (rhs, nothing, [])

-- `string(data, len)`, with a length that is not negative; an empty string for a null pointer.
abbrev pub string_of : LenString → Str
string_of t = elim (t.len) [ pos n ↦ take n t.bytes | negsuc n ↦ [] ]

-- The functions `get`; `none` reads another member of the union.
unfoldable pub get_byte : Property → Option ℕ
get_byte p = elim (p.value) [ byte_value n ↦ some n | zeroed ↦ some 0 | _ ↦ none ]

unfoldable pub get_integer2 : Property → Option ℕ
get_integer2 p = elim (p.value) [ integer2 n ↦ some n | zeroed ↦ some 0 | _ ↦ none ]

unfoldable pub get_integer4 : Property → Option ℕ
get_integer4 p = elim (p.value) [ integer4 n ↦ some n | zeroed ↦ some 0 | _ ↦ none ]

-- The text of the first block.
unfoldable pub get_string : Property → Option Str
get_string p = elim (p.value) [
  | text t ↦ some (string_of t)
  | pair name val ↦ some (string_of name)
  | zeroed ↦ some []
  | _ ↦ none
]

unfoldable pub get_string_pair : Property → Option (Str × Str)
get_string_pair p = elim (p.value) [
  | pair name val ↦ some (string_of name, string_of val)
  | zeroed ↦ some ([], [])
  | _ ↦ none
]

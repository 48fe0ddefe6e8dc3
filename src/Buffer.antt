-- ===== src/Buffer.antt =====
-- `buffer_ref` of include/mqtt/buffer_ref.h: a shared pointer to constant bytes. Pointers that are
-- handed to the C library are the subject of the option classes, so a pointer is modelled with what
-- it points to: the address of the buffer, or of the object that holds it, and the bytes there when
-- it was taken.
pub mod Text
pub mod View
mod Tests
use paho_mqtt_cpp.Prelude.{
  ℕ, ltb, ◌%◌, ◌^◌, ◌-◌, if◌then◌else◌, Bool, true, false, Option, none, some, List, [], ◌∷◌,
  length, take, get_elem?, Str, ℤ, pos, negsuc,
}

-- A `char*` or `void*` into a buffer; `none` is the null pointer.
abbrev pub Pointer : Type 0
Pointer = Option (ℕ × Str)

-- `std::shared_ptr<const blob>`
abbrev pub BufferRef : Type 0
BufferRef = Option (ℕ × Str)

-- `buffer_ref(blob)` and `buffer_ref(buf, n)`: a new buffer, at the address `fresh`.
abbrev pub make : ℕ → Str → BufferRef
make fresh bytes = some (fresh, bytes)

-- The bytes that a pointer and a length give.
abbrev pub read : Pointer → ℕ → Str
read none n = []
read (some (a, bytes)) n = take n bytes

-- `operator bool`, and its negation `is_null`
abbrev pub is_set : BufferRef → Bool
is_set none = false
is_set (some b) = true

-- `empty`
abbrev pub is_empty : BufferRef → Bool
is_empty none = true
is_empty (some (a, [])) = true
is_empty (some (a, x ∷ xs)) = false

-- `data` and `c_str`, where there is a buffer; the source dereferences a null pointer else.
abbrev pub data_of : BufferRef → Pointer
data_of none = none
data_of (some b) = some b

-- `str`, `size` and `operator[]`, where there is a buffer.
abbrev pub str : BufferRef → Str
str none = []
str (some (a, bytes)) = bytes

abbrev pub size : BufferRef → ℕ
size b = length (str b)

abbrev pub at : BufferRef → ℕ → Option ℕ
at b i = get_elem? (str b) i

-- `int(n)` of a size.
abbrev pub to_c_int : ℕ → ℤ
to_c_int n = let w = n % 2 ^ 32 in if ltb w (2 ^ 31) then pos w else negsuc (2 ^ 32 - w - 1)

-- `to_int` and `to_bool` of include/mqtt/types.h
abbrev pub to_int : Bool → ℤ
to_int true = pos 1
to_int false = pos 0

-- `c_str` of the option classes: null for an empty string. The string is a member of the object at
-- the address `self`.
abbrev pub c_str : ℕ → Str → Pointer
c_str self [] = none
c_str self (x ∷ xs) = some (self, x ∷ xs)

-- The same of a `string_ref`.
abbrev pub c_str_ref : BufferRef → Pointer
c_str_ref b = if is_empty b then none else data_of b

-- ===== src/Property/Ownership.antt =====
-- The blocks of memory that properties own, and those that are lost.
use paho_mqtt_cpp.Prelude.{ℕ, ◌≡◌, ◌⊎◌, Option, none, some, [], ◌∷◌, Str, ℤ, arith}
use paho_mqtt_cpp.Property.{
  PropertyType, byte, four_byte_integer, binary_data, utf_8_encoded_string, utf_8_string_pair,
  new_number, new_text, new_pair, copy, destroy, move_construct, copy_assign, move_assign,
}

-- For types of text: the destructor of a new property, or of a copy, frees the blocks that were
-- allocated for it, each once; after a move the new property frees them, and what is left of the
-- other frees nothing, if 0 is the code of no type.
pub destroy-allocated :
    (type_of : ℕ → Option PropertyType) (c c' a a' b b' : ℕ) (name val : Str)
    → (type_of c ≡ some utf_8_encoded_string) ⊎ (type_of c ≡ some binary_data)
    → type_of c' ≡ some utf_8_string_pair
    → type_of 0 ≡ none
    → let text = new_text c val a in
      let both = new_pair c' name val a a' in
      (destroy type_of text ≡ some (a ∷ []))
      × (destroy type_of both ≡ some (a' ∷ a ∷ []))
      × (destroy type_of (copy type_of b b' text) ≡ some (b ∷ []))
      × (destroy type_of (copy type_of b b' both) ≡ some (b' ∷ b ∷ []))
      × (destroy type_of (move_construct both).0 ≡ some (a' ∷ a ∷ []))
      × (destroy type_of (move_construct both).1 ≡ some [])
unfolding destroy new_text new_pair copy move_construct
destroy-allocated type_of c c' a a' b b' name val h h' z =
    (ground arith, ground arith, ground arith, ground arith, ground arith, ground arith)

-- The assignments of a text to a property that holds a text: neither they nor the destructor free
-- the block that the property held.
pub assigned_leaks :
    (type_of : ℕ → Option PropertyType) (c a a' b b' : ℕ) (val val' : Str)
    → (type_of c ≡ some utf_8_encoded_string) ⊎ (type_of c ≡ some binary_data)
    → let old = new_text c val a in
      let rhs = new_text c val' a' in
      let (copied, copy_frees) = copy_assign type_of b b' rhs old in
      let (moved, rest, move_frees) = move_assign rhs old in
      (copy_frees ≡ [])
      × (destroy type_of copied ≡ some (b ∷ []))
      × (move_frees ≡ [])
      × (destroy type_of moved ≡ some (a' ∷ []))
unfolding destroy new_text copy_assign move_assign
assigned_leaks type_of c a a' b b' val val' h = ground arith

-- A property that is made of a number, with a code whose type is for text, has a pointer that was
-- never set, and its destructor frees that; one that is made of a text, with a code of a number's
-- type, never frees its block.
pub mismatched_destroy :
    (type_of : ℕ → Option PropertyType) (c c' a : ℕ) (n : ℤ) (val : Str)
    → (type_of c ≡ some utf_8_encoded_string) ⊎ (type_of c ≡ some utf_8_string_pair)
    → (type_of c' ≡ some byte) ⊎ (type_of c' ≡ some four_byte_integer)
    → (destroy type_of (new_number type_of c n) ≡ none)
      × (destroy type_of (new_text c' val a) ≡ some [])
unfolding destroy new_number new_text
mismatched_destroy type_of c c' a n val h h' = ground arith

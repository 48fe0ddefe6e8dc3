-- ===== src/Property/Tests.antt =====
-- Properties of a text, a pair and a number.
use paho_mqtt_cpp.Prelude.{ℕ, ◌≡◌, refl, inl, Option, none, some, [], ◌∷◌, Str, ◌==◌, if◌then◌else◌}
use paho_mqtt_cpp.Property.{
  PropertyType, Property, block, byte, utf_8_encoded_string, utf_8_string_pair, new_text, new_pair,
  copy, destroy, move_construct,
}
use paho_mqtt_cpp.Property.Types.{Got, Has, IsTyped, get, value_type_id, fits_string, IsTyped-reads}
use paho_mqtt_cpp.Property.Ownership.{destroy-allocated}

-- Codes of a content type, a user property and a payload format.
abbrev type_of : ℕ → Option PropertyType
type_of c =
    if c == 3
    then some utf_8_encoded_string
    else if c == 38
    then some utf_8_string_pair
    else if c == 1
    then some byte
    else none

abbrev name : Str
name = b'n' ∷ []

abbrev val : Str
val = b'v' ∷ b'w' ∷ []

destroy-allocated_example :
    (destroy type_of (new_text 3 val 10) ≡ some (10 ∷ []))
    × (destroy type_of (new_pair 38 name val 10 11) ≡ some (11 ∷ 10 ∷ []))
    × (destroy type_of (copy type_of 12 13 (new_text 3 val 10)) ≡ some (12 ∷ []))
    × (destroy type_of (copy type_of 12 13 (new_pair 38 name val 10 11)) ≡ some (13 ∷ 12 ∷ []))
    × (destroy type_of (move_construct (new_pair 38 name val 10 11)).0 ≡ some (11 ∷ 10 ∷ []))
    × (destroy type_of (move_construct (new_pair 38 name val 10 11)).1 ≡ some [])
destroy-allocated_example = destroy-allocated type_of 3 38 10 11 12 13 name val (inl refl) refl refl

text-IsTyped : IsTyped type_of (new_text 3 val 10)
unfolding new_text
text-IsTyped = fits_string (block 10 val)

IsTyped-reads_example :
    let p : Property = new_text 3 val 10 in
    (g : Got) × (get (value_type_id type_of p) p ≡ some g)
    × Has (value_type_id type_of p) g
    × IsTyped type_of (copy type_of 11 12 p)
    × (get (value_type_id type_of p) (copy type_of 11 12 p) ≡ some g)
IsTyped-reads_example = IsTyped-reads type_of (new_text 3 val 10) 11 12 text-IsTyped

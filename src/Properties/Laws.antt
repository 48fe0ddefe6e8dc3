-- ===== src/Properties/Laws.antt =====
-- What the documentation of the C library says of its functions on properties.
use paho_mqtt_cpp.Prelude.{
  ℕ, suc, ◌<◌, ◌^◌, ◌≡◌, not, List, [], ◌∷◌, ◌++◌, map, length, pos, is_zero,
}
use paho_mqtt_cpp.Property.{Property}
use paho_mqtt_cpp.Property.Types.{IsTyped}
use paho_mqtt_cpp.Properties.{CProperties, Library}
use paho_mqtt_cpp.Properties.Content.{content, occurs, occurrences, pick}

-- The count is that of the properties in the array.
abbrev pub IsCounted : CProperties → Type 0
IsCounted s = s.count ≡ pos (length s.array)

abbrev pub contents : CProperties → List Property
contents s = map content s.array

-- An addition puts a copy of a property at the end, where a C `int` can count it and its value has
-- the type of its code; a copy has the same contents, and after `free` there are none; the others
-- search the array.
pub record IsLawful (lib : Library) : Type 0 where
  pub adds :
      (s : CProperties) (p : Property)
      → IsCounted s
      → suc (length s.array) < 2 ^ 31
      → IsTyped lib.type_of p
      → (contents (lib.add s p) ≡ contents s ++ content p ∷ []) × IsCounted (lib.add s p)
  pub copies :
      (s : CProperties)
      → IsCounted s
      → (contents (lib.copy s) ≡ contents s) × IsCounted (lib.copy s)
  pub frees : (s : CProperties) → ((lib.free s).array ≡ []) × IsCounted (lib.free s)
  pub finds :
      (s : CProperties) (c : ℕ)
      → IsCounted s
      → not (is_zero (lib.has_property s c)) ≡ occurs c s.array
  pub counts :
      (s : CProperties) (c : ℕ) → IsCounted s → lib.property_count s c ≡ pos (occurrences c s.array)
  pub picks :
      (s : CProperties) (c i : ℕ) → IsCounted s → lib.get_property_at s c (pos i) ≡ pick c i s.array

-- ===== src/StringCollection/Tests.antt =====
-- A collection of two names.
use paho_mqtt_cpp.Prelude.{◌≡◌, refl, some, [], ◌∷◌, str_eq, str_lt}
use paho_mqtt_cpp.StringCollection.{NameValues, of_map, insert}
use paho_mqtt_cpp.StringCollection.Names.{value_of}

abbrev names : NameValues
names = of_map ((b'a' ∷ [], 1 ∷ []) ∷ (b'c' ∷ [], 2 ∷ []) ∷ [])

kept_value : value_of (b'c' ∷ []) (insert (b'c' ∷ [], 3 ∷ []) names).0.entries ≡ some (2 ∷ [])
unfolding insert str_lt str_eq
kept_value = refl

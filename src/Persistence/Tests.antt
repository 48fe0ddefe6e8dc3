-- ===== src/Persistence/Tests.antt =====
-- A store with one key.
use paho_mqtt_cpp.Prelude.{true, List, [], ◌∷◌, Str}
use paho_mqtt_cpp.Persistence.Memory.{Memory}

abbrev one_key : Memory
one_key = record { is_open = true; store = (b'k' ∷ [], 1 ∷ []) ∷ [] }

abbrev bufs : List Str
bufs = (4 ∷ 5 ∷ []) ∷ (6 ∷ []) ∷ []

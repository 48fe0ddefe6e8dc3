-- ===== src/Persistence/Contract.antt =====
-- The functions of `iclient_persistence` over the store in memory act as one map of keys to values.
use paho_mqtt_cpp.Prelude.{
  ℕ, suc, ◌||◌, Bool, false, Option, none, some, List, [], ◌∷◌, map, take, ◌++◌, Str, str_eq,
  length, ℤ,
}
use paho_mqtt_cpp.Buffer.{to_c_int}
use paho_mqtt_cpp.Buffer.Text.{until_nul}
use paho_mqtt_cpp.StringCollection.Names.{value_of}
use paho_mqtt_cpp.Persistence.{Code, success, persistence_error}
use paho_mqtt_cpp.Persistence.Memory.{Memory}

-- The map that a store in memory stands for.
abbrev pub view : Memory → Str → Option Str
view m key = value_of key m.store

-- A test for a key in a list.
abbrev pub listed : Str → List Str → Bool
listed name [] = false
listed name (k ∷ ks) = str_eq k name || listed name ks

-- What `persistence_get` answers for a value, or for none.
abbrev pub answer : Option Str → Option (Str × ℤ) × Code
answer none = (none, persistence_error)
answer (some str) = (some (str, to_c_int (length str)), success)

-- The names that the C library reads from what `persistence_keys` stored.
abbrev pub read_keys : Option (Option (List Str) × ℤ) → List Str
read_keys none = []
read_keys (some (none, n)) = []
read_keys (some (some ks, n)) = map until_nul ks

-- The first bytes of some buffers, as many of each as its length says, one after the other.
abbrev pub gathered : ℕ → List Str → List ℕ → Str
gathered (suc n) (b ∷ bs) (m ∷ ms) = take m b ++ gathered n bs ms
gathered n bs ms = []

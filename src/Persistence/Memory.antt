-- ===== src/Persistence/Memory.antt =====
-- `sample_mem_persistence` of examples/sync_publish.cpp, a store in memory.
use paho_mqtt_cpp.Prelude.{
  if◌then◌else◌, Bool, true, false, none, some, is_some, List, [], ◌∷◌, ◌++◌, Str, str_eq, str_lt,
}
use paho_mqtt_cpp.StringCollection.Names.{value_of}
use paho_mqtt_cpp.Persistence.{Store}

-- `store_[key] = str` on the entries of a `std::map`, in the order of their keys.
unfoldable pub set_entry : Str → Str → List (Str × Str) → List (Str × Str)
set_entry key str [] = (key, str) ∷ []
set_entry key str (e ∷ es) =
    let rest = set_entry key str es in
    if str_eq e.0 key
    then (key, str) ∷ es
    else if str_lt key e.0
    then (key, str) ∷ e ∷ es
    else e ∷ rest

-- `store_.erase(p)` of the entry with a key.
unfoldable pub erase_entry : Str → List (Str × Str) → List (Str × Str)
erase_entry key [] = []
erase_entry key (e ∷ es) = let rest = erase_entry key es in if str_eq e.0 key then es else e ∷ rest

-- `for (const auto& b : bufs) str.append(b.data(), b.size());`
unfoldable pub append_all : List Str → Str
append_all [] = []
append_all (b ∷ bs) = b ++ append_all bs

-- `for (const auto& k : store_) ks.push_back(k.first);`
unfoldable pub keys_of : List (Str × Str) → List Str
keys_of [] = []
keys_of (e ∷ es) = e.0 ∷ keys_of es

pub record Memory : Type 0 where
  pub is_open : Bool
  pub store : List (Str × Str)

unfoldable pub memory : Store Memory
unfolding set_entry erase_entry append_all keys_of
memory = record {
  open_store = λ client_id server_uri m. (record m { is_open = true }, some tt);
  close = λ m. (record m { is_open = false }, some tt);
  clear = λ m. (record m { store = [] }, some tt);
  contains_key = λ key m. (m, some (is_some (value_of key m.store)));
  keys = λ m. some (keys_of m.store);
  put = λ key bufs m. (record m { store = set_entry key (append_all bufs) m.store }, some tt);
  get = λ key m. value_of key m.store;
  remove = λ key m.
      if is_some (value_of key m.store)
      then (record m { store = erase_entry key m.store }, some tt)
      else (m, none);
}

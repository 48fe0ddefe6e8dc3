-- ===== src/Persistence.antt =====
-- `iclient_persistence` of include/mqtt/iclient_persistence.h and src/iclient_persistence.cpp: the
-- functions that the C library calls to keep its messages in a store of the application, and what
-- they tell it. Pointers may be null; a string of C has its bytes before the zero.
pub mod Memory
pub mod Contract
mod Tests
use paho_mqtt_cpp.Prelude.{
  ℕ, zero, suc, ◌+◌, if◌then◌else◌, Bool, true, false, Option, none, some, is_some, List, [], ◌∷◌,
  map, length, take, Str, ℤ, pos, negsuc,
}
use paho_mqtt_cpp.Buffer.{to_c_int}
use paho_mqtt_cpp.Buffer.Text.{strncpy, terminate_at}

-- The virtual functions that an application writes, on a store of type `S`: the store afterwards,
-- and the result, or nothing where the function throws.
pub record Store (S : Type 0) : Type 0 where
  pub open_store : Str → Str → S → S × Option (Unit {0})
  pub close : S → S × Option (Unit {0})
  pub clear : S → S × Option (Unit {0})
  pub contains_key : Str → S → S × Option Bool
  pub keys : S → Option (List Str)
  pub put : Str → List Str → S → S × Option (Unit {0})
  pub get : Str → S → Option Str
  pub remove : Str → S → S × Option (Unit {0})

-- `MQTTASYNC_SUCCESS` and `MQTTCLIENT_PERSISTENCE_ERROR`
pub data Code : Type 0 where
  success persistence_error : Code

-- The code that a call gives which returns, or throws.
code_of {ℓ} : {A : Type ℓ} → Option A → Code
code_of none = persistence_error
code_of (some r) = success

-- The code of `persistence_containskey`.
found_code : Option Bool → Code
found_code (some true) = success
found_code (some false) = persistence_error
found_code none = persistence_error

-- `string_view(buffers[i], buflens[i])` for each `i < bufcount`; both arrays have that many
-- elements.
unfoldable pub views : ℕ → List Str → List ℕ → List Str
views (suc n) (b ∷ bs) (m ∷ ms) = take m b ∷ views n bs ms
views n bs ms = []

-- The buffers that `persistence_keys` allocates.
abbrev pub key_buffers : List Str → List Str
key_buffers [] = []
key_buffers (k ∷ ks) = terminate_at (length k) (strncpy k (length k + 1)) ∷ key_buffers ks

module _ {S : Type 0} where
  -- `persistence_open`, where a flag says that neither `handle` nor `context`, which leads to the
  -- store, is null: whether the handle is set, the store and the code.
  unfoldable pub persistence_open : Store S → Option Str → Option Str → Bool → S → Bool × S × Code
  unfolding code_of
  persistence_open store (some client_id) (some server_uri) true s =
      let r = store.open_store client_id server_uri s in (is_some r.1, r.0, code_of r.1)
  persistence_open store client_id server_uri handle s = (false, s, persistence_error)

  -- A handle is null, or leads to the store.
  unfoldable pub persistence_close : Store S → Bool → S → S × Code
  unfolding code_of
  persistence_close store true s = let r = store.close s in (r.0, code_of r.1)
  persistence_close store false s = (s, persistence_error)

  unfoldable pub persistence_put :
      Store S → Bool → Str → ℤ → Option (List Str) → Option (List ℕ) → S → S × Code
  unfolding code_of views
  persistence_put store true key (pos (suc n)) (some buffers) (some buflens) s =
      let r = store.put key (views (suc n) buffers buflens) s in (r.0, code_of r.1)
  persistence_put store handle key bufcount buffers buflens s = (s, persistence_error)

  -- What `persistence_get` stores in `*buffer` and `*buflen`, if neither is null, which a flag
  -- says.
  unfoldable pub persistence_get : Store S → Bool → Bool → Option Str → S → Option (Str × ℤ) × Code
  persistence_get store true true (some key) s = elim (store.get key s) [
    | none ↦ (none, persistence_error)
    | some str ↦ (some (str, to_c_int (length str)), success)
  ]
  persistence_get store handle is_out key s = (none, persistence_error)

  unfoldable pub persistence_remove : Store S → Bool → Option Str → S → S × Code
  unfolding code_of
  persistence_remove store true (some key) s = let r = store.remove key s in (r.0, code_of r.1)
  persistence_remove store handle key s = (s, persistence_error)

  -- What `persistence_keys` stores in `*keys`, null for no keys, and in `*nkeys`, in the same way.
  unfoldable pub persistence_keys :
      Store S → Bool → Bool → S → Option (Option (List Str) × ℤ) × Code
  persistence_keys store true true s = elim (store.keys s) [
    | none ↦ (none, persistence_error)
    | some [] ↦ (some (none, pos 0), success)
    | some (k ∷ ks) ↦ (some (some (key_buffers (k ∷ ks)), to_c_int (length (k ∷ ks))), success)
  ]
  persistence_keys store handle is_out s = (none, persistence_error)

  unfoldable pub persistence_clear : Store S → Bool → S → S × Code
  unfolding code_of
  persistence_clear store true s = let r = store.clear s in (r.0, code_of r.1)
  persistence_clear store false s = (s, persistence_error)

  unfoldable pub persistence_containskey : Store S → Bool → Option Str → S → S × Code
  unfolding found_code
  persistence_containskey store true (some key) s =
      let r = store.contains_key key s in (r.0, found_code r.1)
  persistence_containskey store handle key s = (s, persistence_error)

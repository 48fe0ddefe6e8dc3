-- ===== src/Message/Builder.antt =====
-- `message_ptr_builder` of include/mqtt/message.h: each call is a call of a setter on the message
-- that the builder holds, and `finalize` returns that message.
use paho_mqtt_cpp.Prelude.{ℕ, Bool, Option, none, some, List, [], ◌∷◌, ℤ}
use paho_mqtt_cpp.Buffer.{Pointer, BufferRef, make, read}
use paho_mqtt_cpp.Message.{
  Message, Library, blank, set_topic, set_payload, set_qos, set_retained, set_properties,
  move_properties,
}

-- The calls of a builder. `topic` has an address for the empty string that is made for no buffer,
-- and `payload_bytes` the address of the new buffer, and the pointer and length to read.
pub data Build (P : Type 0) : Type 0 where
  topic : ℕ → BufferRef → Build P
  payload : BufferRef → Build P
  payload_bytes : ℕ → Pointer → ℕ → Build P
  qos : ℤ → Build P
  retained : Bool → Build P
  properties moved_properties : P → Build P

module _ {P : Type 0} where
  -- `none` is the exception of `set_qos`.
  unfoldable pub build : Library P → Build P → Message P → Option (Message P)
  unfolding set_topic set_payload set_qos set_retained set_properties move_properties
  build lib (topic fresh top) m = some (set_topic fresh top m)
  build lib (payload buf) m = some (set_payload buf m)
  build lib (payload_bytes fresh ptr n) m = some (set_payload (make fresh (read ptr n)) m)
  build lib (qos n) m = set_qos n m
  build lib (retained on) m = some (set_retained on m)
  build lib (properties props) m = some (set_properties lib props m)
  build lib (moved_properties props) m = some (move_properties props m)

  -- A chain of calls, which ends at the first exception.
  unfoldable pub build_all : Library P → List (Build P) → Message P → Option (Message P)
  unfolding build
  build_all lib [] m = some m
  build_all lib (call ∷ calls) m = elim (build lib call m) [
    | none ↦ none
    | some m' ↦ build_all lib calls m'
  ]

  -- The chain from `message_ptr_builder()` to `finalize`.
  unfoldable pub finalize : Library P → List (Build P) → Option (Message P)
  unfolding build_all blank
  finalize lib calls = build_all lib calls (blank lib)

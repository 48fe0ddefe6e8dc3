-- ===== src/Event.antt =====
-- `event` of include/mqtt/event.h, with the message of include/mqtt/message.h that it carries.
pub mod Kinds
mod Tests
use paho_mqtt_cpp.Prelude.{ℕ, Bool, true, false, ◌||◌, Option, none, some, List, Str}

pub record Message : Type 0 where
  pub topic : Str
  pub payload : List ℕ
  pub qos : ℕ
  pub retained : Bool

-- `event_type`; a message pointer may be null. `P` is the type of MQTT v5 properties.
pub data Event (P : Type 0) : Type 0 where
  message : Option Message → Event P
  connected : Str → Event P
  connection_lost : Str → Event P
  disconnected : P → ℕ → Event P
  shutdown : Event P

module _ {P : Type 0} where
  -- `event()`
  abbrev pub new : Event P
  new = message none

  pub is_message : Event P → Bool
  is_message (message m) = true
  is_message e = false

  pub is_connected : Event P → Bool
  is_connected (connected cause) = true
  is_connected e = false

  pub is_connection_lost : Event P → Bool
  is_connection_lost (connection_lost cause) = true
  is_connection_lost e = false

  pub is_disconnected : Event P → Bool
  is_disconnected (disconnected props reason) = true
  is_disconnected e = false

  -- The source tests for `disconnected_event` here too.
  pub is_shutdown : Event P → Bool
  is_shutdown (disconnected props reason) = true
  is_shutdown e = false

  unfoldable pub is_any_disconnect : Event P → Bool
  is_any_disconnect (connection_lost cause) = true
  is_any_disconnect (disconnected props reason) = true
  is_any_disconnect shutdown = true
  is_any_disconnect e = false

  -- `get_message_if`; the outer `none` is the null pointer.
  unfoldable pub get_message_if : Event P → Option (Option Message)
  get_message_if (message m) = some m
  get_message_if e = none

-- ===== src/Client/Handled.antt =====
-- The messages that the handler of messages gets over a run.
use paho_mqtt_cpp.Prelude.{◌&&◌, if◌then◌else◌, Option, some, List, [], ◌∷◌}
use paho_mqtt_cpp.Event.{Message}
use paho_mqtt_cpp.Client.{
  Client, listener, on_message, update, create, add_token, add_delivery_token, remove_token,
}
use paho_mqtt_cpp.Client.Runs.{Act, Runs, is_own}
use paho_mqtt_cpp.Client.Runs
use paho_mqtt_cpp.Client

module _ {P : Type 0} where
  -- The message that the C library gives the client in a call, where it has the client's own
  -- function for messages, and the client has a handler of messages.
  abbrev pub arrived : Act P → Client P → List (Option Message)
  arrived (Runs.arrives m) c =
      if is_own c.hooks.message_hook && c.msg_handler then some m ∷ [] else []
  arrived a c = []

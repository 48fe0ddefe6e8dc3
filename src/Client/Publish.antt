-- ===== src/Client/Publish.antt =====
-- The overloads of `publish` that make a message, and the `topic` object of include/mqtt/topic.h
-- and src/topic.cpp, whose calls go to its client.
use paho_mqtt_cpp.Prelude.{
  ℕ, if◌then◌else◌, Bool, Option, none, some, [], Str, ℤ, pos, negsuc, is_zero, not,
}
use paho_mqtt_cpp.Buffer.{BufferRef, make}
use paho_mqtt_cpp.Message.{Library, is_bad_qos, get_topic, get_payload}
use paho_mqtt_cpp.Message
use paho_mqtt_cpp.Event.{Message}
use paho_mqtt_cpp.Client.{Client, exception}
use paho_mqtt_cpp.Client.Requests.{Ended, publish_message, subscribe_one}

-- `MQTTASYNC_BAD_QOS`
abbrev pub bad_qos : ℤ
bad_qos = negsuc 8

-- `get_qos`, of a message whose QoS was validated, and `get_retained`
abbrev pub qos_of : ℤ → ℕ
qos_of (pos n) = n
qos_of (negsuc n) = 0

module _ {P : Type 0} where
  -- What a client reads of a message.
  abbrev pub seen : Message.Message P → Message
  seen m = record {
    topic = get_topic m;
    payload = get_payload m;
    qos = qos_of m.msg.qos;
    retained = not (is_zero m.msg.retained);
  }

  -- The publication of a message that was made, or the exception of its constructor.
  unfoldable pub publish_made :
      ℕ → Option ℕ → ℤ → ℤ → Client P → Option (Message.Message P) → Ended P
  unfolding publish_message
  publish_made user_context l rc id c none = (exception bad_qos, c, [])
  publish_made user_context l rc id c (some m) = publish_message (seen m) user_context l rc id c

  -- `publish` over a topic and a payload
  unfoldable pub publish_new :
      Library P → BufferRef → BufferRef → ℤ → Bool → P → ℕ → Option ℕ → ℤ → ℤ → Client P → Ended P
  unfolding publish_made
  publish_new lib topic payload qos retained props user_context l rc id c =
      publish_made user_context l rc id c (Message.new lib topic payload qos retained props)

-- A `topic` without its client, and its constructor, which does not validate the QoS.
pub record TopicObject : Type 0 where
  pub name : Str
  pub qos : ℤ
  pub retained : Bool

-- `set_qos`; `none` is the exception of `validate_qos`.
unfoldable pub set_qos : ℤ → TopicObject → Option TopicObject
set_qos qos t = if is_bad_qos qos then none else some (record t { qos = qos })

unfoldable pub set_retained : Bool → TopicObject → TopicObject
set_retained retained t = record t { retained = retained }

module _ {P : Type 0} where
  -- `publish(payload, qos, retained)`; the name becomes a new buffer.
  unfoldable pub publish_with :
      Library P → ℕ → BufferRef → ℤ → Bool → TopicObject → ℤ → ℤ → Client P → Ended P
  unfolding publish_new
  publish_with lib fresh payload qos retained t rc id c =
      publish_new lib (make fresh t.name) payload qos retained lib.no_properties 0 none rc id c

  -- `publish(payload)`
  unfoldable pub publish : Library P → ℕ → BufferRef → TopicObject → ℤ → ℤ → Client P → Ended P
  unfolding publish_with
  publish lib fresh payload t rc id c = publish_with lib fresh payload t.qos t.retained t rc id c

  -- `subscribe`; the QoS goes to the C library.
  unfoldable pub subscribe : TopicObject → ℤ → Client P → Ended P
  unfolding subscribe_one
  subscribe t rc c = subscribe_one t.name 0 none rc c

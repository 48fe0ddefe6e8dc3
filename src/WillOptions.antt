-- ===== src/WillOptions.antt =====
-- `will_options` of include/mqtt/will_options.h and src/will_options.cpp. Where a function makes a
-- new buffer, the address of the buffer is an argument.
pub mod Mirror
use paho_mqtt_cpp.Prelude.{
  ℕ, if◌then◌else◌, Bool, true, false, not, Option, none, some, List, [], ◌∷◌, Str, ℤ, pos, is_zero,
}
use paho_mqtt_cpp.Buffer.{Pointer, BufferRef, make, is_set, data_of, str, size, to_c_int, to_int}
use paho_mqtt_cpp.Message.{Message, Library}
use paho_mqtt_cpp.Message

-- `MQTTAsync_willOptions`, without its `message`, which stays as the C library initializes it.
pub record CWill : Type 0 where
  pub topic_name : Pointer
  pub retained : ℤ
  pub qos : ℤ
  pub payload_len : ℤ
  pub payload_data : Pointer

pub record WillOptions (P : Type 0) : Type 0 where
  pub opts : CWill
  pub topic : BufferRef
  pub payload : BufferRef
  pub props : P

module _ {P : Type 0} where
  -- `set_topic`
  unfoldable pub set_topic : ℕ → BufferRef → WillOptions P → WillOptions P
  set_topic fresh top w =
      let own = if is_set top then top else make fresh [] in
      record w { topic = own; opts = record w.opts { topic_name = data_of own } }

  -- `set_payload(binary_ref)`: "The C struct payload must not be nullptr for will options".
  unfoldable pub set_payload : ℕ → BufferRef → WillOptions P → WillOptions P
  set_payload fresh msg w =
      let own = if is_set msg then msg else make fresh [] in
      record w {
        payload = own;
        opts = record w.opts { payload_len = to_c_int (size own); payload_data = data_of own };
      }

  unfoldable pub set_qos : ℤ → WillOptions P → WillOptions P
  set_qos qos w = record w { opts = record w.opts { qos = qos } }

  unfoldable pub set_retained : Bool → WillOptions P → WillOptions P
  set_retained retained w = record w { opts = record w.opts { retained = to_int retained } }

  unfoldable pub set_properties : (P → P) → P → WillOptions P → WillOptions P
  set_properties copy props w = record w { props = copy props }

  -- `will_options()`, over the default C struct.
  unfoldable pub blank : CWill → P → ℕ → WillOptions P
  unfolding set_topic
  blank dflt no_properties fresh =
      set_topic fresh none
        (record { opts = dflt; topic = none; payload = none; props = no_properties })

  -- The constructors over a topic, a payload, the QoS and the retained flag.
  unfoldable pub new :
      CWill → (P → P) → ℕ → ℕ → BufferRef → BufferRef → ℤ → Bool → P → WillOptions P
  unfolding set_topic set_payload
  new dflt copy at_topic at_payload top payload qos retained props =
      set_payload at_payload payload (
        set_topic at_topic top (record {
          opts = record dflt { qos = qos; retained = to_int retained };
          topic = none;
          payload = none;
          props = copy props;
        }))

  -- The constructor from a message: topic and payload are strings there, and copied.
  unfoldable pub from_message : CWill → (P → P) → ℕ → ℕ → Message P → WillOptions P
  unfolding new
  from_message dflt copy at_topic at_payload msg =
      new dflt copy at_topic at_payload (make at_topic (Message.get_topic msg))
        (make at_payload (Message.get_payload msg)) msg.msg.qos (not (is_zero msg.msg.retained))
        msg.props

  -- The copy constructor.
  unfoldable pub copy_construct : (P → P) → ℕ → ℕ → WillOptions P → WillOptions P
  unfolding set_topic set_payload
  copy_construct copy at_topic at_payload other = set_payload at_payload other.payload (
      set_topic at_topic other.topic
        (record { opts = other.opts; topic = none; payload = none; props = copy other.props }))

  -- The move constructor, without what is left of the other.
  unfoldable pub move_construct : ℕ → ℕ → WillOptions P → WillOptions P
  unfolding set_topic set_payload
  move_construct at_topic at_payload other = set_payload at_payload other.payload (
      set_topic at_topic other.topic
        (record { opts = other.opts; topic = none; payload = none; props = other.props }))

  -- The assignments from other options.
  unfoldable pub copy_assign : (P → P) → ℕ → ℕ → WillOptions P → WillOptions P → WillOptions P
  unfolding set_topic set_payload
  copy_assign copy at_topic at_payload rhs w =
      record (set_payload at_payload rhs.payload
        (set_topic at_topic rhs.topic (record w { opts = rhs.opts }))) { props = copy rhs.props }

  unfoldable pub move_assign : ℕ → ℕ → WillOptions P → WillOptions P → WillOptions P
  unfolding set_topic set_payload
  move_assign at_topic at_payload rhs w =
      record (set_payload at_payload rhs.payload
        (set_topic at_topic rhs.topic (record w { opts = rhs.opts }))) { props = rhs.props }

  -- `get_message`: `message::create` with no properties; `none` is its exception.
  unfoldable pub get_message : Library P → WillOptions P → Option (Message P)
  get_message lib w =
      Message.new lib w.topic w.payload w.opts.qos (not (is_zero w.opts.retained)) lib.no_properties

-- ===== src/Message.antt =====
-- `message` of include/mqtt/message.h and src/message.cpp: the C struct of a message, and the C++
-- members that its pointers lead to. `P` is the `MQTTProperties` struct of the C library, whose
-- copy, empty value and the default message are the C library's, and parameters.
pub mod Mirror
pub mod Qos
pub mod Builder
pub mod Built
mod Tests
use paho_mqtt_cpp.Prelude.{
  ℕ, ltb, if◌then◌else◌, Bool, true, false, not, ◌||◌, ◌&&◌, Option, none, some, List, [], ◌∷◌, Str,
  ℤ, pos, negsuc, is_zero, lt_nat,
}
use paho_mqtt_cpp.Buffer.{
  Pointer, BufferRef, make, read, is_set, is_empty, data_of, str, size, to_c_int, to_int,
}

-- `MQTTAsync_message`
pub record CMessage (P : Type 0) : Type 0 where
  pub payload_len : ℤ
  pub payload : Pointer
  pub qos : ℤ
  pub retained : ℤ
  pub dup : ℤ
  pub properties : P

pub record Message (P : Type 0) : Type 0 where
  pub msg : CMessage P
  pub topic : BufferRef
  pub payload : BufferRef
  pub props : P

-- What the constructors are given of the C library.
pub record Library (P : Type 0) : Type 0 where
  -- `MQTTAsync_message_initializer` and `MQTTProperties_initializer`
  pub dflt : CMessage P
  pub no_properties : P
  -- `MQTTProperties_copy`
  pub copy : P → P

-- `qos < 0 || qos > 2`
abbrev pub is_bad_qos : ℤ → Bool
is_bad_qos (pos n) = ltb 2 n
is_bad_qos (negsuc n) = true

module _ {P : Type 0} where
  -- `set_payload(binary_ref)`, and `clear_payload` as the same for no buffer
  unfoldable pub set_payload : BufferRef → Message P → Message P
  set_payload payload m =
      if is_empty payload
      then record m {
        payload = payload;
        msg = record m.msg { payload = none; payload_len = pos 0 };
      }
      else record m {
        payload = payload;
        msg = record m.msg { payload = data_of payload; payload_len = to_c_int (size payload) };
      }

  unfoldable pub clear_payload : Message P → Message P
  clear_payload m = record m {
    payload = none;
    msg = record m.msg { payload = none; payload_len = pos 0 };
  }

  -- `set_qos`; `none` is the exception of `validate_qos`.
  unfoldable pub set_qos : ℤ → Message P → Option (Message P)
  set_qos qos m =
      if is_bad_qos qos then none else some (record m { msg = record m.msg { qos = qos } })

  unfoldable pub set_retained : Bool → Message P → Message P
  set_retained retained m = record m { msg = record m.msg { retained = to_int retained } }

  unfoldable pub set_properties : Library P → P → Message P → Message P
  set_properties lib props m =
      let own = lib.copy props in record m { props = own; msg = record m.msg { properties = own } }

  -- `set_properties(properties&&)`
  unfoldable pub move_properties : P → Message P → Message P
  move_properties props m = record m { props = props; msg = record m.msg { properties = props } }

  unfoldable pub set_topic : ℕ → BufferRef → Message P → Message P
  set_topic fresh topic m = record m { topic = if is_set topic then topic else make fresh [] }

  -- `message()`
  unfoldable pub blank : Library P → Message P
  blank lib = record { msg = lib.dflt; topic = none; payload = none; props = lib.no_properties }

  -- The constructors over a topic, a payload, the QoS and the retained flag.
  unfoldable pub new : Library P → BufferRef → BufferRef → ℤ → Bool → P → Option (Message P)
  unfolding set_payload set_qos set_retained set_properties blank
  new lib topic payload qos retained props =
      elim (set_qos qos (set_payload payload (record (blank lib) { topic = topic }))) [
        | none ↦ none
        | some m ↦ some (set_properties lib props (set_retained retained m))
      ]

  -- The constructor from the C library's message; its payload is copied to a new buffer.
  unfoldable pub from_c : Library P → ℕ → BufferRef → ℕ → CMessage P → Message P
  unfolding set_payload
  from_c lib fresh topic n cmsg =
      let own = lib.copy cmsg.properties in
      let m =
        set_payload (make fresh (read cmsg.payload n))
          (record { msg = cmsg; topic = topic; payload = none; props = own }) in
      record m { msg = record m.msg { properties = own } }

  -- The copy constructor.
  unfoldable pub copy_construct : Library P → Message P → Message P
  unfolding set_payload
  copy_construct lib other =
      let own = lib.copy other.props in
      let m =
        set_payload other.payload
          (record { msg = other.msg; topic = other.topic; payload = none; props = own }) in
      record m { msg = record m.msg { properties = own } }

  -- The move constructor: the new message, and what is left of the other.
  unfoldable pub move_construct : Library P → Message P → Message P × Message P
  unfolding set_payload
  move_construct lib other =
      let m =
        set_payload other.payload
          (record { msg = other.msg; topic = other.topic; payload = none; props = other.props }) in
      (
        record m { msg = record m.msg { properties = other.props } },
        record {
          msg = record other.msg { payload_len = pos 0; payload = none };
          topic = none;
          payload = none;
          props = lib.no_properties;
        },
      )

  -- The assignments from another message.
  unfoldable pub copy_assign : Library P → Message P → Message P → Message P
  unfolding set_payload set_properties
  copy_assign lib rhs m =
      set_properties lib rhs.props
        (set_payload rhs.payload (record m { msg = rhs.msg; topic = rhs.topic }))

  unfoldable pub move_assign : Library P → Message P → Message P → Message P × Message P
  unfolding set_payload move_properties
  move_assign lib rhs m = (
    move_properties rhs.props
        (set_payload rhs.payload (record m { msg = rhs.msg; topic = rhs.topic })),
    record { msg = lib.dflt; topic = none; payload = none; props = lib.no_properties },
  )

  -- `get_topic` and `get_payload`, with an empty string for no buffer
  abbrev pub get_topic : Message P → Str
  get_topic m = str m.topic

  abbrev pub get_payload : Message P → Str
  get_payload m = str m.payload

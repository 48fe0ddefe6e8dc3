-- ===== src/WillOptions/Mirror.antt =====
-- The C struct of `will_options`, the members that its pointers lead to, and the message of a will.
use paho_mqtt_cpp.Prelude.{
  ℕ, ◌≡◌, Bool, true, false, not, inl, inr, none, some, [], ℤ, is_zero, arith,
}
use paho_mqtt_cpp.Buffer.{BufferRef, is_set, data_of, str, size, to_c_int, to_int}
use paho_mqtt_cpp.Message.{Message, Library, is_bad_qos}
use paho_mqtt_cpp.Message.Mirror.{message_new-IsMirror}
use paho_mqtt_cpp.WillOptions.{
  CWill, WillOptions, blank, new, from_message, copy_construct, move_construct, copy_assign,
  move_assign, get_message,
}

module _ {P : Type 0} where
  -- Topic and payload have buffers, and the pointers lead to them; so no pointer is null.
  pub record IsMirror (w : WillOptions P) : Type 0 where
    pub topic_set : is_set w.topic ≡ true
    pub payload_set : is_set w.payload ≡ true
    pub topic_own : w.opts.topic_name ≡ data_of w.topic
    pub payload_own : w.opts.payload_data ≡ data_of w.payload
    pub length_own : w.opts.payload_len ≡ to_c_int (size w.payload)

  -- The constructors with a payload, and every copy, move and assignment, whatever the other's
  -- state, give options whose topic and payload pointers are not null and lead to their own
  -- buffers.
  pub made-IsMirror :
      (dflt : CWill) (copy : P → P) (a b : ℕ) (top payload : BufferRef) (qos : ℤ) (retained : Bool)
      (props : P) (other w : WillOptions P)
      → IsMirror (new dflt copy a b top payload qos retained props)
        × IsMirror (copy_construct copy a b other)
        × IsMirror (move_construct a b other)
        × IsMirror (copy_assign copy a b other w)
        × IsMirror (move_assign a b other w)
  unfolding new copy_construct move_construct copy_assign move_assign
  made-IsMirror dflt copy a b top payload qos retained props other w =
      (ground arith, ground arith, ground arith, ground arith, ground arith)

  -- The default constructor leaves the payload as the C library's default has it, which is null.
  pub blank_payload :
      (dflt : CWill) (no_properties : P) (a b c : ℕ) (copy : P → P)
      → dflt.payload_data ≡ none
      → let w = blank dflt no_properties a in
        (w.opts.payload_data ≡ none)
        × ((copy_construct copy b c w).opts.payload_data ≡ some (c, []))
  unfolding blank copy_construct
  blank_payload dflt no_properties a b c copy h = ground arith

  -- The message of a will that is made from a message with a QoS of 0, 1 or 2 has that message's
  -- topic, payload, QoS and retained flag, and no properties.
  pub get_message-from_message :
      (lib : Library P) (dflt : CWill) (a b : ℕ) (msg : Message P)
      → is_bad_qos msg.msg.qos ≡ false
      → (m : Message P) × (get_message lib (from_message dflt lib.copy a b msg) ≡ some m)
        × (str m.topic ≡ str msg.topic)
        × (str m.payload ≡ str msg.payload)
        × (m.msg.qos ≡ msg.msg.qos)
        × (m.msg.retained ≡ to_int (not (is_zero msg.msg.retained)))
        × (m.props ≡ lib.copy lib.no_properties)
  unfolding get_message from_message
  get_message-from_message lib dflt a b msg h =
      let w = from_message dflt lib.copy a b msg in
      elim (message_new-IsMirror lib w.topic w.payload w.opts.qos (not (is_zero w.opts.retained))
        lib.no_properties) [
          | inl (bad, _) ↦ cc (bad, h)
          | inr (m, good, made, mirror, qos, retained, topic, payload, props) ↦
              (m, made, ground arith, ground arith, qos, ground arith, props)
        ]

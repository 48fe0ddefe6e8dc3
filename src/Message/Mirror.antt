-- ===== src/Message/Mirror.antt =====
-- The C struct of a `message` and the members that its pointers lead to.
use paho_mqtt_cpp.Prelude.{
  ◌≡◌, if◌then◌else◌, Bool, true, false, Bool-cases, inl, inr, ◌⊎◌, none, some, ℤ, pos, arith,
}
use paho_mqtt_cpp.Buffer.{BufferRef, is_empty, data_of, size, to_c_int, to_int}
use paho_mqtt_cpp.Message.{
  Message, Library, is_bad_qos, set_payload, clear_payload, set_retained, set_properties,
  move_properties, blank, new, copy_construct, move_construct, copy_assign, move_assign,
}

module _ {P : Type 0} where
  -- The payload pointer is null for no bytes, and leads to the message's own buffer else; the
  -- length is the buffer's, as a C `int`; the properties are the message's own.
  pub record IsMirror (m : Message P) : Type 0 where
    pub payload_own : m.msg.payload ≡ (if is_empty m.payload then none else data_of m.payload)
    pub length_own :
        m.msg.payload_len ≡ (if is_empty m.payload then pos 0 else to_c_int (size m.payload))
    pub properties_own : m.msg.properties ≡ m.props

  -- The constructors throw for a QoS that is not 0, 1 or 2, and make a message with the QoS, the
  -- flag and the payload that are given else, whose C struct mirrors its members, and a copy of the
  -- properties.
  pub message_new-IsMirror :
      (lib : Library P) (topic payload : BufferRef) (qos : ℤ) (retained : Bool) (props : P)
      → ((is_bad_qos qos ≡ true) × (new lib topic payload qos retained props ≡ none))
        ⊎ ((m : Message P) × (is_bad_qos qos ≡ false)
            × (new lib topic payload qos retained props ≡ some m)
            × IsMirror m
            × (m.msg.qos ≡ qos)
            × (m.msg.retained ≡ to_int retained)
            × (m.topic ≡ topic)
            × (m.payload ≡ payload)
            × (m.props ≡ lib.copy props))
  unfolding new
  message_new-IsMirror lib topic payload qos retained props = elim (Bool-cases (is_bad_qos qos)) [
    | inl bad ↦ inl (bad, rw (bad, new))
    | inr good ↦
        let made = set_properties lib props (
          set_retained retained
            (record (set_payload payload (record (blank lib) { topic = topic })) {
              msg = record (set_payload payload (record (blank lib) { topic = topic })).msg {
                qos = qos;
              };
            })) in
        inr (
          made,
          good,
          rw (good, new),
          ground arith,
          ground arith,
          ground arith,
          ground arith,
          ground arith,
          ground arith,
        )
  ]

  -- The setters keep the mirror.
  pub message_setters-IsMirror :
      (lib : Library P) (payload : BufferRef) (qos : ℤ) (retained : Bool) (props : P)
      (m : Message P)
      → IsMirror m
      → IsMirror (set_payload payload m)
        × IsMirror (clear_payload m)
        × IsMirror (set_retained retained m)
        × IsMirror (set_properties lib props m)
        × IsMirror (move_properties props m)
  unfolding set_payload clear_payload set_retained set_properties move_properties
  message_setters-IsMirror lib payload qos retained props m v =
      (ground arith, ground arith, ground arith, ground arith, ground arith)

  -- What a message takes over from another.
  pub record IsCopy (other m : Message P) : Type 0 where
    pub mirror : IsMirror m
    pub same_topic : m.topic ≡ other.topic
    pub same_payload : m.payload ≡ other.payload
    pub same_qos : m.msg.qos ≡ other.msg.qos
    pub same_retained : m.msg.retained ≡ other.msg.retained

  -- However a message is made from another, it has the other's topic, payload, QoS and flag, and
  -- its C struct mirrors its own members, whatever the other's does.
  pub message_copies-IsMirror :
      (lib : Library P) (other m : Message P)
      → IsCopy other (copy_construct lib other)
        × IsCopy other (move_construct lib other).0
        × IsCopy other (copy_assign lib other m)
        × IsCopy other (move_assign lib other m).0
  unfolding copy_construct move_construct copy_assign move_assign
  message_copies-IsMirror lib other m = (ground arith, ground arith, ground arith, ground arith)

  -- After a move construction the C struct of the message that was moved from still holds the
  -- properties that the new message owns, where its own are empty.
  pub moved_properties :
      (lib : Library P) (other : Message P)
      → IsMirror other
      → let (m, rest) = move_construct lib other in
        (rest.msg.properties ≡ m.props) × (rest.props ≡ lib.no_properties)
  unfolding move_construct
  moved_properties lib other v = ground arith

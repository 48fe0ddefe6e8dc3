-- ===== src/Client/Sending.antt =====
-- What a publication through a topic object sends, and what arrives of it.
use paho_mqtt_cpp.Prelude.{
  ℕ, ◌<◌, ◌^◌, ◌≡◌, ◌⊎◌, refl, ap, inl, inr, if◌then◌else◌, Bool, true, false, Bool-cases, not,
  none, some, [], ◌∷◌, length, take-all, ℤ, pos, arith, is_zero,
}
use paho_mqtt_cpp.Buffer.{
  BufferRef, Pointer, make, read, str, is_empty, data_of, size, to_c_int, to_int,
}
use paho_mqtt_cpp.Message.{Library, get_topic, get_payload, from_c}
use paho_mqtt_cpp.Message.Qos.{IsQos, good-IsQos, bad-IsQos}
use paho_mqtt_cpp.Message
use paho_mqtt_cpp.Message.Mirror.{message_new-IsMirror, IsMirror}
use paho_mqtt_cpp.Event.{Message}
use paho_mqtt_cpp.Client.{Client, exception}
use paho_mqtt_cpp.Client.Requests.{request, publish_message, publishes}
use paho_mqtt_cpp.Client.Publish.{
  bad_qos, qos_of, seen, publish_new, publish_made, TopicObject, publish_with, publish,
}

-- The message that a topic object's publication stands for.
abbrev pub message_of : TopicObject → BufferRef → Message
message_of t payload = record {
  topic = t.name;
  payload = str payload;
  qos = qos_of t.qos;
  retained = t.retained;
}

to_c_int-pos : (n : ℕ) → n < 2 ^ 31 → to_c_int n ≡ pos n
to_c_int-pos n h = ground arith

flag_of-to_int : (b : Bool) → not (is_zero (to_int b)) ≡ b
flag_of-to_int true = refl
flag_of-to_int false = refl

module _ {P : Type 0} where
  seen-message :
      (m : Message.Message P) (t : TopicObject) (fresh : ℕ) (payload : BufferRef)
      → m.msg.qos ≡ t.qos
      → m.msg.retained ≡ to_int t.retained
      → m.topic ≡ make fresh t.name
      → m.payload ≡ payload
      → seen m ≡ message_of t payload
  seen-message m t fresh payload q r at_topic at_payload =
      rw (q, r, at_topic, at_payload, flag_of-to_int t.retained) refl

  -- A publication through a topic object with a QoS that is not 0, 1 or 2 throws, before there is a
  -- token; with another QoS it is the request to publish the object's name, QoS and flag and the
  -- payload.
  pub publish-request :
      (lib : Library P) (fresh : ℕ) (payload : BufferRef) (t : TopicObject) (rc id : ℤ)
      (c : Client P)
      → ((¬ IsQos t.qos) × (publish lib fresh payload t rc id c ≡ (exception bad_qos, c, [])))
        ⊎ (IsQos t.qos
            × (publish lib fresh payload t rc id c
                ≡ request (publishes (message_of t payload) 0 none id) rc c))
  unfolding publish publish_with publish_new publish_made request
  publish-request lib fresh payload t rc id c =
      elim (message_new-IsMirror lib (make fresh t.name) payload t.qos t.retained
        lib.no_properties) [
          | inl (bad, made) ↦ inl (bad-IsQos t.qos bad, rw made refl)
          | inr (m, good, made, mirror, q, r, at_topic, at_payload, props) ↦ inr (
            good-IsQos t.qos good,
            rw made (
                ap (λ n. publish_message n 0 none rc id c)
                  (seen-message m t fresh payload q r at_topic at_payload)),
          )
        ]

read-payload :
    (b : BufferRef) (p : Pointer) (len : ℤ) (n : ℕ)
    → p ≡ (if is_empty b then none else data_of b)
    → len ≡ (if is_empty b then pos 0 else to_c_int (size b))
    → len ≡ pos n
    → size b < 2 ^ 31
    → read p n ≡ str b
read-payload none p len n e k h bound = rw e refl
read-payload (some (a, [])) p len n e k h bound = rw e refl
read-payload (some (a, x ∷ xs)) p len n e k h bound =
    let whole : n ≡ size (some (a, x ∷ xs)) =
      ground (arith, k, h, to_c_int-pos (length (x ∷ xs)) bound) in
    rw e (take-all n (x ∷ xs) (omega arith))

module _ {P : Type 0} where
  -- A message whose C struct mirrors it and whose payload has fewer than 2^31 bytes: a receiver
  -- that makes a message of the same C struct and topic sees the same topic, payload, QoS and flag.
  pub from_c-seen :
      (lib : Library P) (fresh fresh_topic n : ℕ) (m : Message.Message P)
      → IsMirror m
      → m.msg.payload_len ≡ pos n
      → length (get_payload m) < 2 ^ 31
      → seen (from_c lib fresh (make fresh_topic (get_topic m)) n m.msg) ≡ seen m
  unfolding from_c
  from_c-seen lib fresh fresh_topic n m mirror h bound =
      let sent =
        read-payload m.payload m.msg.payload m.msg.payload_len n mirror.payload_own
          mirror.length_own h bound in
      rw sent (elim (Bool-cases (is_empty (make fresh (str m.payload)))) [
        | inl no_bytes ↦ rw no_bytes refl
        | inr some_bytes ↦ rw some_bytes refl
      ])

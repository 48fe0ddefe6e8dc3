-- ===== src/Client/Tests.antt =====
-- The client at concrete requests and events.
use paho_mqtt_cpp.Prelude.{
  ℕ, ◌≡◌, ◌⊎◌, refl, false, none, some, [], ◌∷◌, ◌++◌, pos, negsuc, arith, List,
}
use paho_mqtt_cpp.Buffer.{make}
use paho_mqtt_cpp.Message.{Library, from_c}
use paho_mqtt_cpp.Message.Qos.{IsQos}
use paho_mqtt_cpp.Message
use paho_mqtt_cpp.Client.Publish.{TopicObject, publish, bad_qos}
use paho_mqtt_cpp.Client.Sending.{message_of, publish-request}
use paho_mqtt_cpp.Client.Samples.{opts, hello, events, client, client-IsValid}
use paho_mqtt_cpp.Token.{Callback, failure, success}
use paho_mqtt_cpp.Event.{connection_lost}
use paho_mqtt_cpp.ThreadQueue.{put, put_ready}
use paho_mqtt_cpp.Client.{Client, token, exception, delivery_complete, Call}
use paho_mqtt_cpp.Client.Callbacks.{message_callback, put_event, connected_callback, token_done}
use paho_mqtt_cpp.Client.Delivery.{connect_listener_twice}
use paho_mqtt_cpp.Client.Requests.{Request, publishes, connects, request}
use paho_mqtt_cpp.Client.Pending.{IsValid, request_accepted, request_refused}
use paho_mqtt_cpp.Client.Completion.{token_calls, request_completes}
use paho_mqtt_cpp.Client.Consumer.{consume_message}
use paho_mqtt_cpp.Client.Consuming.{consume_message-first_message}

abbrev publication : Request
publication = publishes hello 0 (some 9) (pos 5)

abbrev failed : Callback ℕ
failed = failure (some (record { token = pos 5; code = negsuc 2; message = none }))

request_accepted_example :
    let (r, c', calls) = request publication (pos 0) client in
    (r ≡ token 2)
    × (calls ≡ [])
    × ((c'.tokens 2).complete ≡ false)
    × (c'.pending_tokens ≡ 0 ∷ [])
    × (c'.pending_delivery_tokens ≡ 1 ∷ 2 ∷ [])
    × IsValid c'
request_accepted_example = request_accepted publication client tt client-IsValid

request_refused_example :
    let (r, c', calls) = request publication (negsuc 2) client in
    (r ≡ exception (negsuc 2))
    × (calls ≡ delivery_complete 2 ∷ [])
    × (c'.pending_tokens ≡ 0 ∷ [])
    × (c'.pending_delivery_tokens ≡ 1 ∷ [])
    × (c'.next ≡ 3)
request_refused_example = request_refused publication (negsuc 2) client tt client-IsValid refl

request_completes_example :
    let c' = (request publication (pos 0) client).1 in
    let (done, calls) = token_done failed 2 c' in
    (done.pending_tokens ≡ 0 ∷ [])
    × (done.pending_delivery_tokens ≡ 1 ∷ [])
    × (calls ≡ token_calls failed 2 (some 9) ++ delivery_complete 2 ∷ [])
request_completes_example = request_completes publication failed client tt client-IsValid

consume_message-first_message_example :
    consume_message 4 events ≡ some (some hello, record events { que = connection_lost [] ∷ [] })
consume_message-first_message_example =
    consume_message-first_message events.que 4 events refl (omega arith)

-- The queue of events is empty at first.
abbrev quiet : Client ℕ
quiet = record client { que = some (record events { que = [] }) }

-- Its queue is full.
abbrev busy : Client ℕ
busy = record client { que = some (record events { cap = 3 }) }

busy_waits : message_callback hello busy ≡ none
unfolding message_callback put_event put put_ready
busy_waits = refl

abbrev unqueued : Client ℕ
unqueued = record client { que = none }

unqueued-IsValid : IsValid unqueued
unqueued-IsValid = record { tokens_below = (omega arith, tt); deliveries_below = (omega arith, tt) }

connect_listener_twice_example :
    let sent = (request (connects opts 0 (some 9)) (pos 0) unqueued).1 in
    let (done, calls) = token_done (success none) 2 sent in
    (calls ≡ token_calls (success none) 2 (some 9))
    × (c' : Client ℕ) × (handlers : List (Call ℕ)) × (connected_callback none done
        ≡ some (c', token_calls (success none) 2 (some 9) ++ handlers))
connect_listener_twice_example =
    connect_listener_twice opts 0 9 none none unqueued unqueued-IsValid refl

abbrev lib : Library ℕ
lib = record {
  dflt = record {
    payload_len = pos 0;
    payload = none;
    qos = pos 0;
    retained = pos 0;
    dup = pos 0;
    properties = 0;
  };
  no_properties = 0;
  copy = λ n. n;
}

abbrev alarms : TopicObject
alarms = record { name = b'a' ∷ []; qos = pos 1; retained = false }

publish-request_example :
    let bytes = make 3 (1 ∷ []) in
    ((¬ IsQos (pos 1))
      × (publish lib 4 bytes alarms (pos 0) (pos 5) client ≡ (exception bad_qos, client, [])))
    ⊎ (IsQos (pos 1)
        × (publish lib 4 bytes alarms (pos 0) (pos 5) client
            ≡ request (publishes (message_of alarms bytes) 0 none (pos 5)) (pos 0) client))
publish-request_example = publish-request lib 4 (make 3 (1 ∷ [])) alarms (pos 0) (pos 5) client

-- A message with one byte, that was received.
abbrev received : Message.Message ℕ
received = record {
  msg = record {
    payload_len = pos 1;
    payload = some (3, 1 ∷ []);
    qos = pos 1;
    retained = pos 0;
    dup = pos 0;
    properties = 0;
  };
  topic = make 4 (b'a' ∷ []);
  payload = make 3 (1 ∷ []);
  props = 0;
}

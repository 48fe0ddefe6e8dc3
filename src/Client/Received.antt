-- ===== src/Client/Received.antt =====
-- The messages that a consumer takes from the queue of events.
use paho_mqtt_cpp.Prelude.{
  ℕ, zero, suc, ◌≡◌, refl, ap, Option, none, some, List, [], ◌∷◌, ◌++◌, arith,
}
use paho_mqtt_cpp.Event.{
  Event, Message, message, connected, connection_lost, disconnected, shutdown, is_any_disconnect,
  get_message_if,
}
use paho_mqtt_cpp.ThreadQueue.{Queue}
use paho_mqtt_cpp.ThreadQueue
use paho_mqtt_cpp.Client.{Client}
use paho_mqtt_cpp.Client.Consumer.{
  Tried, got, consume_message, consume_event, try_consume_message, try_consume_event,
}
use paho_mqtt_cpp.Client.Runs.{Act, Runs, is_own, here, next, act, asks, reconnects, ends}
use paho_mqtt_cpp.Client.Runs

abbrev pub message_list : Option Message → List Message
message_list none = []
message_list (some m) = m ∷ []

abbrev pub tried_messages : Tried → List Message
tried_messages (got m) = message_list m
tried_messages t = []

module _ {P : Type 0} where
  -- The messages of some events.
  abbrev pub messages_in : List (Event P) → List Message
  messages_in [] = []
  messages_in (message m ∷ es) = message_list m ++ messages_in es
  messages_in (e ∷ es) = messages_in es

  -- The messages that wait for a consumer.
  abbrev pub waiting : Option (Queue (Event P)) → List Message
  waiting none = []
  waiting (some q) = messages_in q.que

  -- The messages that a call takes from the queue: what `consume_message` and `try_consume_message`
  -- return, and the message of an event that `consume_event` or `try_consume_event` returns.
  abbrev pub event_messages : Option (Event P) → List Message
  event_messages none = []
  event_messages (some e) = messages_in (e ∷ [])

  abbrev pub received : Act P → Client P → List Message
  received (Runs.consumes fuel) c = elim (c.que) [
    | none ↦ []
    | some q ↦ elim (consume_message fuel q) [ none ↦ [] | some (m, q') ↦ message_list m ]
  ]
  received (Runs.tries fuel) c = elim (c.que) [
    | none ↦ []
    | some q ↦ tried_messages (try_consume_message fuel q).0
  ]
  received Runs.takes_event c = elim (c.que) [
    | none ↦ []
    | some q ↦ elim (consume_event q) [ none ↦ [] | some (e, q') ↦ messages_in (e ∷ []) ]
  ]
  received Runs.tries_event c = elim (c.que) [
    | none ↦ []
    | some q ↦ event_messages (try_consume_event q).0
  ]
  received a c = []

  pub messages_in-append :
      (xs ys : List (Event P)) → messages_in (xs ++ ys) ≡ messages_in xs ++ messages_in ys
  messages_in-append [] ys = refl
  messages_in-append (message none ∷ xs) ys = messages_in-append xs ys
  messages_in-append (message (some m) ∷ xs) ys = ap (λ l. m ∷ l) (messages_in-append xs ys)
  messages_in-append (connected cause ∷ xs) ys = messages_in-append xs ys
  messages_in-append (connection_lost cause ∷ xs) ys = messages_in-append xs ys
  messages_in-append (disconnected p r ∷ xs) ys = messages_in-append xs ys
  messages_in-append (shutdown ∷ xs) ys = messages_in-append xs ys

  pub consume_message-messages :
      (fuel : ℕ) (es : List (Event P)) (q q' : Queue (Event P)) (m : Option Message)
      → q.que ≡ es
      → consume_message fuel q ≡ some (m, q')
      → messages_in es ≡ message_list m ++ messages_in q'.que
  unfolding consume_message consume_event is_any_disconnect get_message_if ThreadQueue.get
      ThreadQueue.get_ready ThreadQueue.is_empty
  consume_message-messages zero es q q' m e h = ground arith
  consume_message-messages (suc fuel) [] q q' m e h = ground arith
  consume_message-messages (suc fuel) (message k ∷ es) q q' m e h = ground arith
  consume_message-messages (suc fuel) (connected c ∷ es) q q' m e h =
      ground (arith, consume_message-messages fuel es (record q { que = es }) q' m refl)
  consume_message-messages (suc fuel) (connection_lost c ∷ es) q q' m e h = ground arith
  consume_message-messages (suc fuel) (disconnected p r ∷ es) q q' m e h = ground arith
  consume_message-messages (suc fuel) (shutdown ∷ es) q q' m e h = ground arith

  pub try_consume_message-messages :
      (fuel : ℕ) (es : List (Event P)) (q : Queue (Event P))
      → q.que ≡ es
      → messages_in es
        ≡ tried_messages (try_consume_message fuel q).0
          ++ messages_in (try_consume_message fuel q).1.que
  unfolding try_consume_message try_consume_event is_any_disconnect get_message_if
      ThreadQueue.try_get
  try_consume_message-messages zero es q e = ground arith
  try_consume_message-messages (suc fuel) [] q e = ground arith
  try_consume_message-messages (suc fuel) (message k ∷ es) q e = ground arith
  try_consume_message-messages (suc fuel) (connected c ∷ es) q e =
      ground (arith, try_consume_message-messages fuel es (record q { que = es }) refl)
  try_consume_message-messages (suc fuel) (connection_lost c ∷ es) q e = ground arith
  try_consume_message-messages (suc fuel) (disconnected p r ∷ es) q e = ground arith
  try_consume_message-messages (suc fuel) (shutdown ∷ es) q e = ground arith

  messages_in-cons :
      (e : Event P) (es : List (Event P))
      → messages_in (e ∷ es) ≡ messages_in (e ∷ []) ++ messages_in es
  messages_in-cons e es = messages_in-append (e ∷ []) es

  pub consume_event-messages :
      (es : List (Event P)) (q q' : Queue (Event P)) (e : Event P)
      → q.que ≡ es
      → consume_event q ≡ some (e, q')
      → messages_in es ≡ messages_in (e ∷ []) ++ messages_in q'.que
  unfolding consume_event ThreadQueue.get ThreadQueue.get_ready ThreadQueue.is_empty
  consume_event-messages [] q q' e h k = ground arith
  consume_event-messages (x ∷ es) q q' e h k = ground (arith, messages_in-cons x es)

  pub try_consume_event-messages :
      (es : List (Event P)) (q : Queue (Event P))
      → q.que ≡ es
      → messages_in es
        ≡ event_messages (try_consume_event q).0 ++ messages_in (try_consume_event q).1.que
  unfolding try_consume_event ThreadQueue.try_get
  try_consume_event-messages [] q h = ground arith
  try_consume_event-messages (x ∷ es) q h = ground (arith, messages_in-cons x es)

-- ===== src/Client/Consuming.antt =====
-- What a consumer gets from the queue of events.
use paho_mqtt_cpp.Prelude.{
  ℕ, zero, suc, ◌<◌, if◌then◌else◌, ◌≡◌, refl, Option, none, some, List, [], ◌∷◌, length, arith,
}
use paho_mqtt_cpp.Event.{
  Event, Message, message, connected, connection_lost, disconnected, shutdown, is_any_disconnect,
  get_message_if,
}
use paho_mqtt_cpp.ThreadQueue.{Queue}
use paho_mqtt_cpp.ThreadQueue
use paho_mqtt_cpp.Client.Consumer.{consume_message, try_consume_message, got, nothing}

module _ {P : Type 0} where
  -- The first message pointer of the events, past the connections; an event that ends the
  -- connection reads as a null pointer.
  abbrev pub first_message : List (Event P) → Option (Option Message × List (Event P))
  first_message [] = none
  first_message (message m ∷ es) = some (m, es)
  first_message (connected cause ∷ es) = first_message es
  first_message (e ∷ es) = some (none, es)

  abbrev leave : Queue (Event P) → List (Event P) → Queue (Event P)
  leave q es = record q { que = es }

  -- `consume_message`, with more fuel than there are events, returns the first message pointer,
  -- with the events behind it left; with none it waits, or from a closed queue returns a null
  -- pointer.
  pub consume_message-first_message :
      (es : List (Event P)) (fuel : ℕ) (q : Queue (Event P))
      → q.que ≡ es
      → length es < fuel
      → consume_message fuel q ≡ elim (first_message es) [
        | some (m, rest) ↦ some (m, leave q rest)
        | none ↦ if q.closed then some (none, leave q []) else none
      ]
  unfolding consume_message is_any_disconnect get_message_if ThreadQueue.get ThreadQueue.get_ready
      ThreadQueue.is_empty
  consume_message-first_message es zero q e h = absurd (omega arith)
  consume_message-first_message [] (suc fuel) q e h = ground arith
  consume_message-first_message (message m ∷ es) (suc fuel) q e h = ground arith
  consume_message-first_message (connected c ∷ es) (suc fuel) q e h =
      ground (arith, consume_message-first_message es fuel (leave q es) refl)
  consume_message-first_message (connection_lost c ∷ es) (suc fuel) q e h = ground arith
  consume_message-first_message (disconnected p r ∷ es) (suc fuel) q e h = ground arith
  consume_message-first_message (shutdown ∷ es) (suc fuel) q e h = ground arith

  -- `try_consume_message`, with more fuel than there are events, returns the first message
  -- pointer, with the events behind it left; with none it empties the queue and returns false,
  -- from a closed queue too.
  pub try_consume_message-first_message :
      (es : List (Event P)) (fuel : ℕ) (q : Queue (Event P))
      → q.que ≡ es
      → length es < fuel
      → try_consume_message fuel q ≡ elim (first_message es) [
        | some (m, rest) ↦ (got m, leave q rest)
        | none ↦ (nothing, leave q [])
      ]
  unfolding try_consume_message is_any_disconnect get_message_if ThreadQueue.try_get
  try_consume_message-first_message es zero q e h = absurd (omega arith)
  try_consume_message-first_message [] (suc fuel) q e h = ground arith
  try_consume_message-first_message (message m ∷ es) (suc fuel) q e h = ground arith
  try_consume_message-first_message (connected c ∷ es) (suc fuel) q e h =
      ground (arith, try_consume_message-first_message es fuel (leave q es) refl)
  try_consume_message-first_message (connection_lost c ∷ es) (suc fuel) q e h = ground arith
  try_consume_message-first_message (disconnected p r ∷ es) (suc fuel) q e h = ground arith
  try_consume_message-first_message (shutdown ∷ es) (suc fuel) q e h = ground arith

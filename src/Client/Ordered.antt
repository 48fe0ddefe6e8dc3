-- ===== src/Client/Ordered.antt =====
-- The messages that a consumer gets over a run, and their order.
use paho_mqtt_cpp.Prelude.{
  ◌≡◌, refl, ap, sym, ◌∙◌, if◌then◌else◌, true, ◌&&◌, Option, none, some, Option-cases, List, [],
  ◌∷◌, ◌++◌, append_assoc, append-nil, arith, ◌⊎◌, inl, inr,
}
use paho_mqtt_cpp.Event.{Event, Message, message, connected, connection_lost, disconnected}
use paho_mqtt_cpp.ThreadQueue.{Queue}
use paho_mqtt_cpp.ThreadQueue
use paho_mqtt_cpp.Client.{Client, Call}
use paho_mqtt_cpp.Client.Callbacks.{
  cause_str, connected_callback, connection_lost_callback, disconnected_callback, message_callback,
  put_event,
}
use paho_mqtt_cpp.Client.Consumer.{
  is_open, consume_message, consume_event, start_consuming, stop_consuming, clear_consumer,
  register,
}
use paho_mqtt_cpp.Client.Setup.{
  disable_callbacks, set_connected_handler, set_connection_lost_handler, set_disconnected_handler,
  set_message_callback,
}
use paho_mqtt_cpp.Client.Runs.{Act, Runs, is_own, here, next, act, asks, reconnects, ends}
use paho_mqtt_cpp.Client.Runs
use paho_mqtt_cpp.Client.Aside.{
  token_done-IsAside, request-IsAside, reconnect-IsAside, connect_done-IsAside,
}
use paho_mqtt_cpp.Client.Received.{
  messages_in, waiting, received, messages_in-append, consume_message-messages,
  try_consume_message-messages, consume_event-messages, try_consume_event-messages,
}

module _ {P : Type 0} where
  -- The message that comes with a call, where the C library has the client's own function for
  -- messages and the queue of events is open.
  abbrev pub entered : Act P → Client P → List Message
  entered (Runs.arrives m) c = if is_own c.hooks.message_hook && is_open c.que then m ∷ [] else []
  entered a c = []

  -- A new queue of events is made, and the queue cleared, only where no message waits.
  abbrev pub IsPatient : Act P → Client P → Type 0
  IsPatient (Runs.starts rcs) c = (is_open c.que ≡ true) ⊎ (waiting c.que ≡ [])
  IsPatient Runs.clears c = waiting c.que ≡ []
  IsPatient a c = Unit {0}

  with_event-waiting :
      (evt : Event P) (que que' : Option (Queue (Event P)))
      → put_event evt que ≡ some que'
      → waiting que' ≡ waiting que ++ (if is_open que then messages_in (evt ∷ []) else [])
  unfolding put_event ThreadQueue.put ThreadQueue.put_ready
  with_event-waiting evt none que' h = ground arith
  with_event-waiting evt (some q) que' h =
      ground (arith, messages_in-append q.que (evt ∷ []), append-nil (messages_in q.que))

  act-waiting :
      (a : Act P) (c c' : Client P) (calls : List (Call P))
      → act a c ≡ some (c', calls)
      → IsPatient a c
      → waiting c.que ++ entered a c ≡ received a c ++ waiting c'.que
  unfolding act connected_callback connection_lost_callback disconnected_callback message_callback
      start_consuming stop_consuming clear_consumer disable_callbacks register set_connected_handler
      set_connection_lost_handler set_disconnected_handler set_message_callback ThreadQueue.clear
      ThreadQueue.close ThreadQueue.new
  act-waiting (asks req rc) c c' calls h p =
      ground (arith, request-IsAside req rc c, append-nil (waiting c.que))
  act-waiting (reconnects rc_set rc) c c' calls h p =
      ground (arith, reconnect-IsAside rc_set rc c, append-nil (waiting c.que))
  act-waiting (ends cb tok) c c' calls h p =
      ground (arith, token_done-IsAside cb tok c, append-nil (waiting c.que))
  act-waiting (Runs.connects cause) c c' calls h p = ground (
    arith,
    connect_done-IsAside c.conn_tok c,
    with_event-waiting (connected (cause_str cause)) c.que c'.que,
    append-nil (waiting c.que),
  )
  act-waiting (Runs.loses cause) c c' calls h p = ground (
    arith,
    with_event-waiting (connection_lost (cause_str cause)) c.que c'.que,
    append-nil (waiting c.que),
  )
  act-waiting (Runs.disconnects props reason) c c' calls h p = ground (
    arith,
    with_event-waiting (disconnected props reason) c.que c'.que,
    append-nil (waiting c.que),
  )
  act-waiting (Runs.arrives m) c c' calls h p =
      ground (arith, with_event-waiting (message (some m)) c.que c'.que, append-nil (waiting c.que))
  act-waiting (Runs.starts rcs) c c' calls h p = ground (arith, append-nil (waiting c.que))
  act-waiting (Runs.stops rc) c c' calls h p = ground (arith, append-nil (waiting c.que))
  act-waiting Runs.clears c c' calls h p = ground (arith, append-nil (waiting c.que))
  act-waiting (Runs.disables rc) c c' calls h p = ground (arith, append-nil (waiting c.que))
  act-waiting Runs.takes_event c c' calls h p = elim (Option-cases (c.que)) [
    | inl e ↦ ground arith
    | inr (q, e) ↦ elim (Option-cases (consume_event q)) [
      | inl e' ↦ ground arith
      | inr ((x, q'), e') ↦
          ground
            (arith, consume_event-messages q.que q q' x refl e', append-nil (messages_in q.que))
    ]
  ]
  act-waiting Runs.tries_event c c' calls h p = elim (Option-cases (c.que)) [
    | inl e ↦ ground arith
    | inr (q, e) ↦
        ground (arith, try_consume_event-messages q.que q refl, append-nil (messages_in q.que))
  ]
  act-waiting (Runs.tries fuel) c c' calls h p = elim (Option-cases (c.que)) [
    | inl e ↦ ground arith
    | inr (q, e) ↦
        ground
          (arith, try_consume_message-messages fuel q.que q refl, append-nil (messages_in q.que))
  ]
  act-waiting (Runs.sets_connected on rc) c c' calls h p =
      ground (arith, append-nil (waiting c.que))
  act-waiting (Runs.sets_lost on rc) c c' calls h p = ground (arith, append-nil (waiting c.que))
  act-waiting (Runs.sets_disconnected on rc) c c' calls h p =
      ground (arith, append-nil (waiting c.que))
  act-waiting (Runs.sets_message on rc) c c' calls h p = ground (arith, append-nil (waiting c.que))
  act-waiting (Runs.consumes fuel) c c' calls h p = elim (Option-cases (c.que)) [
    | inl e ↦ ground arith
    | inr (q, e) ↦ elim (Option-cases (consume_message fuel q)) [
      | inl e' ↦ ground arith
      | inr ((m, q'), e') ↦ ground (
        arith,
        consume_message-messages fuel q.que q q' m refl e',
        append-nil (messages_in q.que),
      )
    ]
  ]

  -- What a function of each call and of the client before it gives, over a run.
  abbrev pub over :
      {A : Type 0} {Q : Act P → Client P → Type 0} {c c' : Client P} {calls : List (Call P)}
      → (Act P → Client P → List A)
      → Runs Q c c' calls
      → List A
  over f here = []
  over f (next {c'} a run q e) = over f run ++ f a c'

  -- In a run in which the consumer starts anew, and its queue is cleared, only where no message
  -- waits: the messages that waited at the start, and then those that came while the queue of
  -- events was open and the C library had the client's own function for messages, are in this order
  -- the messages that the functions of the consumer took, and then those that wait at the end. None
  -- is lost, made up or overtaken.
  pub run_in_order :
      {c c' : Client P} {calls : List (Call P)} (run : Runs IsPatient c c' calls)
      → waiting c.que ++ over entered run ≡ over received run ++ waiting c'.que
  run_in_order {c} here = append-nil (waiting c.que)
  run_in_order {c} (next {c'} {c''} a run p e) =
      sym (append_assoc (waiting c.que) (over entered run) (entered a c'))
      ∙ ap (λ l. l ++ entered a c') (run_in_order run)
      ∙ append_assoc (over received run) (waiting c'.que) (entered a c')
      ∙ ap (λ l. over received run ++ l) (act-waiting a c' c'' _ e p)
      ∙ sym (append_assoc (over received run) (received a c') (waiting c''.que))

-- ===== src/Client/Consumer.antt =====
-- The consumer side of `async_client`: starting and stopping, and consuming events and messages.
use paho_mqtt_cpp.Prelude.{
  ℕ, zero, suc, if◌then◌else◌, Bool, true, false, not, Option, none, some, ℤ, is_zero,
}
use paho_mqtt_cpp.Event.{Event, Message, shutdown, is_any_disconnect, get_message_if}
use paho_mqtt_cpp.ThreadQueue.{Queue, Done, Reply, unit, bool, stored, item, throws_closed}
use paho_mqtt_cpp.ThreadQueue
use paho_mqtt_cpp.Client.{Client, Result, exception, own}
use paho_mqtt_cpp.Client.Setup.{disable_callbacks}

-- What `try_consume_message` does: returns false, or true with the pointer stored.
pub data Tried : Type 0 where
  out_of_fuel nothing : Tried
  got : Option Message → Tried

-- What the C library answers to `start_consuming`, in the order of the calls.
pub record Starts : Type 0 where
  pub disable : ℤ
  pub callbacks : ℤ
  pub connected : ℤ
  pub disconnected : ℤ

module _ {P : Type 0} where
  -- `que_ && !que_->closed()`
  abbrev pub is_open : Option (Queue (Event P)) → Bool
  is_open none = false
  is_open (some q) = not q.closed

  -- The calls of `start_consuming` after there is a new queue; the first that is refused throws.
  unfoldable pub register : Starts → Client P → Option Result × Client P
  register rcs c =
      let heard = record c { hooks = record c.hooks { message_hook = own; lost_hook = own } } in
      let told = record heard { hooks = record heard.hooks { connected_hook = own } } in
      if not (is_zero rcs.callbacks)
      then (some (exception rcs.callbacks), c)
      else if not (is_zero rcs.connected)
      then (some (exception rcs.connected), heard)
      else if not (is_zero rcs.disconnected)
      then (some (exception rcs.disconnected), told)
      else (none, record told { hooks = record told.hooks { disconnected_hook = own } })

  -- `start_consuming`, with the exception that it throws, if any.
  unfoldable pub start_consuming : Starts → Client P → Option Result × Client P
  unfolding disable_callbacks register
  start_consuming rcs c =
      let (thrown, off, calls) = disable_callbacks rcs.disable c in
      if is_open c.que then (none, c) else elim thrown [
        | some e ↦ (some e, off)
        | none ↦ register rcs (record off { que = some ThreadQueue.new })
      ]

  abbrev pub closed : Option (Queue (Event P)) → Option (Queue (Event P))
  closed none = none
  closed (some q) = some (ThreadQueue.close q).queue

  -- `stop_consuming`, which closes the queue also where it throws.
  unfoldable pub stop_consuming : ℤ → Client P → Option Result × Client P
  unfolding disable_callbacks
  stop_consuming rc c =
      let (thrown, off, calls) = disable_callbacks rc c in
      (thrown, record off { que = closed off.que })

  event_of : Reply (Event P) → Event P
  event_of (item e) = e
  event_of r = shutdown

  -- `consume_event` on the queue; `none` means that it waits.
  unfoldable pub consume_event : Queue (Event P) → Option (Event P × Queue (Event P))
  unfolding event_of
  consume_event q = elim (ThreadQueue.get q) [
    | none ↦ none
    | some d ↦ some (event_of d.reply, d.queue)
  ]

  stored_event : Reply (Event P) → Option (Event P)
  stored_event (stored e) = some e
  stored_event r = none

  -- `try_consume_event` on the queue: the event that is stored, if it returns true. `try_get`
  -- throws nothing, so the handler of `queue_closed` is never entered.
  unfoldable pub try_consume_event : Queue (Event P) → Option (Event P) × Queue (Event P)
  unfolding stored_event
  try_consume_event q = let d = ThreadQueue.try_get true q in (stored_event d.reply, d.queue)

  -- The end of a round of the loops below: the message pointer to return, or another round.
  message_of : Event P → Option (Option Message)
  message_of e = elim (get_message_if e) [
    | some m ↦ some m
    | none ↦ if is_any_disconnect e then some none else none
  ]

  -- `consume_message`, with a started consumer: the message pointer, which may be null; `none` is a
  -- wait for an event, or a shortage of fuel.
  unfoldable pub consume_message : ℕ → Queue (Event P) → Option (Option Message × Queue (Event P))
  unfolding consume_event message_of
  consume_message zero q = none
  consume_message (suc fuel) q = elim (consume_event q) [
    | none ↦ none
    | some (e, q') ↦ elim (message_of e) [ some m ↦ some (m, q') | none ↦ consume_message fuel q' ]
  ]

  unfoldable pub try_consume_message : ℕ → Queue (Event P) → Tried × Queue (Event P)
  unfolding try_consume_event message_of
  try_consume_message zero q = (out_of_fuel, q)
  try_consume_message (suc fuel) q =
      let (e?, q') = try_consume_event q in
      elim e? [
        | none ↦ (nothing, q')
        | some e ↦ elim (message_of e) [ some m ↦ (got m, q') | none ↦ try_consume_message fuel q' ]
      ]

  -- `clear_consumer`, `consumer_closed`, `consumer_done` and `consumer_queue_size`
  unfoldable pub clear_consumer : Client P → Client P
  unfolding ThreadQueue.clear
  clear_consumer c = elim (c.que) [
    | none ↦ c
    | some q ↦ record c { que = some (ThreadQueue.clear q).queue }
  ]

  unfoldable pub consumer_closed : Client P → Bool
  consumer_closed c = elim (c.que) [ none ↦ true | some q ↦ q.closed ]

  unfoldable pub consumer_done : Client P → Bool
  unfolding ThreadQueue.is_done
  consumer_done c = elim (c.que) [ none ↦ true | some q ↦ ThreadQueue.is_done q ]

  unfoldable pub consumer_queue_size : Client P → ℕ
  consumer_queue_size c = elim (c.que) [ none ↦ 0 | some q ↦ ThreadQueue.size q ]

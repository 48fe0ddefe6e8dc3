-- ===== src/Client/Runs.antt =====
-- Runs of a client: whatever the application and the C library do, one call after the other. A call
-- is one step here, though the source takes its lock more than once in some, so that what another
-- thread sees in the middle of a call is left out.
use paho_mqtt_cpp.Prelude.{ℕ, Bool, true, false, ◌≡◌, Option, none, some, List, [], ◌++◌, Str, ℤ}
use paho_mqtt_cpp.Token.{Callback}
use paho_mqtt_cpp.Event.{Message, Event}
use paho_mqtt_cpp.ThreadQueue.{Queue}
use paho_mqtt_cpp.Client.{Client, Call, Hook, own, null, discards}
use paho_mqtt_cpp.Client.Requests.{Request, request, reconnect}
use paho_mqtt_cpp.Client.Callbacks.{
  token_done, connected_callback, connection_lost_callback, disconnected_callback, message_callback,
}
use paho_mqtt_cpp.Client.Consumer.{
  Starts, Tried, out_of_fuel, nothing, got, start_consuming, stop_consuming, clear_consumer,
  consume_message, try_consume_message, consume_event, try_consume_event,
}
use paho_mqtt_cpp.Client.Setup.{
  disable_callbacks, set_connected_handler, set_connection_lost_handler, set_disconnected_handler,
  set_message_callback,
}

-- The application asks, starts, stops, clears, consumes and sets handlers; the C library answers,
-- ends a request with a callback on its token, and makes the callbacks on the client.
pub data Act (P : Type 0) : Type 0 where
  asks : Request → ℤ → Act P
  reconnects : ℤ → ℤ → Act P
  ends : Callback P → ℕ → Act P
  connects loses : Option Str → Act P
  disconnects : P → ℕ → Act P
  arrives : Message → Act P
  starts : Starts → Act P
  stops disables : ℤ → Act P
  clears takes_event tries_event : Act P
  consumes tries : ℕ → Act P
  sets_connected sets_lost sets_disconnected sets_message : Bool → ℤ → Act P

abbrev pub is_own : Hook → Bool
is_own own = true
is_own null = false
is_own discards = false

module _ {P : Type 0} where
  abbrev pub consumed : ℕ → Client P → Option (Client P)
  consumed fuel c = elim (c.que) [
    | none ↦ none
    | some q ↦ elim (consume_message fuel q) [
      | none ↦ none
      | some (m, q') ↦ some (record c { que = some q' })
    ]
  ]

  abbrev pub quietly : Option (Client P) → Option (Client P × List (Call P))
  quietly none = none
  quietly (some c) = some (c, [])

  -- What a call on the queue leaves of it.
  abbrev with_queue : Client P → Queue (Event P) → Client P
  with_queue c q = record c { que = some q }

  abbrev left : Client P → Tried × Queue (Event P) → Option (Client P)
  left c (out_of_fuel, q) = none
  left c (nothing, q) = some (with_queue c q)
  left c (got m, q) = some (with_queue c q)

  abbrev pub tried : ℕ → Client P → Option (Client P)
  tried fuel c = elim (c.que) [ none ↦ none | some q ↦ left c (try_consume_message fuel q) ]

  abbrev pub taken : Client P → Option (Client P)
  taken c = elim (c.que) [
    | none ↦ none
    | some q ↦ elim (consume_event q) [ none ↦ none | some (e, q') ↦ some (with_queue c q') ]
  ]

  abbrev pub polled : Client P → Option (Client P)
  polled c = elim (c.que) [ none ↦ none | some q ↦ some (with_queue c (try_consume_event q).1) ]

  -- A callback of the client, where the C library has it.
  abbrev pub if_own :
      Hook → Client P → Option (Client P × List (Call P)) → Option (Client P × List (Call P))
  if_own own c called = called
  if_own null c called = some (c, [])
  if_own discards c called = some (c, [])

  -- The client after a call and what the client calls meanwhile; `none` is a call that waits, or
  -- that needs a consumer queue where there is none. A callback object is set before a run.
  unfoldable pub act : Act P → Client P → Option (Client P × List (Call P))
  unfolding request reconnect token_done connected_callback connection_lost_callback
      disconnected_callback message_callback start_consuming stop_consuming clear_consumer
      consume_message try_consume_message consume_event try_consume_event disable_callbacks
      set_connected_handler set_connection_lost_handler set_disconnected_handler
      set_message_callback
  act (asks req rc) c = some ((request req rc c).1, (request req rc c).2)
  act (reconnects rc_set rc) c = some ((reconnect rc_set rc c).1, (reconnect rc_set rc c).2)
  act (ends cb tok) c = some (token_done cb tok c)
  act (connects cause) c = if_own c.hooks.connected_hook c (connected_callback cause c)
  act (loses cause) c = if_own c.hooks.lost_hook c (connection_lost_callback cause c)
  act (disconnects props reason) c =
      if_own c.hooks.disconnected_hook c (disconnected_callback props reason c)
  act (arrives m) c = if_own c.hooks.message_hook c (message_callback m c)
  act (starts rcs) c = some ((start_consuming rcs c).1, [])
  act (stops rc) c = some ((stop_consuming rc c).1, [])
  act (disables rc) c = some ((disable_callbacks rc c).1, [])
  act clears c = some (clear_consumer c, [])
  act (consumes fuel) c = quietly (consumed fuel c)
  act (tries fuel) c = quietly (tried fuel c)
  act takes_event c = quietly (taken c)
  act tries_event c = quietly (polled c)
  act (sets_connected cb rc) c = some ((set_connected_handler cb rc c).1, [])
  act (sets_lost cb rc) c = some ((set_connection_lost_handler cb rc c).1, [])
  act (sets_disconnected cb rc) c = some ((set_disconnected_handler cb rc c).1, [])
  act (sets_message cb rc) c = some ((set_message_callback cb rc c).1, [])

  -- The clients that runs lead to, with all that is called; `Q` says what may happen to a client.
  pub data Runs (Q : Act P → Client P → Type 0) (c : Client P)
      : Client P → List (Call P) → Type 0 where
    here : Runs Q c c []
    next :
        {c' c'' : Client P} {calls calls' : List (Call P)} (a : Act P)
        → Runs Q c c' calls
        → Q a c'
        → act a c' ≡ some (c'', calls')
        → Runs Q c c'' (calls ++ calls')

  -- Whatever there is.
  abbrev pub Anything : Act P → Client P → Type 0
  Anything a c = Unit {0}

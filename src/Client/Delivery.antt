-- ===== src/Client/Delivery.antt =====
-- From a callback of the C library through the queue of events to the consumer.
use paho_mqtt_cpp.Prelude.{
  ℕ, ◌+◌, ◌<◌, ◌≡◌, refl, ap, ◌∙◌, false, Option, none, some, List, [], ◌∷◌, ◌++◌, length,
  length-append, Str, arith, append-nil,
}
use paho_mqtt_cpp.Token.{Token, Callback, SuccessData, success}
use paho_mqtt_cpp.Token
use paho_mqtt_cpp.Event.{
  Event, Message, message, connected, connection_lost, disconnected, shutdown,
}
use paho_mqtt_cpp.ThreadQueue.{Queue, put_ready}
use paho_mqtt_cpp.ThreadQueue
use paho_mqtt_cpp.Client.{
  Client, ConnectOptions, Call, message_arrived, on_message, on_connected, has, remove_token,
  create, add_token,
}
use paho_mqtt_cpp.Client
use paho_mqtt_cpp.Token.Completion.{complete_with-completes}
use paho_mqtt_cpp.Client.Requests.{connects, request}
use paho_mqtt_cpp.Client.Callbacks.{
  call_if, cause_str, put_event, message_callback, connected_callback, connect_done, token_done,
}
use paho_mqtt_cpp.Client.Pending.{IsValid, fresh-has}
use paho_mqtt_cpp.Client.Completion.{token_calls, token_done_other}
use paho_mqtt_cpp.Client.Consumer.{consume_message}
use paho_mqtt_cpp.Client.Consuming.{first_message, consume_message-first_message}

module _ {P : Type 0} where
  abbrev pub with_message : Queue (Event P) → Message → Queue (Event P)
  with_message q m = record q { que = q.que ++ (message (some m) ∷ []) }

  abbrev pub message_calls : Message → Client P → List (Call P)
  message_calls m c =
      call_if c.msg_handler (on_message (some m))
      ++ call_if c.user_callback (message_arrived (some m))

  first_message-append :
      (es : List (Event P)) (m : Message)
      → first_message es ≡ none
      → first_message (es ++ (message (some m) ∷ [])) ≡ some (some m, [])
  first_message-append [] m h = refl
  first_message-append (message k ∷ es) m h = cc
  first_message-append (connected cause ∷ es) m h = first_message-append es m h
  first_message-append (connection_lost cause ∷ es) m h = cc
  first_message-append (disconnected p r ∷ es) m h = cc
  first_message-append (shutdown ∷ es) m h = cc

  -- A message that arrives while the consumer queue is open and has room is put into it, and the
  -- handler and then the callback object are called; and if no event before it gives a message
  -- pointer, `consume_message`, with more fuel than there are events, returns it and leaves the
  -- queue empty.
  pub arrived-consume_message :
      (m : Message) (c : Client P) (q : Queue (Event P)) (fuel : ℕ)
      → c.que ≡ some q
      → q.closed ≡ false
      → length q.que < q.cap
      → first_message q.que ≡ none
      → length q.que + 1 < fuel
      → (message_callback m c
          ≡ some (record c { que = some (with_message q m) }, message_calls m c))
        × (consume_message fuel (with_message q m) ≡ some (some m, record q { que = [] }))
  unfolding message_callback put_event ThreadQueue.put put_ready
  arrived-consume_message m c q fuel e o room empty h = (
    ground arith,
    ground (
      arith,
      first_message-append q.que m empty,
      length-append q.que (message (some m) ∷ []),
      consume_message-first_message (with_message q m).que fuel (with_message q m) refl,
    ),
  )

  token_done_kept :
      (cb : Callback P) (tok : ℕ) (c : Client P)
      → ((token_done cb tok c).0.que ≡ c.que)
        × ((token_done cb tok c).0.conn_tok ≡ c.conn_tok)
        × (((token_done cb tok c).0.tokens tok).listener ≡ (c.tokens tok).listener)
        × (has tok c.pending_delivery_tokens ≡ false
            → (token_done cb tok c).0.pending_delivery_tokens ≡ c.pending_delivery_tokens)
  unfolding token_done remove_token
  token_done_kept cb tok c = ground (arith, complete_with-completes cb (c.tokens tok))

  abbrev connect_calls : Option Str → Client P → List (Call P)
  connect_calls cause c =
      call_if c.user_callback (Client.connected (cause_str cause))
      ++ call_if c.conn_handler (on_connected (cause_str cause))

  sent_connect :
      (opts : ConnectOptions) (user_context : ℕ) (l : Option ℕ) (c : Client P)
      → let sent = (request (connects opts user_context l) Token.async_success c).1 in
        (sent.que ≡ c.que)
        × (sent.conn_tok ≡ some (c.next))
        × (sent.pending_delivery_tokens ≡ c.pending_delivery_tokens)
        × ((sent.tokens c.next).listener ≡ l)
  unfolding request create add_token Token.new
  sent_connect opts user_context l c = ground arith

  -- The connected callback, with no consumer queue, completes the connect token once more.
  connected_again :
      (cause : Option Str) (tok : ℕ) (c : Client P)
      → c.que ≡ none
      → c.conn_tok ≡ some tok
      → has tok c.pending_delivery_tokens ≡ false
      → (c' : Client P) × (handlers : List (Call P)) × (connected_callback cause c
          ≡ some (c', token_calls (success none) tok (c.tokens tok).listener ++ handlers))
  unfolding connected_callback connect_done put_event
  connected_again cause tok c e t h = (
    (token_done (success none) tok c).0,
    connect_calls cause (token_done (success none) tok c).0,
    ground (
      arith,
      token_done_kept (success none) tok c,
      token_done_other (success none) tok c h,
      append-nil (token_calls (success none) tok (c.tokens tok).listener),
    ),
  )

  -- For a client with no consumer queue, whose pending tokens are in its store: when the C library
  -- reports an accepted connect with success and then calls the connected callback too, the
  -- listener of the connect's token hears of the success twice.
  pub connect_listener_twice :
      (opts : ConnectOptions) (user_context l : ℕ) (rsp : Option SuccessData) (cause : Option Str)
      (c : Client P)
      → IsValid c
      → c.que ≡ none
      → let sent = (request (connects opts user_context (some l)) Token.async_success c).1 in
        let (done, calls) = token_done (success rsp) c.next sent in
        (calls ≡ token_calls (success rsp) c.next (some l))
        × (c' : Client P) × (handlers : List (Call P)) × (connected_callback cause done
            ≡ some (c', token_calls (success none) c.next (some l) ++ handlers))
  connect_listener_twice opts user_context l rsp cause c v e =
      let sent = (request (connects opts user_context (some l)) Token.async_success c).1 in
      let done = (token_done (success rsp) c.next sent).0 in
      let fresh = fresh-has c.next c.pending_delivery_tokens v.deliveries_below in
      let (que, conn, deliveries, heard) = sent_connect opts user_context (some l) c in
      let (que', conn', same, others) = token_done_kept (success rsp) c.next sent in
      let sent_fresh : has c.next sent.pending_delivery_tokens ≡ false = rw deliveries fresh in
      let done_fresh : has c.next done.pending_delivery_tokens ≡ false =
        rw (others sent_fresh) sent_fresh in
      let listening : (done.tokens c.next).listener ≡ some l = same ∙ heard in
      let (_, _, told) = token_done_other (success rsp) c.next sent sent_fresh in
      let (c', handlers, again) =
        connected_again cause c.next done (que' ∙ que ∙ e) (conn' ∙ conn) done_fresh in
      (
        told ∙ ap (token_calls (success rsp) c.next) heard,
        c',
        handlers,
        again ∙ ap (λ x. some (c', token_calls (success none) c.next x ++ handlers)) listening,
      )

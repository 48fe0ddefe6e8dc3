-- ===== src/Client/Requests.antt =====
-- The requests of `async_client`: connect, reconnect, disconnect, publish, subscribe, unsubscribe.
use paho_mqtt_cpp.Prelude.{
  ℕ, ltb, ◌==◌, if◌then◌else◌, not, Option, none, some, List, [], ◌∷◌, length, Str, ℤ, pos, is_zero,
}
use paho_mqtt_cpp.Token.{
  Token, TokenType, connect, subscribe, publish, unsubscribe, disconnect, set_message_id,
  set_num_expected, reset,
}
use paho_mqtt_cpp.Event.{Message}
use paho_mqtt_cpp.Client.{
  Client, ConnectOptions, Call, Result, token, exception, invalid_argument, not_connected, update,
  create, add_token, add_delivery_token, remove_token,
}

abbrev pub Ended : Type 0 → Type 0
Ended P = Result × Client P × List (Call P)

-- "The C lib is very picky about version and clean start/session".
unfoldable pub fix_clean : ConnectOptions → ConnectOptions
fix_clean opts =
    if ltb opts.mqtt_version 5
    then record opts { cleanstart = pos 0 }
    else record opts { cleansession = pos 0 }

module _ {P : Type 0} where
  -- `if (rc != MQTTASYNC_SUCCESS) { remove_token(tok); throw exception(rc); } return tok;`
  unfoldable pub conclude : ℕ → ℤ → Client P → Ended P
  conclude tok rc c =
      if is_zero rc
      then (token tok, c, [])
      else let (c', calls) = remove_token tok c in (exception rc, c', calls)

  abbrev pub modify : (Token P → Token P) → ℕ → Client P → Client P
  modify f tok c = record c { tokens = update c.tokens tok (f (c.tokens tok)) }

  -- `connect(opts)` and `connect(opts, userContext, cb)`
  unfoldable pub connect_with : ConnectOptions → ℕ → Option ℕ → ℤ → Client P → Ended P
  unfolding fix_clean
  connect_with opts user_context l rc c =
      let tok = c.next in
      let made = add_token tok (create connect [] user_context l none c) in
      let sent = record made {
        mqtt_version = opts.mqtt_version;
        conn_tok = some tok;
        conn_opts = fix_clean opts;
      } in
      if is_zero rc
      then (token tok, sent, [])
      else let (c', calls) = remove_token tok sent in
        (exception rc, record c' { conn_tok = none }, calls)

  -- `reconnect()`; the C library answers twice.
  unfoldable pub reconnect : ℤ → ℤ → Client P → Ended P
  unfolding conclude
  reconnect rc_set rc_reconnect c = elim (c.conn_tok) [
    | none ↦ (not_connected, c, [])
    | some tok ↦
        conclude tok (if is_zero rc_set then rc_reconnect else rc_set)
          (add_token tok (modify reset tok c))
  ]

  -- `disconnect(opts)` and `disconnect(timeout, userContext, cb)`
  unfoldable pub disconnect_with : ℕ → Option ℕ → ℤ → Client P → Ended P
  unfolding conclude
  disconnect_with user_context l rc c =
      let tok = c.next in
      conclude tok rc (add_token tok (create disconnect [] user_context l none c))

  -- `publish(msg)` and `publish(msg, userContext, cb)`; `id` is what the C library stores in the
  -- response options.
  unfoldable pub publish_message : Message → ℕ → Option ℕ → ℤ → ℤ → Client P → Ended P
  unfolding conclude
  publish_message msg user_context l rc id c =
      let tok = c.next in
      let made =
        add_delivery_token tok (create publish (msg.topic ∷ []) user_context l (some msg) c) in
      if is_zero rc
      then (token tok, modify (set_message_id id) tok made, [])
      else conclude tok rc made

  -- A request on topic filters, with the number of replies that are expected.
  unfoldable pub request_filters : TokenType → List Str → ℕ → ℕ → Option ℕ → ℤ → Client P → Ended P
  unfolding conclude
  request_filters typ topics n user_context l rc c =
      let tok = c.next in
      conclude tok rc
        (add_token tok (modify (set_num_expected n) tok (create typ topics user_context l none c)))

  -- `subscribe` to one filter
  unfoldable pub subscribe_one : Str → ℕ → Option ℕ → ℤ → Client P → Ended P
  unfolding request_filters
  subscribe_one filter user_context l rc c =
      request_filters subscribe (filter ∷ []) 0 user_context l rc c

  -- `subscribe` to many filters
  unfoldable pub subscribe_many : List Str → List ℕ → ℕ → Option ℕ → ℤ → Client P → Ended P
  unfolding request_filters
  subscribe_many filters qos user_context l rc c =
      if not (length filters == length qos)
      then (invalid_argument, c, [])
      else request_filters subscribe filters (length filters) user_context l rc c

  -- `unsubscribe` from one filter; a new token expects 0 replies.
  unfoldable pub unsubscribe_one : Str → ℕ → Option ℕ → ℤ → Client P → Ended P
  unfolding request_filters
  unsubscribe_one filter user_context l rc c =
      request_filters unsubscribe (filter ∷ []) 0 user_context l rc c

  -- `unsubscribe` from many filters
  unfoldable pub unsubscribe_many : List Str → ℕ → Option ℕ → ℤ → Client P → Ended P
  unfolding request_filters
  unsubscribe_many filters user_context l rc c =
      request_filters unsubscribe filters (length filters) user_context l rc c

-- A request for a new token, with what it takes beside the answer of the C library.
pub data Request : Type 0 where
  connects : ConnectOptions → ℕ → Option ℕ → Request
  disconnects : ℕ → Option ℕ → Request
  publishes : Message → ℕ → Option ℕ → ℤ → Request
  subscribes unsubscribes : Str → ℕ → Option ℕ → Request
  subscribes_many : List Str → List ℕ → ℕ → Option ℕ → Request
  unsubscribes_many : List Str → ℕ → Option ℕ → Request

module _ {P : Type 0} where
  unfoldable pub request : Request → ℤ → Client P → Ended P
  unfolding connect_with disconnect_with publish_message subscribe_one subscribe_many
      unsubscribe_one unsubscribe_many
  request (connects opts user_context l) rc c = connect_with opts user_context l rc c
  request (disconnects user_context l) rc c = disconnect_with user_context l rc c
  request (publishes msg user_context l id) rc c = publish_message msg user_context l rc id c
  request (subscribes filter user_context l) rc c = subscribe_one filter user_context l rc c
  request (unsubscribes filter user_context l) rc c = unsubscribe_one filter user_context l rc c
  request (subscribes_many filters qos user_context l) rc c =
      subscribe_many filters qos user_context l rc c
  request (unsubscribes_many filters user_context l) rc c =
      unsubscribe_many filters user_context l rc c

-- ===== src/Client/Completion.antt =====
-- From a request to its completion.
use paho_mqtt_cpp.Prelude.{
  ℕ, ◌<◌, if◌then◌else◌, ◌≡◌, refl, ap, ◌∙◌, inl, inr, true, false, ◌&&◌, Bool-cases, Option, none,
  some, List, [], ◌∷◌, ◌++◌, length, eq→==, ℤ, is_zero, arith, append-nil,
}
use paho_mqtt_cpp.Token.{
  Token, TokenType, Callback, success, complete_with, reset, notify_all, success_call, failure_call,
  set_message_id, set_num_expected,
}
use paho_mqtt_cpp.Token
use paho_mqtt_cpp.Token.Completion.{call_of, listener_calls, complete_with-completes}
use paho_mqtt_cpp.Event.{Message}
use paho_mqtt_cpp.Client.{
  Client, ConnectOptions, Call, listener, delivery_complete, exception, not_connected, has,
  erase_first, create, add_token, add_delivery_token, remove_token, is_acknowledged,
}
use paho_mqtt_cpp.Client.Requests.{
  Request, connects, disconnects, publishes, subscribes, unsubscribes, subscribes_many,
  unsubscribes_many, request, reconnect,
}
use paho_mqtt_cpp.Client.Pending.{
  IsValid, IsWellSized, is_publish, refusal_calls, request_accepted, request_refused, has-append,
  fresh-has, erase_first-append,
}
use paho_mqtt_cpp.Client.Callbacks.{token_done, effects_of}

abbrev pub listener_of : Request → Option ℕ
listener_of (connects opts user_context l) = l
listener_of (disconnects user_context l) = l
listener_of (publishes msg user_context l id) = l
listener_of (subscribes filter user_context l) = l
listener_of (unsubscribes filter user_context l) = l
listener_of (subscribes_many filters qos user_context l) = l
listener_of (unsubscribes_many filters user_context l) = l

module _ {P : Type 0} where
  -- The calls on a listener, and the notification of the waiting threads.
  abbrev pub token_calls : Callback P → ℕ → Option ℕ → List (Call P)
  token_calls cb tok none = listener tok notify_all ∷ []
  token_calls cb tok (some l) = listener tok (call_of cb l) ∷ listener tok notify_all ∷ []

  effects_of-calls :
      (cb : Callback P) (tok : ℕ) (l : Option ℕ)
      → effects_of {P = P} tok
          (listener_calls (call_of cb) l ++ notify_all ∷ Token.remove_token ∷ [])
        ≡ token_calls cb tok l
  unfolding effects_of
  effects_of-calls cb tok none = refl
  effects_of-calls (Token.success rsp) tok (some l) = refl
  effects_of-calls (Token.success5 rsp) tok (some l) = refl
  effects_of-calls (Token.failure rsp) tok (some l) = refl
  effects_of-calls (Token.failure5 rsp) tok (some l) = refl

  pub effects_of-completes :
      (cb : Callback P) (tok : ℕ) (t : Token P)
      → effects_of {P = P} tok (complete_with cb t).1 ≡ token_calls cb tok t.listener
  unfolding effects_of
  effects_of-completes cb tok t =
      ap (effects_of tok) (complete_with-completes cb t).1 ∙ effects_of-calls cb tok t.listener

  -- A completed delivery token leaves the list of delivery tokens, where it is; another leaves the
  -- list of the others. The callback object hears of a delivery that was to be acknowledged.
  token_done_delivery :
      (cb : Callback P) (tok : ℕ) (c : Client P)
      → has tok c.pending_delivery_tokens ≡ true
      → let (c', calls) = token_done cb tok c in
        (c'.pending_delivery_tokens ≡ erase_first tok c.pending_delivery_tokens)
        × (c'.pending_tokens ≡ c.pending_tokens)
        × (calls
            ≡ token_calls cb tok (c.tokens tok).listener
              ++ (if c.user_callback && is_acknowledged (c.messages tok)
                  then delivery_complete tok ∷ []
                  else []))
  unfolding token_done remove_token
  token_done_delivery cb tok c h = ground (arith, effects_of-completes cb tok (c.tokens tok))

  pub token_done_other :
      (cb : Callback P) (tok : ℕ) (c : Client P)
      → has tok c.pending_delivery_tokens ≡ false
      → let (c', calls) = token_done cb tok c in
        (c'.pending_delivery_tokens ≡ c.pending_delivery_tokens)
        × (c'.pending_tokens ≡ erase_first tok c.pending_tokens)
        × (calls ≡ token_calls cb tok (c.tokens tok).listener)
  unfolding token_done remove_token
  token_done_other cb tok c h = ground (arith, effects_of-completes cb tok (c.tokens tok))

  -- The new token of an accepted request, and the message of a publication.
  pub new_token :
      (req : Request) (c : Client P)
      → IsWellSized req
      → let c' = (request req Token.async_success c).1 in
        ((c'.tokens c.next).listener ≡ listener_of req)
        × ((if c'.user_callback && is_acknowledged (c'.messages c.next)
              then delivery_complete c.next ∷ []
              else [])
            ≡ refusal_calls req c)
  unfolding request create add_token add_delivery_token Token.new set_message_id set_num_expected
  new_token (connects opts user_context l) c w = (ground arith, ground arith)
  new_token (disconnects user_context l) c w = (ground arith, ground arith)
  new_token (publishes msg user_context l id) c w = (ground arith, ground arith)
  new_token (subscribes filter user_context l) c w = (ground arith, ground arith)
  new_token (unsubscribes filter user_context l) c w = (ground arith, ground arith)
  new_token (subscribes_many filters qos user_context l) c w =
      rw (eq→== (length filters) (length qos) w) (ground arith, ground arith)
  new_token (unsubscribes_many filters user_context l) c w = (ground arith, ground arith)

  no_refusal_calls :
      (req : Request) (c : Client P) → is_publish req ≡ false → refusal_calls req c ≡ []
  no_refusal_calls (connects opts user_context l) c p = refl
  no_refusal_calls (disconnects user_context l) c p = refl
  no_refusal_calls (publishes msg user_context l id) c p = ground (arith, p)
  no_refusal_calls (subscribes filter user_context l) c p = refl
  no_refusal_calls (unsubscribes filter user_context l) c p = refl
  no_refusal_calls (subscribes_many filters qos user_context l) c p = refl
  no_refusal_calls (unsubscribes_many filters user_context l) c p = refl

  -- For a client whose pending tokens are in its store, and a request whose lists have one size:
  -- when the request, accepted by the C library, completes, with success or failure, the lists of
  -- tokens are what they were before the request; the listener, if there is one, is called once,
  -- before the waiting threads are notified; and for a publication with a QoS above 0 the user's
  -- callback object, if there is one, hears of the delivery last.
  pub request_completes :
      (req : Request) (cb : Callback P) (c : Client P)
      → IsWellSized req
      → IsValid c
      → let c' = (request req Token.async_success c).1 in
        let (done, calls) = token_done cb c.next c' in
        (done.pending_tokens ≡ c.pending_tokens)
        × (done.pending_delivery_tokens ≡ c.pending_delivery_tokens)
        × (calls ≡ token_calls cb c.next (listener_of req) ++ refusal_calls req c)
  request_completes req cb c w v = elim (Bool-cases (is_publish req)) [
    | inl p ↦ ground (
      arith,
      request_accepted req c w v,
      new_token req c w,
      has-append c.next c.pending_delivery_tokens,
      erase_first-append c.next c.pending_delivery_tokens
          (fresh-has c.next c.pending_delivery_tokens v.deliveries_below),
      token_done_delivery cb c.next (request req Token.async_success c).1,
    )
    | inr p ↦ ground (
      arith,
      request_accepted req c w v,
      new_token req c w,
      fresh-has c.next c.pending_delivery_tokens v.deliveries_below,
      erase_first-append c.next c.pending_tokens (fresh-has c.next c.pending_tokens v.tokens_below),
      token_done_other cb c.next (request req Token.async_success c).1,
      no_refusal_calls req c p,
      append-nil (token_calls cb c.next (listener_of req)),
    )
  ]

  -- For a client whose pending tokens are in its store and whose callback object is set: a
  -- publication with a QoS above 0 that the C library refuses throws, and still calls
  -- `delivery_complete` for the token.
  pub refused_publish_reports_delivery :
      (msg : Message) (user_context : ℕ) (l : Option ℕ) (id rc : ℤ) (c : Client P)
      → IsValid c
      → is_zero rc ≡ false
      → c.user_callback ≡ true
      → 0 < msg.qos
      → let (r, c', calls) = request (publishes msg user_context l id) rc c in
        (r ≡ exception rc) × (calls ≡ delivery_complete c.next ∷ [])
  refused_publish_reports_delivery msg user_context l id rc c v h u q =
      ground (arith, request_refused (publishes msg user_context l id) rc c tt v h)

  -- After a connect that the C library refuses, `reconnect` throws, also where there was a token
  -- to reconnect with before.
  pub refused_connect_blocks_reconnect :
      (opts : ConnectOptions) (user_context : ℕ) (l : Option ℕ) (rc rc1 rc2 : ℤ) (c : Client P)
      → is_zero rc ≡ false
      → let c' = (request (connects opts user_context l) rc c).1 in
        reconnect rc1 rc2 c' ≡ (not_connected, c', [])
  unfolding request reconnect
  refused_connect_blocks_reconnect opts user_context l rc rc1 rc2 c h = ground arith

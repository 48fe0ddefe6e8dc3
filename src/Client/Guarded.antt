-- ===== src/Client/Guarded.antt =====
-- Methods of the callback object are called only where there is one.
use paho_mqtt_cpp.Prelude.{
  ℕ, ◌≡◌, refl, if◌then◌else◌, Bool, true, false, Option, none, some, List, [], ◌∷◌, ◌++◌, Str, ℤ,
  arith,
}
use paho_mqtt_cpp.Token.{Callback, Token, complete_with, reset}
use paho_mqtt_cpp.Token
use paho_mqtt_cpp.Client.{
  Client, Call, listener, on_message, update, create, add_token, add_delivery_token, remove_token,
  delivery_complete, connected, connection_lost, message_arrived, on_connected, on_connection_lost,
  on_disconnected,
}
use paho_mqtt_cpp.Client.Requests.{
  Request, connects, disconnects, publishes, subscribes, unsubscribes, subscribes_many,
  unsubscribes_many, request, reconnect, conclude,
}
use paho_mqtt_cpp.Client.Callbacks.{
  token_done, connect_done, effects_of, cause_str, call_if, connected_callback,
  connection_lost_callback, disconnected_callback, message_callback,
}
use paho_mqtt_cpp.Client.Consumer.{start_consuming, stop_consuming, clear_consumer, register}
use paho_mqtt_cpp.Client.Setup.{
  disable_callbacks, set_connected_handler, set_connection_lost_handler, set_disconnected_handler,
  set_message_callback,
}
use paho_mqtt_cpp.Client.Runs.{Act, act, asks, reconnects, ends}
use paho_mqtt_cpp.Client.Runs
use paho_mqtt_cpp.Client

module _ {P : Type 0} where
  abbrev pub is_method : Call P → Bool
  is_method (connected cause) = true
  is_method (connection_lost cause) = true
  is_method (message_arrived msg) = true
  is_method (delivery_complete tok) = true
  is_method call = false

  -- Whether methods of the callback object are among some calls.
  abbrev pub any_method : List (Call P) → Bool
  any_method [] = false
  any_method (call ∷ calls) = if is_method call then true else any_method calls

  any_method-append :
      (xs ys : List (Call P))
      → any_method (xs ++ ys) ≡ (if any_method xs then true else any_method ys)
  any_method-append [] ys = refl
  any_method-append (x ∷ xs) ys = ground (arith, any_method-append xs ys)

  -- Methods are called only where there is a callback object, and that is left as it is.
  abbrev pub IsGuarded : Client P → Client P → List (Call P) → Type 0
  IsGuarded c c' calls =
      (c'.user_callback ≡ c.user_callback) × (c.user_callback ≡ false → any_method calls ≡ false)

  effects_of-methods :
      (tok : ℕ) (es : List Token.Effect) (calls : List (Call P))
      → any_method (effects_of tok es ++ calls) ≡ any_method calls
  unfolding effects_of
  effects_of-methods tok [] calls = refl
  effects_of-methods tok (Token.remove_token ∷ es) calls = effects_of-methods tok es calls
  effects_of-methods tok (Token.success_call l ∷ es) calls = effects_of-methods tok es calls
  effects_of-methods tok (Token.failure_call l ∷ es) calls = effects_of-methods tok es calls
  effects_of-methods tok (Token.notify_all ∷ es) calls = effects_of-methods tok es calls

  token_done-IsGuarded :
      (cb : Callback P) (tok : ℕ) (c : Client P)
      → IsGuarded c (token_done cb tok c).0 (token_done cb tok c).1
  unfolding token_done remove_token
  token_done-IsGuarded cb tok c = ground (
    arith,
    effects_of-methods tok (complete_with cb (c.tokens tok)).1
        (remove_token tok
          (record c { tokens = update c.tokens tok (complete_with cb (c.tokens tok)).0 })).1,
  )

  request-IsGuarded :
      (req : Request) (rc : ℤ) (c : Client P)
      → IsGuarded c (request req rc c).1 (request req rc c).2
  unfolding request create add_token add_delivery_token remove_token
  request-IsGuarded (connects opts user_context l) rc c = ground arith
  request-IsGuarded (disconnects user_context l) rc c = ground arith
  request-IsGuarded (publishes msg user_context l id) rc c = ground arith
  request-IsGuarded (subscribes filter user_context l) rc c = ground arith
  request-IsGuarded (unsubscribes filter user_context l) rc c = ground arith
  request-IsGuarded (subscribes_many filters qos user_context l) rc c = ground arith
  request-IsGuarded (unsubscribes_many filters user_context l) rc c = ground arith

  reconnect-IsGuarded :
      (rc_set rc : ℤ) (c : Client P)
      → IsGuarded c (reconnect rc_set rc c).1 (reconnect rc_set rc c).2
  unfolding reconnect add_token remove_token conclude
  reconnect-IsGuarded rc_set rc c = ground arith

  connect_done-IsGuarded :
      (tok : Option ℕ) (c : Client P) → IsGuarded c (connect_done tok c).0 (connect_done tok c).1
  unfolding connect_done
  connect_done-IsGuarded none c = ground arith
  connect_done-IsGuarded (some tok) c = token_done-IsGuarded (Token.success none) tok c

  connects-methods :
      (cause : Str) (c : Client P) (calls : List (Call P))
      → c.user_callback ≡ false
      → any_method (
          calls
          ++ (call_if c.user_callback (Client.connected cause)
              ++ call_if c.conn_handler (Client.on_connected cause)))
        ≡ any_method calls
  connects-methods cause c calls h = ground (
    arith,
    any_method-append calls (
        call_if c.user_callback (Client.connected cause)
        ++ call_if c.conn_handler (Client.on_connected cause)),
  )

  pub act-IsGuarded :
      (a : Act P) (c c' : Client P) (calls : List (Call P))
      → act a c ≡ some (c', calls)
      → IsGuarded c c' calls
  unfolding act connected_callback connection_lost_callback disconnected_callback message_callback
      start_consuming stop_consuming clear_consumer disable_callbacks register set_connected_handler
      set_connection_lost_handler set_disconnected_handler set_message_callback
  act-IsGuarded (asks req rc) c c' calls h = ground (arith, request-IsGuarded req rc c)
  act-IsGuarded (reconnects rc_set rc) c c' calls h =
      ground (arith, reconnect-IsGuarded rc_set rc c)
  act-IsGuarded (ends cb tok) c c' calls h = ground (arith, token_done-IsGuarded cb tok c)
  act-IsGuarded (Runs.connects cause) c c' calls h = ground (
    arith,
    connect_done-IsGuarded c.conn_tok c,
    connects-methods (cause_str cause) (connect_done c.conn_tok c).0 (connect_done c.conn_tok c).1,
  )
  act-IsGuarded (Runs.loses cause) c c' calls h = ground arith
  act-IsGuarded (Runs.disconnects props reason) c c' calls h = ground arith
  act-IsGuarded (Runs.arrives m) c c' calls h = ground arith
  act-IsGuarded (Runs.starts rcs) c c' calls h = ground arith
  act-IsGuarded (Runs.stops rc) c c' calls h = ground arith
  act-IsGuarded Runs.clears c c' calls h = ground arith
  act-IsGuarded (Runs.disables rc) c c' calls h = ground arith
  act-IsGuarded Runs.takes_event c c' calls h = ground arith
  act-IsGuarded Runs.tries_event c c' calls h = ground arith
  act-IsGuarded (Runs.tries fuel) c c' calls h = ground arith
  act-IsGuarded (Runs.sets_connected on rc) c c' calls h = ground arith
  act-IsGuarded (Runs.sets_lost on rc) c c' calls h = ground arith
  act-IsGuarded (Runs.sets_disconnected on rc) c c' calls h = ground arith
  act-IsGuarded (Runs.sets_message on rc) c c' calls h = ground arith
  act-IsGuarded (Runs.consumes fuel) c c' calls h = ground arith

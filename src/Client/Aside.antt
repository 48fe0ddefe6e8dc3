-- ===== src/Client/Aside.antt =====
-- What leaves the queue of events and the handler of messages alone.
use paho_mqtt_cpp.Prelude.{ℕ, ◌≡◌, refl, Option, none, some, List, [], ◌∷◌, ◌++◌, ℤ, arith}
use paho_mqtt_cpp.Token.{Callback, Token, complete_with, reset, set_message_id, set_num_expected}
use paho_mqtt_cpp.Token
use paho_mqtt_cpp.Event.{Message}
use paho_mqtt_cpp.Client.{
  Client, Call, on_message, update, create, add_token, add_delivery_token, remove_token,
}
use paho_mqtt_cpp.Client.Requests.{
  Request, connects, disconnects, publishes, subscribes, unsubscribes, subscribes_many,
  unsubscribes_many, request, reconnect, conclude,
}
use paho_mqtt_cpp.Client.Callbacks.{token_done, connect_done, effects_of}

module _ {P : Type 0} where
  -- The messages that the handler of messages is called with.
  abbrev pub handled : List (Call P) → List (Option Message)
  handled [] = []
  handled (on_message m ∷ es) = m ∷ handled es
  handled (e ∷ es) = handled es

  pub handled-append : (xs ys : List (Call P)) → handled (xs ++ ys) ≡ handled xs ++ handled ys
  handled-append [] ys = refl
  handled-append (x ∷ xs) ys = ground (arith, handled-append xs ys)

  -- The queue of events and the handler of messages are left alone.
  abbrev pub IsAside : Client P → Client P → List (Call P) → Type 0
  IsAside c c' calls = (c'.que ≡ c.que) × (c'.msg_handler ≡ c.msg_handler) × (handled calls ≡ [])

  effects_of-handled :
      (tok : ℕ) (es : List Token.Effect) (calls : List (Call P))
      → handled (effects_of tok es ++ calls) ≡ handled calls
  unfolding effects_of
  effects_of-handled tok [] calls = refl
  effects_of-handled tok (Token.remove_token ∷ es) calls = effects_of-handled tok es calls
  effects_of-handled tok (Token.success_call l ∷ es) calls = effects_of-handled tok es calls
  effects_of-handled tok (Token.failure_call l ∷ es) calls = effects_of-handled tok es calls
  effects_of-handled tok (Token.notify_all ∷ es) calls = effects_of-handled tok es calls

  pub token_done-IsAside :
      (cb : Callback P) (tok : ℕ) (c : Client P)
      → IsAside c (token_done cb tok c).0 (token_done cb tok c).1
  unfolding token_done remove_token
  token_done-IsAside cb tok c = ground (
    arith,
    effects_of-handled tok (complete_with cb (c.tokens tok)).1
        (remove_token tok
          (record c { tokens = update c.tokens tok (complete_with cb (c.tokens tok)).0 })).1,
  )

  pub request-IsAside :
      (req : Request) (rc : ℤ) (c : Client P) → IsAside c (request req rc c).1 (request req rc c).2
  unfolding request create add_token add_delivery_token remove_token
  request-IsAside (connects opts user_context l) rc c = ground arith
  request-IsAside (disconnects user_context l) rc c = ground arith
  request-IsAside (publishes msg user_context l id) rc c = ground arith
  request-IsAside (subscribes filter user_context l) rc c = ground arith
  request-IsAside (unsubscribes filter user_context l) rc c = ground arith
  request-IsAside (subscribes_many filters qos user_context l) rc c = ground arith
  request-IsAside (unsubscribes_many filters user_context l) rc c = ground arith

  pub reconnect-IsAside :
      (rc_set rc : ℤ) (c : Client P) → IsAside c (reconnect rc_set rc c).1 (reconnect rc_set rc c).2
  unfolding reconnect add_token remove_token conclude
  reconnect-IsAside rc_set rc c = ground arith

  pub connect_done-IsAside :
      (tok : Option ℕ) (c : Client P) → IsAside c (connect_done tok c).0 (connect_done tok c).1
  unfolding connect_done
  connect_done-IsAside none c = ground arith
  connect_done-IsAside (some tok) c = token_done-IsAside (Token.success none) tok c

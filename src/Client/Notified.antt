-- ===== src/Client/Notified.antt =====
-- The threads that wait on a token, over a run.
use paho_mqtt_cpp.Prelude.{
  ℕ, ◌+◌, ◌≤◌, ltb, ◌==◌, ◌≡◌, Bool, true, false, ◌&&◌, Option, none, some, List, [], ◌∷◌, ◌++◌,
  Str, ℤ, arith,
}
use paho_mqtt_cpp.Token.{
  Token, Callback, complete_with, reset, notify_all, set_message_id, set_num_expected,
}
use paho_mqtt_cpp.Token
use paho_mqtt_cpp.Client.{
  Client, Call, listener, connected, on_connected, update, create, add_token, add_delivery_token,
  remove_token,
}
use paho_mqtt_cpp.Client.Requests.{
  Request, connects, disconnects, publishes, subscribes, unsubscribes, subscribes_many,
  unsubscribes_many, request, reconnect, conclude,
}
use paho_mqtt_cpp.Client.Callbacks.{token_done, call_if, cause_str, connect_done}
use paho_mqtt_cpp.Client.Completion.{token_calls, effects_of-completes}
use paho_mqtt_cpp.Client.Occurrences.{one_if}
use paho_mqtt_cpp.Client.Runs.{Act, Runs, here, next, act, asks, reconnects, ends}
use paho_mqtt_cpp.Client.Runs

module _ {P : Type 0} where
  abbrev is_notify : ℕ → Call P → Bool
  is_notify t (listener tok notify_all) = tok == t
  is_notify t call = false

  -- How often the threads that wait on a token are notified.
  abbrev pub notified : ℕ → List (Call P) → ℕ
  notified t [] = 0
  notified t (e ∷ es) = one_if (is_notify t e) + notified t es

  notified-append :
      (t : ℕ) (xs ys : List (Call P)) → notified t (xs ++ ys) ≡ notified t xs + notified t ys
  notified-append t [] ys = omega arith
  notified-append t (x ∷ xs) ys = omega (arith, notified-append t xs ys)

  -- A token that was made and is complete.
  abbrev pub is_finished : ℕ → Client P → Bool
  is_finished t c = ltb t c.next && (c.tokens t).complete

  -- A token becomes complete only with a notification.
  abbrev Notifies : ℕ → Client P → Client P → List (Call P) → Type 0
  Notifies t c c' calls = one_if (is_finished t c') ≤ one_if (is_finished t c) + notified t calls

  token_calls-notified :
      (cb : Callback P) (t tok : ℕ) (l : Option ℕ)
      → notified t (token_calls cb tok l) ≡ one_if (tok == t)
  token_calls-notified cb t tok none = omega arith
  token_calls-notified (Token.success rsp) t tok (some l) = omega arith
  token_calls-notified (Token.success5 rsp) t tok (some l) = omega arith
  token_calls-notified (Token.failure rsp) t tok (some l) = omega arith
  token_calls-notified (Token.failure5 rsp) t tok (some l) = omega arith

  token_done-notified :
      (t tok : ℕ) (cb : Callback P) (c : Client P)
      → one_if (tok == t) ≤ notified t (token_done cb tok c).1
  unfolding token_done
  token_done-notified t tok cb c =
      let done = record c { tokens = update c.tokens tok (complete_with cb (c.tokens tok)).0 } in
      rw (effects_of-completes cb tok (c.tokens tok)) (
        omega (
          arith,
          notified-append t (token_calls cb tok (c.tokens tok).listener) (remove_token tok done).1,
          token_calls-notified cb t tok (c.tokens tok).listener,
        ))

  token_done-tokens :
      (t tok : ℕ) (cb : Callback P) (c : Client P)
      → (tok == t) ≡ false
      → is_finished t (token_done cb tok c).0 ≡ is_finished t c
  unfolding token_done remove_token
  token_done-tokens t tok cb c h = ground arith

  token_done-Notifies :
      (t tok : ℕ) (cb : Callback P) (c : Client P)
      → Notifies t c (token_done cb tok c).0 (token_done cb tok c).1
  token_done-Notifies t tok cb c =
      ground (arith, token_done-notified t tok cb c, token_done-tokens t tok cb c)

  request-Notifies :
      (t : ℕ) (req : Request) (rc : ℤ) (c : Client P)
      → Notifies t c (request req rc c).1 (request req rc c).2
  unfolding request create add_token add_delivery_token remove_token Token.new set_message_id
      set_num_expected
  request-Notifies t (connects opts user_context l) rc c = ground arith
  request-Notifies t (disconnects user_context l) rc c = ground arith
  request-Notifies t (publishes msg user_context l id) rc c = ground arith
  request-Notifies t (subscribes filter user_context l) rc c = ground arith
  request-Notifies t (unsubscribes filter user_context l) rc c = ground arith
  request-Notifies t (subscribes_many filters qos user_context l) rc c = ground arith
  request-Notifies t (unsubscribes_many filters user_context l) rc c = ground arith

  reconnect-Notifies :
      (t : ℕ) (rc_set rc : ℤ) (c : Client P)
      → Notifies t c (reconnect rc_set rc c).1 (reconnect rc_set rc c).2
  unfolding reconnect add_token remove_token conclude reset
  reconnect-Notifies t rc_set rc c = ground arith

  handlers_only :
      (t : ℕ) (cause : Str) (c : Client P) (calls : List (Call P))
      → notified t (
          calls
          ++ (call_if c.user_callback (connected cause)
              ++ call_if c.conn_handler (on_connected cause)))
        ≡ notified t calls
  handlers_only t cause c calls = ground (
    arith,
    notified-append t calls
        (call_if c.user_callback (connected cause) ++ call_if c.conn_handler (on_connected cause)),
  )

  connect_done-Notifies :
      (t : ℕ) (tok : Option ℕ) (c : Client P)
      → Notifies t c (connect_done tok c).0 (connect_done tok c).1
  unfolding connect_done
  connect_done-Notifies t none c = omega arith
  connect_done-Notifies t (some tok) c = token_done-Notifies t tok (Token.success none) c

  act-Notifies :
      (t : ℕ) (a : Act P) (c c' : Client P) (calls : List (Call P))
      → act a c ≡ some (c', calls)
      → Notifies t c c' calls
  unfolding act
  act-Notifies t (asks req rc) c c' calls h = ground (arith, request-Notifies t req rc c)
  act-Notifies t (reconnects rc_set rc) c c' calls h =
      ground (arith, reconnect-Notifies t rc_set rc c)
  act-Notifies t (ends cb tok) c c' calls h = ground (arith, token_done-Notifies t tok cb c)
  act-Notifies t (Runs.connects cause) c c' calls h = ground (
    arith,
    connect_done-Notifies t c.conn_tok c,
    handlers_only t (cause_str cause) (connect_done c.conn_tok c).0 (connect_done c.conn_tok c).1,
  )
  act-Notifies t (Runs.loses cause) c c' calls h = ground arith
  act-Notifies t (Runs.disconnects props reason) c c' calls h = ground arith
  act-Notifies t (Runs.arrives m) c c' calls h = ground arith
  act-Notifies t (Runs.starts rcs) c c' calls h = ground arith
  act-Notifies t (Runs.stops rc) c c' calls h = ground arith
  act-Notifies t Runs.clears c c' calls h = ground arith
  act-Notifies t (Runs.disables rc) c c' calls h = ground arith
  act-Notifies t Runs.takes_event c c' calls h = ground arith
  act-Notifies t Runs.tries_event c c' calls h = ground arith
  act-Notifies t (Runs.tries fuel) c c' calls h = ground arith
  act-Notifies t (Runs.sets_connected on rc) c c' calls h = ground arith
  act-Notifies t (Runs.sets_lost on rc) c c' calls h = ground arith
  act-Notifies t (Runs.sets_disconnected on rc) c c' calls h = ground arith
  act-Notifies t (Runs.sets_message on rc) c c' calls h = ground arith
  act-Notifies t (Runs.consumes fuel) c c' calls h = ground arith

  Runs-Notifies :
      (t : ℕ) {Q : Act P → Client P → Type 0} {c c' : Client P} {calls : List (Call P)}
      → Runs Q c c' calls
      → Notifies t c c' calls
  Runs-Notifies t here = omega arith
  Runs-Notifies t (next {c'} {c''} {calls} {calls'} a run q e) =
      omega (
        arith,
        Runs-Notifies t run,
        act-Notifies t a c' c'' calls' e,
        notified-append t calls calls',
      )

  -- In every run, whatever is asked and answered: for a token that is complete at the end of the
  -- run, and was not yet made or not complete at its start, the threads that wait on it were
  -- notified.
  pub run_notifies :
      (t : ℕ) {Q : Act P → Client P → Type 0} {c c' : Client P} {calls : List (Call P)}
      → Runs Q c c' calls
      → is_finished t c ≡ false
      → is_finished t c' ≡ true
      → 1 ≤ notified t calls
  run_notifies t run before after = ground (arith, Runs-Notifies t run)

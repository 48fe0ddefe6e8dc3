-- ===== src/Client/Once.antt =====
-- How often a run reports a delivery.
use paho_mqtt_cpp.Prelude.{
  ℕ, ◌+◌, ◌≤◌, ◌<◌, ltb, ◌==◌, if◌then◌else◌, ◌≡◌, refl, ap, Bool, false, not, Option, none, some,
  List, [], ◌∷◌, ◌++◌, Str, ℤ, is_zero, arith,
}
use paho_mqtt_cpp.Token.{Token, Callback, complete_with, reset}
use paho_mqtt_cpp.Token
use paho_mqtt_cpp.Client.{
  Client, Call, delivery_complete, connected, on_connected, update, create, add_token,
  add_delivery_token, remove_token,
}
use paho_mqtt_cpp.Client.Requests.{
  Request, connects, disconnects, publishes, subscribes, unsubscribes, subscribes_many,
  unsubscribes_many, request, reconnect, conclude, modify,
}
use paho_mqtt_cpp.Client.Callbacks.{token_done, effects_of, call_if, cause_str, connect_done}
use paho_mqtt_cpp.Client.Occurrences.{times, one_if, times-added, times-removed}
use paho_mqtt_cpp.Client.Runs.{Act, Runs, Anything, here, next, act, asks, reconnects, ends}
use paho_mqtt_cpp.Client.Runs

module _ {P : Type 0} where
  -- The calls of `delivery_complete` for a token.
  abbrev is_delivery : ℕ → Call P → Bool
  is_delivery t (delivery_complete tok) = tok == t
  is_delivery t call = false

  abbrev pub deliveries : ℕ → List (Call P) → ℕ
  deliveries t [] = 0
  deliveries t (e ∷ es) = one_if (is_delivery t e) + deliveries t es

  deliveries-append :
      (t : ℕ) (xs ys : List (Call P)) → deliveries t (xs ++ ys) ≡ deliveries t xs + deliveries t ys
  deliveries-append t [] ys = omega arith
  deliveries-append t (x ∷ xs) ys = omega (arith, deliveries-append t xs ys)

  effects_of-deliveries :
      (t tok : ℕ) (es : List Token.Effect) (calls : List (Call P))
      → deliveries t (effects_of tok es ++ calls) ≡ deliveries t calls
  unfolding effects_of
  effects_of-deliveries t tok [] calls = refl
  effects_of-deliveries t tok (Token.remove_token ∷ es) calls = effects_of-deliveries t tok es calls
  effects_of-deliveries t tok (Token.success_call l ∷ es) calls =
      omega (arith, effects_of-deliveries t tok es calls)
  effects_of-deliveries t tok (Token.failure_call l ∷ es) calls =
      omega (arith, effects_of-deliveries t tok es calls)
  effects_of-deliveries t tok (Token.notify_all ∷ es) calls =
      omega (arith, effects_of-deliveries t tok es calls)

  -- The deliveries that may still be reported for a token: it is pending, or not made yet.
  abbrev pub due : ℕ → Client P → ℕ
  due t c = times t c.pending_delivery_tokens + one_if (not (ltb t c.next))

  -- What a call takes from the deliveries that are due is at least what it reports.
  abbrev Spends : ℕ → Client P → Client P → List (Call P) → Type 0
  Spends t c c' calls = deliveries t calls + due t c' ≤ due t c

  remove_token-Spends :
      (t tok : ℕ) (c : Client P) → Spends t c (remove_token tok c).0 (remove_token tok c).1
  unfolding remove_token
  remove_token-Spends t tok c = ground (arith, times-removed t tok c.pending_delivery_tokens)

  conclude-Spends :
      (t tok : ℕ) (rc : ℤ) (c : Client P) → Spends t c (conclude tok rc c).1 (conclude tok rc c).2
  unfolding conclude
  conclude-Spends t tok rc c = ground (arith, remove_token-Spends t tok c)

  request-Spends :
      (t : ℕ) (req : Request) (rc : ℤ) (c : Client P)
      → Spends t c (request req rc c).1 (request req rc c).2
  unfolding request create add_token add_delivery_token remove_token
  request-Spends t (connects opts user_context l) rc c =
      ground (arith, times-removed t c.next c.pending_delivery_tokens)
  request-Spends t (disconnects user_context l) rc c =
      ground (arith, times-removed t c.next c.pending_delivery_tokens)
  request-Spends t (publishes msg user_context l id) rc c =
      ground (arith, times-added t c.next c.pending_delivery_tokens)
  request-Spends t (subscribes filter user_context l) rc c =
      ground (arith, times-removed t c.next c.pending_delivery_tokens)
  request-Spends t (unsubscribes filter user_context l) rc c =
      ground (arith, times-removed t c.next c.pending_delivery_tokens)
  request-Spends t (subscribes_many filters qos user_context l) rc c =
      ground (arith, times-removed t c.next c.pending_delivery_tokens)
  request-Spends t (unsubscribes_many filters user_context l) rc c =
      ground (arith, times-removed t c.next c.pending_delivery_tokens)

  token_done-Spends :
      (t tok : ℕ) (cb : Callback P) (c : Client P)
      → Spends t c (token_done cb tok c).0 (token_done cb tok c).1
  unfolding token_done
  token_done-Spends t tok cb c =
      let done = record c { tokens = update c.tokens tok (complete_with cb (c.tokens tok)).0 } in
      omega (
        arith,
        effects_of-deliveries t tok (complete_with cb (c.tokens tok)).1 (remove_token tok done).1,
        remove_token-Spends t tok done,
      )

  reconnect_for :
      (t : ℕ) (rc_set rc : ℤ) (c : Client P) (tok : Option ℕ)
      → c.conn_tok ≡ tok
      → Spends t c (reconnect rc_set rc c).1 (reconnect rc_set rc c).2
  unfolding reconnect add_token
  reconnect_for t rc_set rc c none e = ground arith
  reconnect_for t rc_set rc c (some tok) e = ground (
    arith,
    conclude-Spends t tok (if is_zero rc_set then rc else rc_set)
        (add_token tok (modify reset tok c)),
  )

  handlers_only :
      (t : ℕ) (cause : Str) (c : Client P) (calls : List (Call P))
      → deliveries t (
          calls
          ++ (call_if c.user_callback (connected cause)
              ++ call_if c.conn_handler (on_connected cause)))
        ≡ deliveries t calls
  handlers_only t cause c calls = ground (
    arith,
    deliveries-append t calls
        (call_if c.user_callback (connected cause) ++ call_if c.conn_handler (on_connected cause)),
  )

  connect_done-Spends :
      (t : ℕ) (tok : Option ℕ) (c : Client P)
      → Spends t c (connect_done tok c).0 (connect_done tok c).1
  unfolding connect_done
  connect_done-Spends t none c = omega arith
  connect_done-Spends t (some tok) c = token_done-Spends t tok (Token.success none) c

  act-Spends :
      (t : ℕ) (a : Act P) (c c' : Client P) (calls : List (Call P))
      → act a c ≡ some (c', calls)
      → Spends t c c' calls
  unfolding act
  act-Spends t (asks req rc) c c' calls h = ground (arith, request-Spends t req rc c)
  act-Spends t (reconnects rc_set rc) c c' calls h =
      ground (arith, reconnect_for t rc_set rc c c.conn_tok refl)
  act-Spends t (ends cb tok) c c' calls h = ground (arith, token_done-Spends t tok cb c)
  act-Spends t (Runs.connects cause) c c' calls h = ground (
    arith,
    connect_done-Spends t c.conn_tok c,
    handlers_only t (cause_str cause) (connect_done c.conn_tok c).0 (connect_done c.conn_tok c).1,
  )
  act-Spends t (Runs.loses cause) c c' calls h = ground arith
  act-Spends t (Runs.disconnects props reason) c c' calls h = ground arith
  act-Spends t (Runs.arrives m) c c' calls h = ground arith
  act-Spends t (Runs.starts rcs) c c' calls h = ground arith
  act-Spends t (Runs.stops rc) c c' calls h = ground arith
  act-Spends t Runs.clears c c' calls h = ground arith
  act-Spends t (Runs.disables rc) c c' calls h = ground arith
  act-Spends t Runs.takes_event c c' calls h = ground arith
  act-Spends t Runs.tries_event c c' calls h = ground arith
  act-Spends t (Runs.tries fuel) c c' calls h = ground arith
  act-Spends t (Runs.sets_connected on rc) c c' calls h = ground arith
  act-Spends t (Runs.sets_lost on rc) c c' calls h = ground arith
  act-Spends t (Runs.sets_disconnected on rc) c c' calls h = ground arith
  act-Spends t (Runs.sets_message on rc) c c' calls h = ground arith
  act-Spends t (Runs.consumes fuel) c c' calls h = ground arith

  Runs-Spends :
      (t : ℕ) {Q : Act P → Client P → Type 0} {c c' : Client P} {calls : List (Call P)}
      → Runs Q c c' calls
      → Spends t c c' calls
  Runs-Spends t here = omega arith
  Runs-Spends t (next {c'} {c''} {calls} {calls'} a run q e) =
      omega
        (arith, Runs-Spends t run, act-Spends t a c' c'' calls' e, deliveries-append t calls calls')

  -- In every run from a client without pending delivery tokens, whatever is asked and answered,
  -- also requests that the C library refuses, and callbacks that it makes more than once or on any
  -- token: `delivery_complete` is called at most once for a token, not while the token stands in
  -- the list of pending delivery tokens, where it stands once at most, nor for a token that was
  -- made before the run.
  pub delivered_once :
      (t : ℕ) {Q : Act P → Client P → Type 0} {c c' : Client P} {calls : List (Call P)}
      → c.pending_delivery_tokens ≡ []
      → Runs Q c c' calls
      → (deliveries t calls + times t c'.pending_delivery_tokens ≤ 1)
        × (t < c.next → deliveries t calls + times t c'.pending_delivery_tokens ≡ 0)
  delivered_once t {c} e run = ground (arith, Runs-Spends t run, ap (times t) e)

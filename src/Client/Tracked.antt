-- ===== src/Client/Tracked.antt =====
-- The lists of pending tokens over a run.
use paho_mqtt_cpp.Prelude.{
  ℕ, ◌+◌, ◌-◌, ◌≤◌, ◌<◌, ltb, ◌==◌, ◌≡◌, refl, ap, true, false, Option, none, some, List, [], ◌∷◌,
  ◌++◌, ℤ, pos, arith,
}
use paho_mqtt_cpp.Token.{Token, Callback, complete_with, reset, set_message_id, set_num_expected}
use paho_mqtt_cpp.Token
use paho_mqtt_cpp.Token.Completion.{complete_with-completes}
use paho_mqtt_cpp.Client.{
  Client, Call, create, add_token, add_delivery_token, remove_token, has, erase_first,
}
use paho_mqtt_cpp.Client.Requests.{
  Request, connects, disconnects, publishes, subscribes, unsubscribes, subscribes_many,
  unsubscribes_many, request, reconnect, conclude,
}
use paho_mqtt_cpp.Client.Callbacks.{token_done, connect_done}
use paho_mqtt_cpp.Client.Occurrences.{times, one_if, times-added, times-removed}
use paho_mqtt_cpp.Client.Runs.{Act, Runs, here, next, act, asks, reconnects, ends}
use paho_mqtt_cpp.Client.Runs

module _ {P : Type 0} where
  abbrev pub live : ℕ → Client P → ℕ
  live t c = times t c.pending_tokens + times t c.pending_delivery_tokens

  -- A token is pending once at most, in one of the lists, and only if it was made and is not
  -- complete; the token of the connect was made, and is no delivery token.
  pub record IsTracked (t : ℕ) (c : Client P) : Type 0 where
    pub unmade : c.next ≤ t → live t c ≡ 0
    pub once : live t c ≤ 1
    pub unfinished : 0 < live t c → (c.tokens t).complete ≡ false
    pub connecting : c.conn_tok ≡ some t → (t < c.next) × (times t c.pending_delivery_tokens ≡ 0)

  -- A reconnect is called only when the connect's token is not pending.
  abbrev pub IsOrderly : Act P → Client P → Type 0
  IsOrderly (reconnects rc_set rc) c =
      (tok : ℕ) → c.conn_tok ≡ some tok → times tok c.pending_tokens ≡ 0
  IsOrderly a c = Unit {0}

  made :
      (t : ℕ) (c : Client P)
      → (times t (c.pending_tokens ++ (c.next ∷ []))
          ≡ times t c.pending_tokens + one_if (c.next == t))
        × (times t (erase_first c.next (c.pending_tokens ++ (c.next ∷ [])))
            ≡ times t c.pending_tokens)
        × (has c.next c.pending_delivery_tokens ≡ ltb 0 (times c.next c.pending_delivery_tokens))
        × (times t (erase_first c.next c.pending_delivery_tokens)
            ≡ times t c.pending_delivery_tokens - one_if (c.next == t))
  made t c = ground (
    arith,
    times-added t c.next c.pending_tokens,
    times-removed t c.next c.pending_delivery_tokens,
  )

  request-IsTracked :
      (t : ℕ) (req : Request) (rc : ℤ) (c : Client P)
      → IsTracked t c
      → IsTracked t (request req rc c).1
  unfolding request create add_token add_delivery_token remove_token Token.new set_message_id
      set_num_expected
  request-IsTracked t (connects opts user_context l) rc c v = ground (arith, made t c)
  request-IsTracked t (disconnects user_context l) rc c v = ground (arith, made t c)
  request-IsTracked t (publishes msg user_context l id) rc c v =
      ground (arith, times-added t c.next c.pending_delivery_tokens)
  request-IsTracked t (subscribes filter user_context l) rc c v = ground (arith, made t c)
  request-IsTracked t (unsubscribes filter user_context l) rc c v = ground (arith, made t c)
  request-IsTracked t (subscribes_many filters qos user_context l) rc c v = ground (arith, made t c)
  request-IsTracked t (unsubscribes_many filters user_context l) rc c v = ground (arith, made t c)

  token_done-IsTracked :
      (t tok : ℕ) (cb : Callback P) (c : Client P)
      → IsTracked t c
      → IsTracked t (token_done cb tok c).0
  unfolding token_done remove_token
  token_done-IsTracked t tok cb c v =
      ground
        (arith, times-removed t tok c.pending_tokens, times-removed t tok c.pending_delivery_tokens)

  -- A callback on a token takes it from the lists, where it stands once at most, and completes it.
  token_done-leaves :
      (t : ℕ) (cb : Callback P) (c : Client P)
      → (live t c ≤ 1 → live t (token_done cb t c).0 ≡ 0)
        × (((token_done cb t c).0.tokens t).complete ≡ true)
  unfolding token_done remove_token
  token_done-leaves t cb c = (
    λ h.
        ground
          (arith, times-removed t t c.pending_tokens, times-removed t t c.pending_delivery_tokens),
    ground (arith, complete_with-completes cb (c.tokens t)),
  )

  reconnect-IsTracked :
      (t : ℕ) (rc_set rc : ℤ) (c : Client P) (tok : Option ℕ)
      → c.conn_tok ≡ tok
      → ((tok : ℕ) → c.conn_tok ≡ some tok → times tok c.pending_tokens ≡ 0)
      → IsTracked t c
      → IsTracked t (reconnect rc_set rc c).1
  unfolding reconnect add_token remove_token conclude reset
  reconnect-IsTracked t rc_set rc c none e idle v = ground arith
  reconnect-IsTracked t rc_set rc c (some tok) e idle v = ground (
    arith,
    idle tok e,
    times-added t tok c.pending_tokens,
    times-removed t tok c.pending_delivery_tokens,
  )

  connect_done-IsTracked :
      (t : ℕ) (tok : Option ℕ) (c : Client P) → IsTracked t c → IsTracked t (connect_done tok c).0
  unfolding connect_done
  connect_done-IsTracked t none c v = v
  connect_done-IsTracked t (some tok) c v = token_done-IsTracked t tok (Token.success none) c v

  act-IsTracked :
      (t : ℕ) (a : Act P) (c c' : Client P) (calls : List (Call P))
      → IsOrderly a c
      → IsTracked t c
      → act a c ≡ some (c', calls)
      → IsTracked t c'
  unfolding act
  act-IsTracked t (asks req rc) c c' calls q v h = ground (arith, request-IsTracked t req rc c)
  act-IsTracked t (reconnects rc_set rc) c c' calls q v h =
      ground (arith, reconnect-IsTracked t rc_set rc c c.conn_tok refl q v)
  act-IsTracked t (ends cb tok) c c' calls q v h = ground (arith, token_done-IsTracked t tok cb c)
  act-IsTracked t (Runs.connects cause) c c' calls q v h =
      ground (arith, connect_done-IsTracked t c.conn_tok c)
  act-IsTracked t (Runs.loses cause) c c' calls q v h = ground arith
  act-IsTracked t (Runs.disconnects props reason) c c' calls q v h = ground arith
  act-IsTracked t (Runs.arrives m) c c' calls q v h = ground arith
  act-IsTracked t (Runs.starts rcs) c c' calls q v h = ground arith
  act-IsTracked t (Runs.stops rc) c c' calls q v h = ground arith
  act-IsTracked t Runs.clears c c' calls q v h = ground arith
  act-IsTracked t (Runs.disables rc) c c' calls q v h = ground arith
  act-IsTracked t Runs.takes_event c c' calls q v h = ground arith
  act-IsTracked t Runs.tries_event c c' calls q v h = ground arith
  act-IsTracked t (Runs.tries fuel) c c' calls q v h = ground arith
  act-IsTracked t (Runs.sets_connected on rc) c c' calls q v h = ground arith
  act-IsTracked t (Runs.sets_lost on rc) c c' calls q v h = ground arith
  act-IsTracked t (Runs.sets_disconnected on rc) c c' calls q v h = ground arith
  act-IsTracked t (Runs.sets_message on rc) c c' calls q v h = ground arith
  act-IsTracked t (Runs.consumes fuel) c c' calls q v h = ground arith

  pub Runs-IsTracked :
      (t : ℕ) {c c' : Client P} {calls : List (Call P)}
      → IsTracked t c
      → Runs IsOrderly c c' calls
      → IsTracked t c'
  Runs-IsTracked t v here = v
  Runs-IsTracked t v (next {c'} {c''} {calls} {calls'} a run q e) =
      act-IsTracked t a c' c'' calls' q (Runs-IsTracked t v run) e

  -- A client with no pending tokens that has never connected.
  pub record IsIdle (c : Client P) : Type 0 where
    pub no_tokens : c.pending_tokens ≡ []
    pub no_deliveries : c.pending_delivery_tokens ≡ []
    pub no_connect : c.conn_tok ≡ none

  idle-IsTracked : (t : ℕ) (c : Client P) → IsIdle c → IsTracked t c
  idle-IsTracked t c v = ground (arith, ap (times t) v.no_tokens, ap (times t) v.no_deliveries)

  -- In every run of a client that starts with no pending tokens and no connect, in which
  -- `reconnect` is called only when the connect's token is not pending, whatever else is asked and
  -- answered: a token is pending once at most, in one of the two lists, only if it was made, and it
  -- is not complete then; and a callback of the C library on a token that is pending leaves it
  -- complete and not pending.
  pub run_tracks :
      (t : ℕ) (cb : Callback P) {c c' : Client P} {calls : List (Call P)}
      → IsIdle c
      → Runs IsOrderly c c' calls
      → IsTracked t c'
        × (live t (token_done cb t c').0 ≡ 0)
        × (((token_done cb t c').0.tokens t).complete ≡ true)
  run_tracks t cb {c} {c'} idle run =
      let v = Runs-IsTracked t (idle-IsTracked t c idle) run in
      (v, (token_done-leaves t cb c').0 v.once, (token_done-leaves t cb c').1)

  -- When `reconnect` is called while the connect's token is pending, and the C library accepts it,
  -- the token is pending twice; after a callback on it it is complete, and still pending.
  pub reconnect_pending :
      (tok : ℕ) (cb : Callback P) (c : Client P)
      → c.conn_tok ≡ some tok
      → times tok c.pending_tokens ≡ 1
      → times tok c.pending_delivery_tokens ≡ 0
      → let c' = (reconnect (pos 0) (pos 0) c).1 in
        let done = (token_done cb tok c').0 in
        (times tok c'.pending_tokens ≡ 2)
        × ((done.tokens tok).complete ≡ true)
        × (times tok done.pending_tokens ≡ 1)
  unfolding reconnect add_token conclude token_done remove_token
  reconnect_pending tok cb c e once none_delivered = ground (
    arith,
    times-added tok tok c.pending_tokens,
    times-removed tok tok (c.pending_tokens ++ (tok ∷ [])),
    times-removed tok tok c.pending_delivery_tokens,
    complete_with-completes cb (reset (c.tokens tok)),
  )

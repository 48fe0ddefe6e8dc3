-- ===== src/Blocking/Calls.antt =====
-- How the calls of the synchronous client end, and what they leave in the asynchronous client.
use paho_mqtt_cpp.Prelude.{
  ℕ, suc, ◌+◌, eq→==, subst, ◌≡◌, refl, ap, ap₂, ◌∙◌, true, false, Option, none, some, List, [],
  ◌∷◌, ◌++◌, length, Str, ℤ, arith,
}
use paho_mqtt_cpp.Token.{
  ConnectResponse, Token, TokenType, Callback, success5, Outcome, Failure, mqtt_exception, wait,
  wait_for, get_connect_response, get_subscribe_response, set_num_expected, set_message_id,
  get_unsubscribe_response, complete_with, SuccessData5, connect_response5, reason_codes5,
}
use paho_mqtt_cpp.Token
use paho_mqtt_cpp.Event.{Message}
use paho_mqtt_cpp.Token.Completion.{complete_with-completes}
use paho_mqtt_cpp.Client.Callbacks.{token_done}
use paho_mqtt_cpp.Client.{
  Client, Result, ConnectOptions, token, remove_token, create, add_token, add_delivery_token,
}
use paho_mqtt_cpp.Client.Requests.{
  Ended, Request, request, connects, disconnects, publishes, subscribes, unsubscribes,
  subscribes_many, unsubscribes_many,
}
use paho_mqtt_cpp.Client.Pending.{IsValid, IsWellSized, is_publish, request_accepted}
use paho_mqtt_cpp.Client.Completion.{request_completes}
use paho_mqtt_cpp.Client.Consumer.{Starts, start_consuming, register}
use paho_mqtt_cpp.Client.Setup.{disable_callbacks}
use paho_mqtt_cpp.Blocking.{
  Reply, timeout_error, still_waits, Answer, arrive, await, waited, no_response, connect_from,
  connect, subscribe, dflt_qos_of, subscribe_all, unsubscribe, unsubscribe_all, disconnect, publish,
  publish_ref, unlimited,
}

pub dflt_qos_of-length : (fs : List Str) → length fs ≡ length (dflt_qos_of fs)
unfolding dflt_qos_of
dflt_qos_of-length [] = refl
dflt_qos_of-length (f ∷ fs) = ap suc (dflt_qos_of-length fs)

-- The C library accepts the calls of `start_consuming`.
abbrev pub all_accepted : Starts
all_accepted = record {
  disable = Token.async_success;
  callbacks = Token.async_success;
  connected = Token.async_success;
  disconnected = Token.async_success;
}

module _ {P : Type 0} where
  -- The lists of pending tokens are the same.
  pub record IsRestored (c c' : Client P) : Type 0 where
    pub tokens_same : c'.pending_tokens ≡ c.pending_tokens
    pub deliveries_same : c'.pending_delivery_tokens ≡ c.pending_delivery_tokens

  IsRestored-by :
      {c c' : Client P} {A : Type 0}
      → (c'.pending_tokens ≡ c.pending_tokens)
        × (c'.pending_delivery_tokens ≡ c.pending_delivery_tokens)
        × A
      → IsRestored c c'
  IsRestored-by h = record { tokens_same = h.0; deliveries_same = h.1 }

  -- A call whose request returned a token.
  pub await-token :
      {A : Type 0} (get : Token P → Reply A) (answer : Option (Callback P)) (tok : ℕ) (e : Ended P)
      → e.0 ≡ token tok
      → let (c', calls) = arrive answer tok e.1 in
        await get answer e ≡ (get (c'.tokens tok), c', e.2 ++ calls)
  unfolding await
  await-token get answer tok (r, c, calls) h = rw h refl

  pub token_done-token :
      (cb : Callback P) (tok : ℕ) (c : Client P)
      → (token_done cb tok c).0.tokens tok ≡ (complete_with cb (c.tokens tok)).0
  unfolding token_done remove_token
  token_done-token cb tok c = ground arith

  request-next :
      (req : Request) (c : Client P)
      → IsWellSized req
      → (request req Token.async_success c).1.next ≡ c.next + 1
  unfolding request create add_token add_delivery_token
  request-next (connects opts user_context l) c w = ground arith
  request-next (disconnects user_context l) c w = ground arith
  request-next (publishes msg user_context l id) c w = ground arith
  request-next (subscribes filter user_context l) c w = ground arith
  request-next (unsubscribes filter user_context l) c w = ground arith
  request-next (subscribes_many filters qos user_context l) c w =
      rw (eq→== (length filters) (length qos) w) (ground arith)
  request-next (unsubscribes_many filters user_context l) c w = ground arith

  token_done-next :
      (cb : Callback P) (tok : ℕ) (c : Client P) → (token_done cb tok c).0.next ≡ c.next
  unfolding token_done remove_token
  token_done-next cb tok c = ground arith

  -- A call made one token, which is complete, and the lists of pending tokens are the same.
  pub record IsServed (c c' : Client P) : Type 0 where
    pub restored : IsRestored c c'
    pub made : c'.next ≡ c.next + 1
    pub completed : (c'.tokens c.next).complete ≡ true

  await-IsServed :
      {A : Type 0} (get : Token P → Reply A) (req : Request) (cb : Callback P) (c : Client P)
      → IsWellSized req
      → IsValid c
      → IsServed c (await get (some cb) (request req Token.async_success c)).1
  await-IsServed get req cb c w v =
      let sent = (request req Token.async_success c).1 in
      rw
        (await-token get (some cb) c.next (request req Token.async_success c)
          (request_accepted req c w v).0)
        (record {
          restored = IsRestored-by (request_completes req cb c w v);
          made = token_done-next cb c.next sent ∙ request-next req c w;
          completed =
              ap (λ t. t.complete) (token_done-token cb c.next sent)
              ∙ (complete_with-completes cb (sent.tokens c.next)).0;
        })

  waited-incomplete :
      {A : Type 0} (get : Token P → Option (Outcome A)) (t : Token P)
      → t.complete ≡ false
      → waited get t ≡ timeout_error
  unfolding waited wait_for
  waited-incomplete get t h = rw h refl

  -- A request that the C library accepts, and whose token no callback completes in time.
  await-times_out :
      {A : Type 0} (get : Token P → Option (Outcome A)) (req : Request) (c : Client P)
      → IsWellSized req
      → IsValid c
      → let (r, c', calls) = await (waited get) none (request req Token.async_success c) in
        (r ≡ timeout_error) × (c' ≡ (request req Token.async_success c).1)
  await-times_out get req c w v =
      rw
        (await-token (waited get) none c.next (request req Token.async_success c)
          (request_accepted req c w v).0)
        (waited-incomplete get _ (request_accepted req c w v).2, refl)

  IsRestored-trans : {c c' c'' : Client P} → IsRestored c c' → IsRestored c' c'' → IsRestored c c''
  IsRestored-trans h k = record {
    tokens_same = k.tokens_same ∙ h.tokens_same;
    deliveries_same = k.deliveries_same ∙ h.deliveries_same;
  }

  -- A started consumer changes neither the lists nor the store.
  pub start_consuming-IsRestored :
      (c : Client P)
      → IsRestored c (start_consuming all_accepted c).1
        × (IsValid c → IsValid (start_consuming all_accepted c).1)
        × ((start_consuming all_accepted c).1.next ≡ c.next)
        × ((start_consuming all_accepted c).0 ≡ none)
  unfolding start_consuming register disable_callbacks
  start_consuming-IsRestored c = ground arith

  await-pending :
      {A : Type 0} (get : Token P → Option (Outcome A)) (req : Request) (c : Client P)
      → IsWellSized req
      → IsValid c
      → is_publish req ≡ false
      → let (r, c', calls) = await (waited get) none (request req Token.async_success c) in
        (r ≡ timeout_error) × (c'.pending_tokens ≡ c.pending_tokens ++ (c.next ∷ []))
  await-pending get req c w v p =
      ground (arith, await-times_out get req c w v, request_accepted req c w v, p)

  abbrev pub accepts : Option (Callback P) → Answer P
  accepts done = record { starts = all_accepted; rc = Token.async_success; done = done }

  connect_from-started :
      (opts : ConnectOptions) (ans : Answer P) (r : Option Result × Client P)
      → r.0 ≡ none
      → connect_from opts ans r
        ≡ await (waited get_connect_response) ans.done (request (connects opts 0 none) ans.rc r.1)
  unfolding connect_from
  connect_from-started opts ans (none, started) h = refl
  connect_from-started opts ans (some e, started) h = cc

  -- A connect is a request of a client whose consumer is started.
  pub connect-started :
      (opts : ConnectOptions) (done : Option (Callback P)) (c : Client P)
      → connect opts (accepts done) c
        ≡ await
            (waited get_connect_response)
            done
            (request (connects opts 0 none) Token.async_success (start_consuming all_accepted c).1)
  connect-started opts done c =
      unfold connect in
      connect_from-started opts (accepts done) (start_consuming all_accepted c)
        (start_consuming-IsRestored c).3

  connect-IsServed :
      (opts : ConnectOptions) (cb : Callback P) (c : Client P)
      → IsValid c
      → IsServed c (connect opts (accepts (some cb)) c).1
  connect-IsServed opts cb c v =
      let (same, valid, next, fine) = start_consuming-IsRestored c in
      let served =
        await-IsServed (waited get_connect_response) (connects opts 0 none) cb
          (start_consuming all_accepted c).1 tt (valid v) in
      let c' =
        (await (waited get_connect_response) (some cb) (
          request (connects opts 0 none) Token.async_success
            (start_consuming all_accepted c).1)).1 in
      rw (connect-started opts (some cb) c) (record {
        restored = IsRestored-trans same served.restored;
        made = served.made ∙ ap (λ n. n + 1) next;
        completed = subst (λ n. (c'.tokens n).complete ≡ true) next served.completed;
      })

  -- For a client whose pending tokens are in its store: each call that the C library accepts and
  -- completes in time, with success or failure, has made one token, which is complete, and the
  -- lists of pending tokens are as before the call.
  pub calls-IsServed :
      (opts : ConnectOptions) (filter : Str) (filters : List Str) (msg : Message) (id : ℤ)
      (cb : Callback P) (c : Client P)
      → IsValid c
      → IsServed c (connect opts (accepts (some cb)) c).1
        × IsServed c (subscribe filter (accepts (some cb)) c).1
        × IsServed c (subscribe_all filters (accepts (some cb)) c).1
        × IsServed c (unsubscribe filter (accepts (some cb)) c).1
        × IsServed c (unsubscribe_all filters (accepts (some cb)) c).1
        × IsServed c (disconnect (accepts (some cb)) c).1
        × IsServed c (publish msg id (accepts (some cb)) c).1
        × IsServed c (publish_ref msg id (accepts (some cb)) c).1
  unfolding subscribe subscribe_all unsubscribe unsubscribe_all disconnect publish publish_ref
  calls-IsServed opts filter filters msg id cb c v = (
    connect-IsServed opts cb c v,
    await-IsServed (waited get_subscribe_response) (subscribes filter 0 none) cb c tt v,
    await-IsServed (waited get_subscribe_response)
        (subscribes_many filters (dflt_qos_of filters) 0 none) cb c (dflt_qos_of-length filters) v,
    await-IsServed (waited get_unsubscribe_response) (unsubscribes filter 0 none) cb c tt v,
    await-IsServed (waited get_unsubscribe_response) (unsubscribes_many filters 0 none) cb c tt v,
    await-IsServed (waited no_response) (disconnects 0 none) cb c tt v,
    await-IsServed (waited no_response) (publishes msg 0 none id) cb c tt v,
    await-IsServed unlimited (publishes msg 0 none id) cb c tt v,
  )

  connect-pending :
      (opts : ConnectOptions) (c : Client P)
      → IsValid c
      → ((connect opts (accepts none) c).0 ≡ timeout_error)
        × ((connect opts (accepts none) c).1.pending_tokens ≡ c.pending_tokens ++ (c.next ∷ []))
  connect-pending opts c v =
      let (same, valid, next, fine) = start_consuming-IsRestored c in
      let (late, left) =
        await-pending get_connect_response (connects opts 0 none) (start_consuming all_accepted c).1
          tt (valid v) refl in
      rw (connect-started opts none c)
        (late, left ∙ ap₂ (λ xs a. xs ++ (a ∷ [])) same.tokens_same next)

  unlimited-incomplete : (t : Token P) → t.complete ≡ false → unlimited t ≡ still_waits
  unfolding unlimited wait
  unlimited-incomplete t h = rw h refl

  -- For such a client: each call that the C library accepts and does not complete in time throws
  -- `timeout_error`, a publication that waits without a limit still waits, and the new token stays
  -- pending.
  pub calls-time_out :
      (opts : ConnectOptions) (filter : Str) (filters : List Str) (msg : Message) (id : ℤ)
      (c : Client P)
      → IsValid c
      → let pending = c.pending_tokens ++ (c.next ∷ []) in
        let deliveries = c.pending_delivery_tokens ++ (c.next ∷ []) in
        (((connect opts (accepts none) c).0 ≡ timeout_error)
          × ((connect opts (accepts none) c).1.pending_tokens ≡ pending))
        × (((subscribe filter (accepts none) c).0 ≡ timeout_error)
            × ((subscribe filter (accepts none) c).1.pending_tokens ≡ pending))
        × (((subscribe_all filters (accepts none) c).0 ≡ timeout_error)
            × ((subscribe_all filters (accepts none) c).1.pending_tokens ≡ pending))
        × (((unsubscribe filter (accepts none) c).0 ≡ timeout_error)
            × ((unsubscribe filter (accepts none) c).1.pending_tokens ≡ pending))
        × (((unsubscribe_all filters (accepts none) c).0 ≡ timeout_error)
            × ((unsubscribe_all filters (accepts none) c).1.pending_tokens ≡ pending))
        × (((disconnect (accepts none) c).0 ≡ timeout_error)
            × ((disconnect (accepts none) c).1.pending_tokens ≡ pending))
        × (((publish msg id (accepts none) c).0 ≡ timeout_error)
            × ((publish msg id (accepts none) c).1.pending_delivery_tokens ≡ deliveries))
        × (((publish_ref msg id (accepts none) c).0 ≡ still_waits)
            × ((publish_ref msg id (accepts none) c).1.pending_delivery_tokens ≡ deliveries))
  unfolding connect subscribe subscribe_all unsubscribe unsubscribe_all disconnect publish
      publish_ref
  calls-time_out opts filter filters msg id c v =
      let accepted = request_accepted (publishes msg 0 none id) c tt v in
      (
        connect-pending opts c v,
        await-pending get_subscribe_response (subscribes filter 0 none) c tt v refl,
        await-pending get_subscribe_response (subscribes_many filters (dflt_qos_of filters) 0 none)
            c (dflt_qos_of-length filters) v refl,
        await-pending get_unsubscribe_response (unsubscribes filter 0 none) c tt v refl,
        await-pending get_unsubscribe_response (unsubscribes_many filters 0 none) c tt v refl,
        await-pending no_response (disconnects 0 none) c tt v refl,
        ground (arith, await-times_out no_response (publishes msg 0 none id) c tt v, accepted),
        rw
            (await-token unlimited none c.next
              (request (publishes msg 0 none id) Token.async_success c) accepted.0)
            (unlimited-incomplete _ accepted.2, accepted.4),
      )

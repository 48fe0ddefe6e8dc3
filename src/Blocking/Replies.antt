-- ===== src/Blocking/Replies.antt =====
-- What the calls of the synchronous client return or throw.
use paho_mqtt_cpp.Prelude.{
  ℕ, ltb, if◌then◌else◌, ◌≡◌, ap, ◌∙◌, Option, none, some, List, [], length, eq→==, Str, arith,
}
use paho_mqtt_cpp.Token.{
  ConnectResponse, Token, TokenType, Callback, success5, Outcome, Failure, mqtt_exception, wait,
  wait_for, get_connect_response, get_subscribe_response, set_num_expected, set_message_id,
  get_unsubscribe_response, complete_with, SuccessData5, connect_response5, reason_codes5,
}
use paho_mqtt_cpp.Token.Codes.{
  IsCodes, IsConnected, connect_response5-IsConnected, reason_codes5-IsCodes,
}
use paho_mqtt_cpp.Token
use paho_mqtt_cpp.Client.{Client, ConnectOptions, create, add_token, add_delivery_token}
use paho_mqtt_cpp.Client.Requests.{
  Request, request, connects, disconnects, publishes, subscribes, unsubscribes, subscribes_many,
  unsubscribes_many,
}
use paho_mqtt_cpp.Client.Pending.{IsValid, IsWellSized, request_accepted}
use paho_mqtt_cpp.Client.Consumer.{start_consuming}
use paho_mqtt_cpp.Blocking.{
  Reply, returned, failed, await, waited, connect, subscribe, dflt_qos_of, subscribe_all,
  unsubscribe, unsubscribe_all,
}
use paho_mqtt_cpp.Blocking.Calls.{
  all_accepted, connect-started, await-token, token_done-token, start_consuming-IsRestored,
  dflt_qos_of-length, accepts,
}

-- The token that a request makes.
abbrev pub type_of : Request → TokenType
type_of (connects opts user_context l) = Token.connect
type_of (disconnects user_context l) = Token.disconnect
type_of (publishes msg user_context l id) = Token.publish
type_of (subscribes filter user_context l) = Token.subscribe
type_of (unsubscribes filter user_context l) = Token.unsubscribe
type_of (subscribes_many filters qos user_context l) = Token.subscribe
type_of (unsubscribes_many filters user_context l) = Token.unsubscribe

module _ {P : Type 0} where
  -- What a call answers, from the token that its request made.
  await-reply :
      {A : Type 0} (get : Token P → Option (Outcome A)) (req : Request) (cb : Callback P)
      (c : Client P)
      → IsWellSized req
      → IsValid c
      → (await (waited get) (some cb) (request req Token.async_success c)).0
        ≡ waited get (complete_with cb ((request req Token.async_success c).1.tokens c.next)).0
  await-reply get req cb c w v =
      rw
        (await-token (waited get) (some cb) c.next (request req Token.async_success c)
          (request_accepted req c w v).0)
        (ap (waited get) (token_done-token cb c.next (request req Token.async_success c).1))

  -- What a call throws for a reason code of MQTT v5.
  abbrev pub thrown : {A : Type 0} → SuccessData5 P → Reply A
  thrown rsp = failed (mqtt_exception Token.async_success rsp.reason_code [])

  abbrev pub answered : {A : Type 0} → SuccessData5 P → A → Reply A
  answered rsp r = if ltb rsp.reason_code 0x80 then returned r else thrown rsp

  request-token :
      (req : Request) (c : Client P)
      → IsWellSized req
      → let t = (request req Token.async_success c).1.tokens c.next in
        (t.type ≡ type_of req) × (t.err_msg ≡ [])
  unfolding request create add_token add_delivery_token Token.new set_num_expected set_message_id
  request-token (connects opts user_context l) c w = ground arith
  request-token (disconnects user_context l) c w = ground arith
  request-token (publishes msg user_context l id) c w = ground arith
  request-token (subscribes filter user_context l) c w = ground arith
  request-token (unsubscribes filter user_context l) c w = ground arith
  request-token (subscribes_many filters qos user_context l) c w =
      rw (eq→== (length filters) (length qos) w) (ground arith)
  request-token (unsubscribes_many filters user_context l) c w = ground arith

  -- What the getters give for a token that is completed so.
  waited-success5 :
      (rsp : SuccessData5 P) (t : Token P)
      → t.err_msg ≡ []
      → let t' = (complete_with (success5 (some rsp)) t).0 in
        (t.type ≡ Token.connect
          → waited get_connect_response t' ≡ answered rsp (connect_response5 rsp))
        × (t.type ≡ Token.subscribe
            → waited get_subscribe_response t' ≡ answered rsp (reason_codes5 rsp))
        × (t.type ≡ Token.unsubscribe
            → waited get_unsubscribe_response t' ≡ answered rsp (reason_codes5 rsp))
  unfolding complete_with waited wait_for get_connect_response get_subscribe_response
      get_unsubscribe_response
  waited-success5 rsp t m = ground arith

  replies :
      (opts : ConnectOptions) (filter : Str) (filters : List Str) (rsp : SuccessData5 P)
      (c : Client P)
      → IsValid c
      → let ans = accepts (some (success5 (some rsp))) in
        ((connect opts ans c).0 ≡ answered rsp (connect_response5 rsp))
        × ((subscribe filter ans c).0 ≡ answered rsp (reason_codes5 rsp))
        × ((subscribe_all filters ans c).0 ≡ answered rsp (reason_codes5 rsp))
        × ((unsubscribe filter ans c).0 ≡ answered rsp (reason_codes5 rsp))
        × ((unsubscribe_all filters ans c).0 ≡ answered rsp (reason_codes5 rsp))
  unfolding subscribe subscribe_all unsubscribe unsubscribe_all
  replies opts filter filters rsp c v =
      let cb : Callback P = success5 (some rsp) in
      let s = (start_consuming all_accepted c).1 in
      let token_of : Request → Client P → Token P =
        λ req d. (request req Token.async_success d).1.tokens d.next in
      let made : (req : Request)
          → IsWellSized req
          → (((token_of req c).type ≡ type_of req) × ((token_of req c).err_msg ≡ [])) =
        λ req w. request-token req c w in
      let conn = connects opts 0 none in
      let sub = subscribes filter 0 none in
      let subs = subscribes_many filters (dflt_qos_of filters) 0 none in
      let sized = dflt_qos_of-length filters in
      let unsub = unsubscribes filter 0 none in
      let unsubs = unsubscribes_many filters 0 none in
      (
        ap (λ r. r.0) (connect-started opts (some cb) c)
            ∙ await-reply get_connect_response conn cb s tt ((start_consuming-IsRestored c).1 v)
            ∙ (waited-success5 rsp (token_of conn s) (request-token conn s tt).1).0
                (request-token conn s tt).0,
        await-reply get_subscribe_response sub cb c tt v
            ∙ (waited-success5 rsp (token_of sub c) (made sub tt).1).1 (made sub tt).0,
        await-reply get_subscribe_response subs cb c sized v
            ∙ (waited-success5 rsp (token_of subs c) (made subs sized).1).1 (made subs sized).0,
        await-reply get_unsubscribe_response unsub cb c tt v
            ∙ (waited-success5 rsp (token_of unsub c) (made unsub tt).1).2 (made unsub tt).0,
        await-reply get_unsubscribe_response unsubs cb c tt v
            ∙ (waited-success5 rsp (token_of unsubs c) (made unsubs tt).1).2 (made unsubs tt).0,
      )

  -- For a client whose pending tokens are in its store, and calls that the C library accepts and
  -- completes in time with the success of MQTT v5: if the answer's reason code is below 0x80, a
  -- connect returns the answer's properties, server, version and session flag, and the other calls
  -- its reason codes; else all throw, with the reason code.
  pub calls-reply :
      (opts : ConnectOptions) (filter : Str) (filters : List Str) (rsp : SuccessData5 P)
      (c : Client P)
      → IsValid c
      → let ans = accepts (some (success5 (some rsp))) in
        ((r : ConnectResponse P) × IsConnected rsp r × ((connect opts ans c).0 ≡ answered rsp r))
        × ((cs : List ℕ) × IsCodes rsp cs
            × ((subscribe filter ans c).0 ≡ answered rsp cs)
            × ((subscribe_all filters ans c).0 ≡ answered rsp cs)
            × ((unsubscribe filter ans c).0 ≡ answered rsp cs)
            × ((unsubscribe_all filters ans c).0 ≡ answered rsp cs))
  calls-reply opts filter filters rsp c v =
      let (made, one, many, off, offs) = replies opts filter filters rsp c v in
      (
        (connect_response5 rsp, connect_response5-IsConnected rsp, made),
        (reason_codes5 rsp, reason_codes5-IsCodes rsp, one, many, off, offs),
      )

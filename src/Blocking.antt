-- ===== src/Blocking.antt =====
-- The synchronous `client` of include/mqtt/client.h and src/client.cpp: each call makes a request
-- of the asynchronous client and waits on its token. An argument says what the C library does
-- meanwhile: its code for the request, and the callback on the token that comes within the timeout,
-- if any.
pub mod Calls
pub mod Replies
pub mod Object
pub mod Forwarded
mod Tests
use paho_mqtt_cpp.Prelude.{
  ℕ, if◌then◌else◌, true, false, Option, none, some, List, [], ◌∷◌, ◌++◌, Str, ℤ,
}
use paho_mqtt_cpp.Token.{
  ConnectResponse, Token, Callback, Outcome, Failure, returns, throws, wait, wait_for,
  get_connect_response, get_subscribe_response, get_unsubscribe_response,
}
use paho_mqtt_cpp.Token
use paho_mqtt_cpp.Event.{Message}
use paho_mqtt_cpp.Client.{Client, ConnectOptions, Call, Result, token}
use paho_mqtt_cpp.Client.Requests.{
  Ended, Request, request, connects, disconnects, publishes, subscribes, unsubscribes,
  subscribes_many, unsubscribes_many, reconnect,
}
use paho_mqtt_cpp.Client.Callbacks.{token_done}
use paho_mqtt_cpp.Client.Consumer.{Starts, start_consuming}

-- `client::DFLT_QOS`
abbrev pub dflt_qos : ℕ
dflt_qos = 1

-- How a call ends: it returns, or throws `timeout_error`, what the token throws, or what the
-- request throws; `still_waits` is a wait without a limit.
pub data Reply (A : Type 0) : Type 0 where
  returned : A → Reply A
  timeout_error still_waits : Reply A
  failed : Failure → Reply A
  refused : Result → Reply A

-- What the C library does during a call.
pub record Answer (P : Type 0) : Type 0 where
  -- To the calls of `start_consuming`, which `connect` makes first.
  pub starts : Starts
  pub rc : ℤ
  pub done : Option (Callback P)

-- A getter of a response after the wait.
unfoldable pub got : {A : Type 0} → Option (Outcome A) → Reply A
got none = still_waits
got (some (returns r)) = returned r
got (some (throws e)) = failed e

-- `for (size_t i = 0; i < topicFilters.size(); ++i) qos.push_back(DFLT_QOS);`
unfoldable pub dflt_qos_of : List Str → List ℕ
dflt_qos_of [] = []
dflt_qos_of (f ∷ fs) = dflt_qos ∷ dflt_qos_of fs

module _ {P : Type 0} where
  abbrev pub arrive : Option (Callback P) → ℕ → Client P → Client P × List (Call P)
  arrive none tok c = (c, [])
  arrive (some cb) tok c = token_done cb tok c

  -- `if (!tok->wait_for(timeout_)) throw timeout_error(); return <the response>;`
  unfoldable pub waited : {A : Type 0} → (Token P → Option (Outcome A)) → Token P → Reply A
  unfolding got
  waited get t = elim (wait_for t) [
    | returns true ↦ got (get t)
    | returns false ↦ timeout_error
    | throws e ↦ failed e
  ]

  -- A request, and then the wait on its token.
  unfoldable pub await :
      {A : Type 0}
      → (Token P → Reply A)
      → Option (Callback P)
      → Ended P
      → Reply A × Client P × List (Call P)
  await get answer (token tok, c, calls) =
      let (c', calls') = arrive answer tok c in (get (c'.tokens tok), c', calls ++ calls')
  await get answer (r, c, calls) = (refused r, c, calls)

  unfoldable pub no_response : Token P → Option (Outcome (Unit {0}))
  no_response t = some (returns tt)

  -- A connect after the consumer is started, which may throw.
  unfoldable pub connect_from :
      ConnectOptions
      → Answer P
      → Option Result × Client P
      → Reply (ConnectResponse P) × Client P × List (Call P)
  unfolding await waited
  connect_from opts ans (some e, started) = (refused e, started, [])
  connect_from opts ans (none, started) =
      await (waited get_connect_response) ans.done (request (connects opts 0 none) ans.rc started)

  -- `connect()` is `connect` with default options.
  unfoldable pub connect :
      ConnectOptions → Answer P → Client P → Reply (ConnectResponse P) × Client P × List (Call P)
  unfolding connect_from start_consuming
  connect opts ans c = connect_from opts ans (start_consuming ans.starts c)

  -- The C library answers twice, to the servers that it is given and to the request.
  unfoldable pub reconnect_now :
      ℤ → Answer P → Client P → Reply (ConnectResponse P) × Client P × List (Call P)
  unfolding await waited reconnect
  reconnect_now rc_set ans c =
      await (waited get_connect_response) ans.done (reconnect rc_set ans.rc c)

  unfoldable pub subscribe : Str → Answer P → Client P → Reply (List ℕ) × Client P × List (Call P)
  unfolding await waited
  subscribe filter ans c =
      await (waited get_subscribe_response) ans.done (request (subscribes filter 0 none) ans.rc c)

  -- `subscribe` to many filters, each with its QoS
  unfoldable pub subscribe_qos :
      List Str → List ℕ → Answer P → Client P → Reply (List ℕ) × Client P × List (Call P)
  unfolding await waited
  subscribe_qos filters qos ans c =
      await (waited get_subscribe_response) ans.done
        (request (subscribes_many filters qos 0 none) ans.rc c)

  -- `subscribe` to many filters with the default QoS
  unfoldable pub subscribe_all :
      List Str → Answer P → Client P → Reply (List ℕ) × Client P × List (Call P)
  unfolding subscribe_qos dflt_qos_of
  subscribe_all filters ans c = subscribe_qos filters (dflt_qos_of filters) ans c

  unfoldable pub unsubscribe : Str → Answer P → Client P → Reply (List ℕ) × Client P × List (Call P)
  unfolding await waited
  unsubscribe filter ans c =
      await (waited get_unsubscribe_response) ans.done
        (request (unsubscribes filter 0 none) ans.rc c)

  unfoldable pub unsubscribe_all :
      List Str → Answer P → Client P → Reply (List ℕ) × Client P × List (Call P)
  unfolding await waited
  unsubscribe_all filters ans c =
      await (waited get_unsubscribe_response) ans.done
        (request (unsubscribes_many filters 0 none) ans.rc c)

  -- `disconnect()` and `disconnect(timeoutMS)`
  unfoldable pub disconnect : Answer P → Client P → Reply Unit × Client P × List (Call P)
  unfolding await waited no_response
  disconnect ans c = await (waited no_response) ans.done (request (disconnects 0 none) ans.rc c)

  -- `publish` of a topic and a payload, or of a shared message; `id` is what the C library stores
  -- in the response options.
  unfoldable pub publish : Message → ℤ → Answer P → Client P → Reply Unit × Client P × List (Call P)
  unfolding await waited no_response
  publish msg id ans c =
      await (waited no_response) ans.done (request (publishes msg 0 none id) ans.rc c)

  -- `publish(const message&)` waits without a limit.
  unfoldable pub unlimited : Token P → Reply Unit
  unfolding got
  unlimited t = got (wait t)

  unfoldable pub publish_ref :
      Message → ℤ → Answer P → Client P → Reply Unit × Client P × List (Call P)
  unfolding await unlimited
  publish_ref msg id ans c = await unlimited ans.done (request (publishes msg 0 none id) ans.rc c)

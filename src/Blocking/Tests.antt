-- ===== src/Blocking/Tests.antt =====
-- The calls of a synchronous client with two tokens pending.
use paho_mqtt_cpp.Prelude.{ℕ, ◌≡◌, refl, true, false, map, ◌⊎◌, none, some, List, [], ◌∷◌, Str, pos}
use paho_mqtt_cpp.Token.{Callback, SuccessData5, success5, ConnectResponse}
use paho_mqtt_cpp.Token.Codes.{IsConnected, IsCodes}
use paho_mqtt_cpp.Client.{Client, Call, connection_lost}
use paho_mqtt_cpp.Client.Setup
use paho_mqtt_cpp.Client.Callbacks.{put_event, connection_lost_callback}
use paho_mqtt_cpp.Client.Runs.{act, loses}
use paho_mqtt_cpp.Client.Samples.{opts, hello, client, client-IsValid}
use paho_mqtt_cpp.Blocking.{
  timeout_error, still_waits, connect, subscribe, subscribe_all, unsubscribe, unsubscribe_all,
  disconnect, publish, publish_ref,
}
use paho_mqtt_cpp.Blocking.Object.{
  SyncClient, elsewhere, Life, fresh, registers, dflt_timeout, new, set_callback, forward_all,
}
use paho_mqtt_cpp.Blocking.Forwarded.{last_set, sent_to, Life-sent}
use paho_mqtt_cpp.Client.Guarded.{any_method}
use paho_mqtt_cpp.Blocking.Calls.{IsServed, accepts, calls-IsServed, calls-time_out}
use paho_mqtt_cpp.Blocking.Replies.{answered, calls-reply}

abbrev filter : Str
filter = b'a' ∷ []

abbrev filters : List Str
filters = filter ∷ (b'#' ∷ []) ∷ []

abbrev rsp : SuccessData5 ℕ
rsp = record {
  token = pos 5;
  reason_code = 1;
  properties = 0;
  reason_code_count = 0;
  reason_codes = none;
  server_uri = [];
  mqtt_version = 5;
  session_present = pos 0;
}

abbrev done : Callback ℕ
done = success5 (some rsp)

calls-IsServed_example :
    IsServed client (connect opts (accepts (some done)) client).1
    × IsServed client (subscribe filter (accepts (some done)) client).1
    × IsServed client (subscribe_all filters (accepts (some done)) client).1
    × IsServed client (unsubscribe filter (accepts (some done)) client).1
    × IsServed client (unsubscribe_all filters (accepts (some done)) client).1
    × IsServed client (disconnect (accepts (some done)) client).1
    × IsServed client (publish hello (pos 5) (accepts (some done)) client).1
    × IsServed client (publish_ref hello (pos 5) (accepts (some done)) client).1
calls-IsServed_example = calls-IsServed opts filter filters hello (pos 5) done client client-IsValid

calls-time_out_example :
    let pending : List ℕ = 0 ∷ 2 ∷ [] in
    let deliveries : List ℕ = 1 ∷ 2 ∷ [] in
    (((connect opts (accepts none) client).0 ≡ timeout_error)
      × ((connect opts (accepts none) client).1.pending_tokens ≡ pending))
    × (((subscribe filter (accepts none) client).0 ≡ timeout_error)
        × ((subscribe filter (accepts none) client).1.pending_tokens ≡ pending))
    × (((subscribe_all filters (accepts none) client).0 ≡ timeout_error)
        × ((subscribe_all filters (accepts none) client).1.pending_tokens ≡ pending))
    × (((unsubscribe filter (accepts none) client).0 ≡ timeout_error)
        × ((unsubscribe filter (accepts none) client).1.pending_tokens ≡ pending))
    × (((unsubscribe_all filters (accepts none) client).0 ≡ timeout_error)
        × ((unsubscribe_all filters (accepts none) client).1.pending_tokens ≡ pending))
    × (((disconnect (accepts none) client).0 ≡ timeout_error)
        × ((disconnect (accepts none) client).1.pending_tokens ≡ pending))
    × (((publish hello (pos 5) (accepts none) client).0 ≡ timeout_error)
        × ((publish hello (pos 5) (accepts none) client).1.pending_delivery_tokens ≡ deliveries))
    × (((publish_ref hello (pos 5) (accepts none) client).0 ≡ still_waits)
        × ((publish_ref hello (pos 5) (accepts none) client).1.pending_delivery_tokens
            ≡ deliveries))
calls-time_out_example = calls-time_out opts filter filters hello (pos 5) client client-IsValid

calls-reply_example :
    let ans = accepts (some done) in
    ((r : ConnectResponse ℕ) × IsConnected rsp r × ((connect opts ans client).0 ≡ answered rsp r))
    × ((cs : List ℕ) × IsCodes rsp cs
        × ((subscribe filter ans client).0 ≡ answered rsp cs)
        × ((subscribe_all filters ans client).0 ≡ answered rsp cs)
        × ((unsubscribe filter ans client).0 ≡ answered rsp cs)
        × ((unsubscribe_all filters ans client).0 ≡ answered rsp cs))
calls-reply_example = calls-reply opts filter filters rsp client client-IsValid

abbrev quiet : Client ℕ
quiet = record client { user_callback = false; que = none }

abbrev listening : Client ℕ
listening = record quiet { user_callback = true }

abbrev object : SyncClient ℕ
object = record { cli = listening; timeout = dflt_timeout; user_callback = some 7 }

abbrev lost : List (Call ℕ)
lost = connection_lost [] ∷ []

life : Life (new quiet) object
unfolding new set_callback Setup.set_callback
life = registers 7 (pos 0) (pos 0) fresh

loses_connection : act (loses none) listening ≡ some (listening, lost)
unfolding act connection_lost_callback put_event
loses_connection = refl

Life-sent_example :
    ((cb : ℕ) × (last_set life ≡ some cb)
      × (forward_all object lost ≡ some (map (sent_to cb) lost)))
    ⊎ ((last_set life ≡ none)
        × (any_method lost ≡ false)
        × (forward_all object lost ≡ some (map elsewhere lost)))
Life-sent_example = Life-sent quiet refl life (loses none) listening lost loses_connection

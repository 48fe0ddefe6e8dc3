-- ===== src/Client/Scenarios.antt =====
-- A run of a client: a connect, and a publication that fails.
use paho_mqtt_cpp.Prelude.{ℕ, ◌+◌, ◌≤◌, ◌<◌, ◌≡◌, refl, true, none, some, [], ◌++◌, pos, negsuc}
use paho_mqtt_cpp.Token.{Callback, success, failure, complete_with}
use paho_mqtt_cpp.Client.{Client, create, add_token, add_delivery_token, remove_token}
use paho_mqtt_cpp.Client.Requests.{publishes, request, reconnect}
use paho_mqtt_cpp.Client.Requests
use paho_mqtt_cpp.Client.Callbacks.{token_done}
use paho_mqtt_cpp.Client.Occurrences.{times}
use paho_mqtt_cpp.Client.Runs.{Runs, here, next, act, asks, ends}
use paho_mqtt_cpp.Client.Notified.{is_finished, notified, run_notifies}
use paho_mqtt_cpp.Client.Once.{deliveries, delivered_once}
use paho_mqtt_cpp.Client.Tracked.{live, IsTracked, IsOrderly, IsIdle, run_tracks, reconnect_pending}
use paho_mqtt_cpp.Client.Samples.{opts, hello, client}

abbrev idle : Client ℕ
idle = record client { conn_tok = none; pending_tokens = []; pending_delivery_tokens = [] }

idle-IsIdle : IsIdle idle
idle-IsIdle = record { no_tokens = refl; no_deliveries = refl; no_connect = refl }

abbrev failed : Callback ℕ
failed = failure (some (record { token = pos 5; code = negsuc 2; message = none }))

abbrev connected : Client ℕ
connected = (request (Requests.connects opts 0 none) (pos 0) idle).1

abbrev published : Client ℕ
published = (request (publishes hello 0 (some 9) (pos 5)) (pos 0) connected).1

abbrev ended : Client ℕ
ended = (token_done failed 3 published).0

ran : Runs IsOrderly idle ended (([] ++ []) ++ [] ++ (token_done failed 3 published).1)
unfolding act
ran =
    next (ends failed 3)
      (next (asks (publishes hello 0 (some 9) (pos 5)) (pos 0))
        (next (asks (Requests.connects opts 0 none) (pos 0)) here tt refl) tt refl)
      tt refl

delivered_once_example :
    (deliveries 3 (([] ++ []) ++ [] ++ (token_done failed 3 published).1)
        + times 3 ended.pending_delivery_tokens
      ≤ 1)
    × (3 < 2
        → deliveries 3 (([] ++ []) ++ [] ++ (token_done failed 3 published).1)
            + times 3 ended.pending_delivery_tokens
          ≡ 0)
delivered_once_example = delivered_once 3 refl ran

run_tracks_example :
    IsTracked 2 ended
    × (live 2 (token_done (success none) 2 ended).0 ≡ 0)
    × (((token_done (success none) 2 ended).0.tokens 2).complete ≡ true)
run_tracks_example = run_tracks 2 (success none) idle-IsIdle ran

reconnect_pending_example :
    let c' = (reconnect (pos 0) (pos 0) client).1 in
    let done = (token_done failed 0 c').0 in
    (times 0 c'.pending_tokens ≡ 2)
    × ((done.tokens 0).complete ≡ true)
    × (times 0 done.pending_tokens ≡ 1)
reconnect_pending_example = reconnect_pending 0 failed client refl refl refl

ended_finished : is_finished 3 ended ≡ true
unfolding act complete_with create add_token add_delivery_token remove_token
ended_finished = refl

run_notifies_example : 1 ≤ notified 3 (([] ++ []) ++ [] ++ (token_done failed 3 published).1)
run_notifies_example = run_notifies 3 ran refl ended_finished

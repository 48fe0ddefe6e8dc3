-- ===== src/Token/Tests.antt =====
-- Tokens of concrete requests, and what the C library reports.
use paho_mqtt_cpp.Prelude.{ℕ, ◌≡◌, true, false, none, some, [], ◌∷◌, ◌++◌, pos, negsuc}
use paho_mqtt_cpp.Token.{
  Token, connect, subscribe, Callback, failure, SuccessData, connect_response, complete_with, wait,
  try_wait, wait_for, notify_all, remove_token,
}
use paho_mqtt_cpp.Token.Completion.{complete_with-completes, call_of, listener_calls}
use paho_mqtt_cpp.Token.Waiting.{wait-complete_with, ends}

abbrev subscribing : Token ℕ
subscribing = record {
  type = subscribe;
  rc = pos 0;
  reason_code = 0;
  err_msg = [];
  msg_id = pos 0;
  topics = (b'a' ∷ []) ∷ [];
  user_context = 0;
  listener = some 7;
  num_expected = 0;
  complete = false;
  conn_rsp = none;
  sub_rsp = none;
  unsub_rsp = none;
}

abbrev unheard : Token ℕ
unheard = record subscribing { listener = none }

abbrev reply : SuccessData
reply = record {
  token = pos 3;
  qos = 1;
  qos_list = none;
  server_uri = b'u' ∷ [];
  mqtt_version = 4;
  session_present = pos 1;
}

abbrev failed : Callback ℕ
failed = failure (some (record { token = pos 3; code = negsuc 2; message = none }))

abbrev connected : Token ℕ
connected = record subscribing { type = connect; conn_rsp = some (connect_response reply) }

complete_with-completes_example :
    ((complete_with failed subscribing).0.complete ≡ true)
    × ((complete_with failed subscribing).1
        ≡ listener_calls (call_of failed) (some 7) ++ notify_all ∷ remove_token ∷ [])
    × ((complete_with failed subscribing).0.type ≡ subscribe)
    × ((complete_with failed subscribing).0.topics ≡ (b'a' ∷ []) ∷ [])
    × ((complete_with failed subscribing).0.listener ≡ some 7)
    × ((complete_with failed subscribing).0.user_context ≡ subscribing.user_context)
    × ((complete_with failed subscribing).0.num_expected ≡ subscribing.num_expected)
complete_with-completes_example = complete_with-completes failed subscribing

wait-complete_with_example :
    let t' = (complete_with failed subscribing).0 in
    (wait t' ≡ some (ends false tt t'))
    × (try_wait t' ≡ ends false true t')
    × (wait_for t' ≡ ends false true t')
wait-complete_with_example = wait-complete_with failed subscribing

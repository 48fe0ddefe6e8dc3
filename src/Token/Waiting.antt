-- ===== src/Token/Waiting.antt =====
-- What a waiting thread sees of a completed token.
use paho_mqtt_cpp.Prelude.{
  ℕ, ◌<◌, ltb, if◌then◌else◌, ◌≡◌, Bool, true, false, ◌&&◌, none, some, is_zero, arith,
}
use paho_mqtt_cpp.Token.Completion.{complete_with-completes}
use paho_mqtt_cpp.Token.{
  ConnectResponse, Token, connect, subscribe, unsubscribe, Callback, success, success5, failure,
  failure5, complete_with, reset, wait, try_wait, wait_for, succeeded, Outcome, returns, throws,
  mqtt_exception, get_connect_response, get_subscribe_response, get_unsubscribe_response,
  SuccessData, subscribe_response,
}

module _ {P : Type 0} where
  -- What the callback says of the result, for a token whose reason code was `old`.
  abbrev pub is_good : Callback P → ℕ → Bool
  is_good (success rsp) old = ltb old 0x80
  is_good (success5 none) old = ltb old 0x80
  is_good (success5 (some rsp)) old = ltb rsp.reason_code 0x80
  is_good (failure none) old = false
  is_good (failure (some rsp)) old = is_zero rsp.code
  is_good (failure5 none) old = false
  is_good (failure5 (some rsp)) old = is_zero rsp.code && ltb rsp.reason_code 0x80

  succeeded_lem :
      (cb : Callback P) (t : Token P) → succeeded (complete_with cb t).0 ≡ is_good cb t.reason_code
  unfolding complete_with succeeded
  succeeded_lem (success none) t = ground arith
  succeeded_lem (success (some rsp)) t = ground arith
  succeeded_lem (success5 none) t = ground arith
  succeeded_lem (success5 (some rsp)) t = ground arith
  succeeded_lem (failure none) t = ground arith
  succeeded_lem (failure (some rsp)) t = ground arith
  succeeded_lem (failure5 none) t = ground arith
  succeeded_lem (failure5 (some rsp)) t = ground arith

  wait_complete :
      (t : Token P)
      → t.complete ≡ true
      → wait t
        ≡ some (
            if succeeded t
            then returns tt
            else throws (mqtt_exception t.rc t.reason_code t.err_msg))
  unfolding wait succeeded
  wait_complete t h = ground arith

  abbrev pub ends : {A : Type 0} → Bool → A → Token P → Outcome A
  ends good a t = if good then returns a else throws (mqtt_exception t.rc t.reason_code t.err_msg)

  completed : (cb : Callback P) (t : Token P) → (complete_with cb t).0.complete ≡ true
  completed cb t = (complete_with-completes cb t).0

  -- After any callback no thread waits on: `wait`, `try_wait` and the timed waits return, or all
  -- throw the token's codes and message, and they return exactly when `is_good` says that the
  -- callback leaves no error.
  pub wait-complete_with :
      (cb : Callback P) (t : Token P)
      → let t' = (complete_with cb t).0 in
        let good = is_good cb t.reason_code in
        (wait t' ≡ some (ends good tt t'))
        × (try_wait t' ≡ ends good true t')
        × (wait_for t' ≡ ends good true t')
  unfolding wait try_wait wait_for succeeded
  wait-complete_with cb t =
      rw (← succeeded_lem cb t, completed cb t) (ground arith, ground arith, ground arith)

  -- Before that, `wait` and the getters of a response wait, and the others return false.
  pub incomplete_waits :
      (t : Token P)
      → t.complete ≡ false
      → (wait t ≡ none)
        × (try_wait t ≡ returns false)
        × (wait_for t ≡ returns false)
        × (t.type ≡ connect → get_connect_response t ≡ none)
        × (t.type ≡ subscribe → get_subscribe_response t ≡ none)
        × (t.type ≡ unsubscribe → get_unsubscribe_response t ≡ none)
  unfolding wait try_wait wait_for get_connect_response get_subscribe_response
      get_unsubscribe_response
  incomplete_waits t h = ground arith

  -- For a subscribe token that holds no error code, what an MQTT v3 server replies is what the
  -- getter of the response returns.
  pub response_of_success :
      (rsp : SuccessData) (t : Token P)
      → t.reason_code < 0x80
      → t.type ≡ subscribe
      → get_subscribe_response (complete_with (success (some rsp)) t).0
        ≡ some (returns (subscribe_response t.num_expected rsp))
  unfolding complete_with get_subscribe_response
  response_of_success rsp t h e = ground arith

  -- A connect token with a response that is reset, and then completes with success and no data,
  -- still answers with that response.
  pub reconnect_keeps_response :
      (t : Token P) (r : ConnectResponse P)
      → t.type ≡ connect
      → t.conn_rsp ≡ some r
      → get_connect_response (complete_with (success none) (reset t)).0 ≡ some (returns r)
  unfolding complete_with get_connect_response reset
  reconnect_keeps_response t r e c = ground arith

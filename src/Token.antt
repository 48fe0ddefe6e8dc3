-- ===== src/Token.antt =====
-- `token` of include/mqtt/token.h and src/token.cpp: one asynchronous operation, from its request
-- to the callback of the C library. A function that takes the lock is one step; what it does
-- outside of the token (listener calls, notifications, the client's list) is a list of effects, in
-- order.
pub mod Completion
pub mod Waiting
mod Tests
pub use Response.*
mod Response
pub mod Codes
use paho_mqtt_cpp.Prelude.{
  ℕ, ltb, leb, if◌then◌else◌, Bool, true, false, not, ◌&&◌, ◌||◌, Option, none, some, List, [], ◌∷◌,
  ◌++◌, Str, ℤ, pos, negsuc, is_zero,
}

-- `enum Type`
pub data TokenType : Type 0 where
  connect subscribe publish unsubscribe disconnect : TokenType

-- Pointers to the client are left out: a token has one client for its life. A listener is named by
-- a number. `P` is the type of MQTT v5 properties.
pub record Token (P : Type 0) : Type 0 where
  pub type : TokenType
  pub rc : ℤ
  pub reason_code : ℕ
  pub err_msg : Str
  pub msg_id : ℤ
  pub topics : List Str
  pub user_context : ℕ
  pub listener : Option ℕ
  pub num_expected : ℕ
  pub complete : Bool
  pub conn_rsp : Option (ConnectResponse P)
  pub sub_rsp : Option (List ℕ)
  pub unsub_rsp : Option (List ℕ)

pub data Effect : Type 0 where
  success_call failure_call : ℕ → Effect
  notify_all remove_token : Effect

pub data Failure : Type 0 where
  mqtt_exception : ℤ → ℕ → Str → Failure
  bad_cast missing_response : Failure

pub data Outcome {ℓ} (A : Type ℓ) : Type ℓ where
  returns : A → Outcome A
  throws : Failure → Outcome A

-- `MQTTASYNC_SUCCESS`, and `ReasonCode::SUCCESS`
abbrev pub async_success : ℤ
async_success = pos 0

abbrev pub reason_success : ℕ
reason_success = 0

called : (ℕ → Effect) → Option ℕ → List Effect
called call none = []
called call (some l) = call l ∷ []

message_or : Option Str → Str → Str
message_or none old = old
message_or (some msg) old = msg

response {ℓ} : {A : Type ℓ} → Option A → Outcome A
response none = throws missing_response
response (some r) = returns r

module _ {P : Type 0} where
  -- The constructor over a type, topics, a user context and a listener.
  unfoldable pub new : TokenType → List Str → ℕ → Option ℕ → Token P
  new typ topics user_context listener = record {
    type = typ;
    rc = async_success;
    reason_code = reason_success;
    err_msg = [];
    msg_id = pos 0;
    topics = topics;
    user_context = user_context;
    listener = listener;
    num_expected = 0;
    complete = false;
    conn_rsp = none;
    sub_rsp = none;
    unsub_rsp = none;
  }

  -- `set_message_id` and `set_num_expected`
  unfoldable pub set_message_id : ℤ → Token P → Token P
  set_message_id id t = record t { msg_id = id }

  unfoldable pub set_num_expected : ℕ → Token P → Token P
  set_num_expected n t = record t { num_expected = n }

  unfoldable pub set_user_context : ℕ → Token P → Token P
  set_user_context user_context t = record t { user_context = user_context }

  -- `if (listener) listener->...; cond_.notify_all(); cli_->remove_token(this);`
  finish : (ℕ → Effect) → Token P → Token P × List Effect
  unfolding called
  finish call t = (t, called call t.listener ++ notify_all ∷ remove_token ∷ [])

  -- The `switch` of `on_success` on the type.
  with_response : TokenType → SuccessData → Token P → Token P
  with_response connect rsp t = record t { conn_rsp = some (connect_response rsp) }
  with_response subscribe rsp t = record t {
    sub_rsp = some (subscribe_response t.num_expected rsp);
  }
  with_response unsubscribe rsp t = record t { unsub_rsp = some [] }
  with_response typ rsp t = t

  with_success_data : Option SuccessData → Token P → Token P
  unfolding with_response
  with_success_data none t = t
  with_success_data (some rsp) t = with_response t.type rsp (record t { msg_id = rsp.token })

  -- `on_success`
  unfoldable pub on_success : Option SuccessData → Token P → Token P × List Effect
  unfolding with_success_data finish
  on_success rsp t =
      finish success_call (record (with_success_data rsp t) { rc = async_success; complete = true })

  -- The `switch` of `on_success5` on the type.
  with_response5 : TokenType → SuccessData5 P → Token P → Token P
  with_response5 connect rsp t = record t { conn_rsp = some (connect_response5 rsp) }
  with_response5 subscribe rsp t = record t { sub_rsp = some (reason_codes5 rsp) }
  with_response5 unsubscribe rsp t = record t { unsub_rsp = some (reason_codes5 rsp) }
  with_response5 typ rsp t = t

  with_success_data5 : Option (SuccessData5 P) → Token P → Token P
  unfolding with_response5
  with_success_data5 none t = t
  with_success_data5 (some rsp) t =
      with_response5 t.type rsp (record t { msg_id = rsp.token; reason_code = rsp.reason_code })

  -- `on_success5`
  pub on_success5 : Option (SuccessData5 P) → Token P → Token P × List Effect
  unfolding with_success_data5 finish
  on_success5 rsp t =
      finish success_call
        (record (with_success_data5 rsp t) { rc = async_success; complete = true })

  with_failure_data : Option FailureData → Token P → Token P
  unfolding message_or
  with_failure_data none t = record t { rc = negsuc 0 }
  with_failure_data (some rsp) t = record t {
    msg_id = rsp.token;
    rc = rsp.code;
    reason_code = reason_success;
    err_msg = message_or rsp.message t.err_msg;
  }

  -- `on_failure`
  pub on_failure : Option FailureData → Token P → Token P × List Effect
  unfolding with_failure_data finish
  on_failure rsp t = finish failure_call (record (with_failure_data rsp t) { complete = true })

  with_failure_data5 : Option FailureData5 → Token P → Token P
  unfolding message_or
  with_failure_data5 none t = record t { rc = negsuc 0 }
  with_failure_data5 (some rsp) t = record t {
    msg_id = rsp.token;
    rc = rsp.code;
    reason_code = rsp.reason_code;
    err_msg = message_or rsp.message t.err_msg;
  }

  -- `on_failure5`
  pub on_failure5 : Option FailureData5 → Token P → Token P × List Effect
  unfolding with_failure_data5 finish
  on_failure5 rsp t = finish failure_call (record (with_failure_data5 rsp t) { complete = true })

  -- `reset`
  unfoldable pub reset : Token P → Token P
  reset t = record t {
    complete = false;
    rc = async_success;
    reason_code = reason_success;
    err_msg = [];
  }

  -- `set_action_callback`
  pub set_action_callback : ℕ → Token P → Token P × List Effect
  set_action_callback l t = (
    record t { listener = some l },
    if t.complete then if is_zero t.rc then success_call l ∷ [] else failure_call l ∷ [] else [],
  )

  -- `operator bool`
  pub succeeded : Token P → Bool
  succeeded t = is_zero t.rc && ltb t.reason_code 0x80

  -- `check_ret`, before what follows it.
  check_ret {ℓ} : {A : Type ℓ} → Token P → Outcome A → Outcome A
  check_ret t next =
      if not (is_zero t.rc) || leb 0x80 t.reason_code
      then throws (mqtt_exception t.rc t.reason_code t.err_msg)
      else next

  -- `wait`, once the wait on the condition is over; `none` means that it still waits.
  unfoldable pub wait : Token P → Option (Outcome (Unit {0}))
  unfolding check_ret
  wait t = if t.complete then some (check_ret t (returns tt)) else none

  -- `try_wait`
  pub try_wait : Token P → Outcome Bool
  unfolding check_ret
  try_wait t = if t.complete then check_ret t (returns true) else returns false

  -- `wait_for` and `wait_until`, when the wait on the condition ends.
  unfoldable pub wait_for : Token P → Outcome Bool
  unfolding check_ret
  wait_for t = if not t.complete then returns false else check_ret t (returns true)

  -- `get_connect_response`, `get_subscribe_response` and `get_unsubscribe_response`
  unfoldable pub get_connect_response : Token P → Option (Outcome (ConnectResponse P))
  unfolding check_ret response
  get_connect_response t = elim (t.type) [
    | connect ↦ if t.complete then some (check_ret t (response t.conn_rsp)) else none
    | _ ↦ some (throws bad_cast)
  ]

  unfoldable pub get_subscribe_response : Token P → Option (Outcome (List ℕ))
  unfolding check_ret response
  get_subscribe_response t = elim (t.type) [
    | subscribe ↦ if t.complete then some (check_ret t (response t.sub_rsp)) else none
    | _ ↦ some (throws bad_cast)
  ]

  unfoldable pub get_unsubscribe_response : Token P → Option (Outcome (List ℕ))
  unfolding check_ret response
  get_unsubscribe_response t = elim (t.type) [
    | unsubscribe ↦ if t.complete then some (check_ret t (response t.unsub_rsp)) else none
    | _ ↦ some (throws bad_cast)
  ]

-- What the C library calls on a token.
pub data Callback (P : Type 0) : Type 0 where
  success : Option SuccessData → Callback P
  success5 : Option (SuccessData5 P) → Callback P
  failure : Option FailureData → Callback P
  failure5 : Option FailureData5 → Callback P

module _ {P : Type 0} where
  -- The static callbacks, with a context that is not null.
  unfoldable pub complete_with : Callback P → Token P → Token P × List Effect
  unfolding on_success on_success5 on_failure on_failure5
  complete_with (success rsp) t = on_success rsp t
  complete_with (success5 rsp) t = on_success5 rsp t
  complete_with (failure rsp) t = on_failure rsp t
  complete_with (failure5 rsp) t = on_failure5 rsp t

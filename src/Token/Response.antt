-- ===== src/Token/Response.antt =====
-- The structs that the C library hands to the callbacks, and the responses that
-- src/server_response.cpp makes of them.
use paho_mqtt_cpp.Prelude.{
  ℕ, zero, suc, leb, is_zero, if◌then◌else◌, Bool, not, Option, none, some, List, [], ◌∷◌, Str, ℤ,
}

-- `MQTTAsync_successData`; the fields of its union are read by the type of the request.
pub record SuccessData : Type 0 where
  pub token : ℤ
  pub qos : ℕ
  pub qos_list : Option (ℕ → ℕ)
  pub server_uri : Str
  pub mqtt_version : ℕ
  pub session_present : ℤ

-- `MQTTAsync_successData5`; `reason_code_count` and `reason_codes` are those of `alt.sub` and
-- `alt.unsub`.
pub record SuccessData5 (P : Type 0) : Type 0 where
  pub token : ℤ
  pub reason_code : ℕ
  pub properties : P
  pub reason_code_count : ℕ
  pub reason_codes : Option (ℕ → ℕ)
  pub server_uri : Str
  pub mqtt_version : ℕ
  pub session_present : ℤ

-- `MQTTAsync_failureData`
pub record FailureData : Type 0 where
  pub token : ℤ
  pub code : ℤ
  pub message : Option Str

-- `MQTTAsync_failureData5`
pub record FailureData5 : Type 0 where
  pub token : ℤ
  pub reason_code : ℕ
  pub code : ℤ
  pub message : Option Str

-- `connect_response`
pub record ConnectResponse (P : Type 0) : Type 0 where
  pub properties : Option P
  pub server_uri : Str
  pub mqtt_version : ℕ
  pub session_present : Bool

pub connect_response : {P : Type 0} → SuccessData → ConnectResponse P
connect_response rsp = record {
  properties = none;
  server_uri = rsp.server_uri;
  mqtt_version = rsp.mqtt_version;
  session_present = not (is_zero rsp.session_present);
}

unfoldable pub connect_response5 : {P : Type 0} → SuccessData5 P → ConnectResponse P
connect_response5 rsp = record {
  properties = some rsp.properties;
  server_uri = rsp.server_uri;
  mqtt_version = rsp.mqtt_version;
  session_present = not (is_zero rsp.session_present);
}

-- The loop over an array: the `k` elements from index `i` on.
unfoldable pub elements : ℕ → ℕ → (ℕ → ℕ) → List ℕ
elements zero i a = []
elements (suc k) i a = a i ∷ elements k (suc i) a

codes : ℕ → ℕ → Option (ℕ → ℕ) → List ℕ
unfolding elements
codes n single none = if leb n 1 then single ∷ [] else []
codes n single (some a) = if leb n 1 then single ∷ [] else elements n 0 a

-- `subscribe_response(n, rsp)`
unfoldable pub subscribe_response : ℕ → SuccessData → List ℕ
unfolding codes
subscribe_response n rsp = codes n rsp.qos rsp.qos_list

-- `subscribe_response(rsp)` and `unsubscribe_response(rsp)` of MQTT v5
unfoldable pub reason_codes5 : {P : Type 0} → SuccessData5 P → List ℕ
unfolding codes
reason_codes5 rsp = codes rsp.reason_code_count rsp.reason_code rsp.reason_codes

-- ===== src/ConnectOptions/Tests.antt =====
-- Connect options with a will, TLS, servers and headers, and the data of a reconnection.
use paho_mqtt_cpp.Prelude.{
  ℕ, ◌≡◌, ◌⊎◌, refl, Bool, true, false, none, some, List, [], ◌∷◌, pos, ltb, arith,
}
use paho_mqtt_cpp.Buffer.{make, read, str}
use paho_mqtt_cpp.Message.{CMessage}
use paho_mqtt_cpp.WillOptions.{CWill, WillOptions}
use paho_mqtt_cpp.WillOptions
use paho_mqtt_cpp.SslOptions
use paho_mqtt_cpp.SslOptions.{CSsl, SslOptions}
use paho_mqtt_cpp.StringCollection.{of_map}
use paho_mqtt_cpp.ConnectOptions.{
  COptions, ConnectOptions, Env, Headers, set_will, set_ssl, set_user_name, set_http_headers,
}
use paho_mqtt_cpp.ConnectOptions.Copies.{
  new, blank_members, copy_construct, move_construct, copy_assign, move_assign,
}
use paho_mqtt_cpp.ConnectOptions.Mirror.{HasParts, parts-IsMirror}
use paho_mqtt_cpp.ConnectOptions.Builder.{Build}
use paho_mqtt_cpp.ConnectOptions.Builder
use paho_mqtt_cpp.ConnectOptions.Data.{
  CData, ConnectData, new_data, name_from, set_password, on_update_connection,
}
use paho_mqtt_cpp.ConnectOptions.Update.{Holds, update-Holds}
use paho_mqtt_cpp.Buffer.Text.{c_string}

abbrev dflt_will : CWill
dflt_will = record {
  topic_name = none;
  retained = pos 0;
  qos = pos 0;
  payload_len = pos 0;
  payload_data = none;
}

abbrev dflt_ssl : CSsl
dflt_ssl = record {
  trust_store = none;
  key_store = none;
  private_key = none;
  private_key_password = none;
  ca_path = none;
  enabled_cipher_suites = none;
  error_cb = false;
  error_context = none;
  psk_cb = false;
  psk_context = none;
  protos = none;
  protos_len = 0;
  enable_server_cert_auth = pos 1;
  ssl_version = pos 0;
  verify = pos 0;
}

abbrev dflt : COptions
dflt = record {
  mqtt_version = 0;
  keep_alive_interval = pos 60;
  cleansession = pos 1;
  cleanstart = pos 0;
  max_inflight = pos 65535;
  connect_timeout = pos 30;
  automatic_reconnect = pos 0;
  min_retry_interval = pos 1;
  max_retry_interval = pos 60;
  will = none;
  will_properties = none;
  ssl = none;
  username = none;
  password = none;
  password_len = pos 0;
  on_success = false;
  on_success5 = false;
  context = none;
  server_uri_count = pos 0;
  server_uris = none;
  connect_properties = none;
  http_headers = none;
  http_proxy = none;
  https_proxy = none;
}

abbrev dflt_message : CMessage ℕ
dflt_message = record {
  payload_len = pos 0;
  payload = none;
  qos = pos 0;
  retained = pos 0;
  dup = pos 0;
  properties = 0;
}

-- Properties are numbers here, and 0 stands for none.
abbrev env : Env ℕ
env = record {
  lib = record { dflt = dflt_message; no_properties = 0; copy = λ n. n };
  dflt_will = dflt_will;
  dflt_ssl = dflt_ssl;
  is_none = λ n. ltb n 1;
  at_topic = 100;
  at_payload = 101;
  at_headers = 102;
}

abbrev headers : Headers
headers = record { storage = 50; names = of_map ((b'a' ∷ [], b'x' ∷ []) ∷ []) }

abbrev will : WillOptions ℕ
will = WillOptions.blank dflt_will 0 60

abbrev ssl : SslOptions
ssl = (blank_members env 70).ssl

-- Options at address 10, with a will, TLS options, a user name and headers.
unfoldable full : ConnectOptions ℕ
unfolding set_will set_ssl set_user_name set_http_headers new
full =
    set_http_headers headers (
      set_user_name (make 80 (b'u' ∷ []))
        (set_ssl ssl (set_will env will (new env dflt dflt 10 4))))

parts-IsMirror_example :
    HasParts (copy_construct env 20 full)
    × HasParts (move_construct env 20 full)
    × HasParts (copy_assign env full full)
    × HasParts (move_assign env full full)
unfolding full
parts-IsMirror_example = parts-IsMirror env 20 10 10 full full refl refl

abbrev cdata_dflt : CData
cdata_dflt = record { username = none; len = pos 0; binarypwd = none }

-- A handler that sets the password and accepts.
abbrev handler : ConnectData → Bool × ConnectData
handler d = (true, set_password (make 7 (1 ∷ 2 ∷ [])) d)

update-Holds_example :
    let cdata : CData = record {
      username = some (5, b'u' ∷ 0 ∷ []);
      len = pos 1;
      binarypwd = some (6, 9 ∷ []);
    } in
    let d =
      new_data cdata_dflt
        (name_from 1 (some (5, b'u' ∷ 0 ∷ [])))
        (make 2 (read (some (6, 9 ∷ [])) 1)) in
    let outcome = on_update_connection cdata_dflt 1 2 3 4 (some (some handler)) cdata in
    (str d.user_name ≡ c_string (some (5, b'u' ∷ 0 ∷ [])))
    × (str d.password ≡ read (some (6, 9 ∷ [])) 1)
    × (((true ≡ true)
          × ((c : CData) × (outcome ≡ some (pos 1, c))
              × Holds (str (handler d).1.user_name) (1 ∷ 2 ∷ []) c))
        ⊎ ((true ≡ false) × (outcome ≡ some (pos 0, cdata))))
unfolding set_password
update-Holds_example =
    update-Holds cdata_dflt (some (5, b'u' ∷ 0 ∷ [])) (some (6, 9 ∷ [])) 1 1 2 3 4 7 (1 ∷ 2 ∷ [])
      handler refl (omega arith)

abbrev chain : List (Build ℕ)
chain =
    Builder.user_name (make 80 (b'u' ∷ []))
    ∷ Builder.will will
    ∷ Builder.ssl ssl
    ∷ Builder.mqtt_version 5
    ∷ Builder.http_proxy (b'p' ∷ [])
    ∷ []

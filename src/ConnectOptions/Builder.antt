-- ===== src/ConnectOptions/Builder.antt =====
-- `connect_options_builder` of include/mqtt/connect_options.h: each call is a call of a setter, and
-- `finalize` copies the options. A duration is the number that it becomes.
use paho_mqtt_cpp.Prelude.{ℕ, Bool, Option, some, List, [], ◌∷◌, Str, ℤ}
use paho_mqtt_cpp.Buffer.{BufferRef}
use paho_mqtt_cpp.Message.{Message}
use paho_mqtt_cpp.WillOptions.{WillOptions}
use paho_mqtt_cpp.SslOptions.{SslOptions}
use paho_mqtt_cpp.StringCollection.{StringCollection}
use paho_mqtt_cpp.ConnectOptions.{
  ConnectOptions, Env, Headers, set_will, set_ssl, set_user_name, set_password, set_clean_session,
  set_clean_start, set_token, set_servers, set_mqtt_version, set_automatic_reconnect,
  set_properties, set_http_headers, set_http_proxy, set_https_proxy,
}
use paho_mqtt_cpp.ConnectOptions.Setters.{
  set_keep_alive_interval, set_connect_timeout, set_max_inflight, set_reconnect, set_will_message,
}
use paho_mqtt_cpp.ConnectOptions.Copies.{copy_construct}

-- The calls of a builder; `reconnects` is `automatic_reconnect(bool)`.
pub data Build (P : Type 0) : Type 0 where
  clean_session clean_start reconnects : Bool → Build P
  keep_alive_interval connect_timeout max_inflight : ℤ → Build P
  user_name password : BufferRef → Build P
  will : WillOptions P → Build P
  will_message : Message P → Build P
  ssl : SslOptions → Build P
  token : Option ℕ → Build P
  servers : Option StringCollection → Build P
  mqtt_version : ℕ → Build P
  automatic_reconnect : ℤ → ℤ → Build P
  properties : P → Build P
  http_headers : Headers → Build P
  http_proxy https_proxy : Str → Build P

module _ {P : Type 0} where
  unfoldable pub build : Env P → Build P → ConnectOptions P → ConnectOptions P
  unfolding set_will set_ssl set_user_name set_password set_clean_session set_clean_start set_token
      set_servers set_mqtt_version set_automatic_reconnect set_properties set_http_headers
      set_http_proxy set_https_proxy set_keep_alive_interval set_connect_timeout set_max_inflight
      set_reconnect set_will_message
  build env (clean_session on) o = set_clean_session on o
  build env (clean_start on) o = set_clean_start on o
  build env (reconnects on) o = set_reconnect on o
  build env (keep_alive_interval n) o = set_keep_alive_interval n o
  build env (connect_timeout n) o = set_connect_timeout n o
  build env (max_inflight n) o = set_max_inflight n o
  build env (user_name name) o = set_user_name name o
  build env (password pwd) o = set_password pwd o
  build env (will w) o = set_will env w o
  build env (will_message msg) o = set_will_message env (some msg) o
  build env (ssl s) o = set_ssl s o
  build env (token tok) o = set_token tok o
  build env (servers uris) o = set_servers uris o
  build env (mqtt_version ver) o = set_mqtt_version ver o
  build env (automatic_reconnect min max) o = set_automatic_reconnect min max o
  build env (properties props) o = set_properties props o
  build env (http_headers headers) o = set_http_headers headers o
  build env (http_proxy proxy) o = set_http_proxy proxy o
  build env (https_proxy proxy) o = set_https_proxy proxy o

  -- A chain of calls, from options on.
  unfoldable pub build_all : Env P → List (Build P) → ConnectOptions P → ConnectOptions P
  unfolding build
  build_all env [] o = o
  build_all env (call ∷ calls) o = build_all env calls (build env call o)

  -- A chain of calls that ends in `finalize`, which returns a copy.
  unfoldable pub finalize : Env P → ℕ → List (Build P) → ConnectOptions P → ConnectOptions P
  unfolding build_all copy_construct
  finalize env self calls o = copy_construct env self (build_all env calls o)

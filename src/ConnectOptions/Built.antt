-- ===== src/ConnectOptions/Built.antt =====
-- The pointers of options that a builder makes.
use paho_mqtt_cpp.Prelude.{ℕ, ◌≡◌, none, List, [], ◌∷◌, pos, arith}
use paho_mqtt_cpp.SslOptions
use paho_mqtt_cpp.ConnectOptions.{COptions, ConnectOptions, Env}
use paho_mqtt_cpp.ConnectOptions.Setters.{of_c}
use paho_mqtt_cpp.ConnectOptions.Mirror.{IsMirror, IsBlank, options_copies-IsMirror}
use paho_mqtt_cpp.ConnectOptions.Builder.{Build, build, build_all, finalize}
use paho_mqtt_cpp.ConnectOptions.Builder

module _ {P : Type 0} where
  build-IsMirror :
      (env : Env P) (call : Build P) (o : ConnectOptions P)
      → IsMirror o
      → IsMirror (build env call o)
  unfolding build SslOptions.assign
  build-IsMirror env (Builder.clean_session on) o v = ground arith
  build-IsMirror env (Builder.clean_start on) o v = ground arith
  build-IsMirror env (Builder.reconnects on) o v = ground arith
  build-IsMirror env (Builder.keep_alive_interval n) o v = ground arith
  build-IsMirror env (Builder.connect_timeout n) o v = ground arith
  build-IsMirror env (Builder.max_inflight n) o v = ground arith
  build-IsMirror env (Builder.user_name name) o v = ground arith
  build-IsMirror env (Builder.password pwd) o v = ground arith
  build-IsMirror env (Builder.will w) o v = ground arith
  build-IsMirror env (Builder.will_message msg) o v = ground arith
  build-IsMirror env (Builder.ssl s) o v = ground arith
  build-IsMirror env (Builder.token tok) o v = ground arith
  build-IsMirror env (Builder.servers uris) o v = ground arith
  build-IsMirror env (Builder.mqtt_version ver) o v = ground arith
  build-IsMirror env (Builder.automatic_reconnect min max) o v = ground arith
  build-IsMirror env (Builder.properties props) o v = ground arith
  build-IsMirror env (Builder.http_headers headers) o v = ground arith
  build-IsMirror env (Builder.http_proxy proxy) o v = ground arith
  build-IsMirror env (Builder.https_proxy proxy) o v = ground arith

  build_all-IsMirror :
      (env : Env P) (calls : List (Build P)) (o : ConnectOptions P)
      → IsMirror o
      → IsMirror (build_all env calls o)
  unfolding build_all
  build_all-IsMirror env [] o v = v
  build_all-IsMirror env (call ∷ calls) o v =
      build_all-IsMirror env calls (build env call o) (build-IsMirror env call o v)

  of_c-IsMirror :
      (env : Env P) (dflt : COptions) (self : ℕ)
      → IsBlank dflt
      → (dflt.username ≡ none) × (dflt.password ≡ none) × (dflt.password_len ≡ pos 0)
      → IsMirror (of_c env dflt self)
  unfolding of_c
  of_c-IsMirror env dflt self blank h = ground (arith, blank)

  pub built-IsMirror :
      (env : Env P) (dflt : COptions) (self self' : ℕ) (calls : List (Build P))
      → IsBlank dflt
      → dflt.username ≡ none
      → dflt.password ≡ none
      → dflt.password_len ≡ pos 0
      → IsMirror (finalize env self' calls (of_c env dflt self))
  unfolding finalize
  built-IsMirror env dflt self self' calls blank u p n =
      let o = of_c env dflt self in
      let v = build_all-IsMirror env calls o (of_c-IsMirror env dflt self blank (u, p, n)) in
      (options_copies-IsMirror env self' (build_all env calls o) (build_all env calls o) v v).0

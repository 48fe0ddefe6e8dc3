-- ===== src/ConnectOptions/Setters.antt =====
-- The setters of `connect_options` for numbers and for a will from a message, and the options that
-- are made from the C library's defaults.
use paho_mqtt_cpp.Prelude.{ℕ, Bool, Option, none, some, ℤ}
use paho_mqtt_cpp.Buffer.{to_int}
use paho_mqtt_cpp.Message.{Message}
use paho_mqtt_cpp.WillOptions
use paho_mqtt_cpp.ConnectOptions.{COptions, ConnectOptions, Env, set_will}
use paho_mqtt_cpp.ConnectOptions.Copies.{blank_members}

module _ {P : Type 0} where
  -- `connect_options(const MQTTAsync_connectOptions&)`, as `v3`, `v5`, `ws` and `v5_ws` call it,
  -- each with a default of the C library.
  unfoldable pub of_c : Env P → COptions → ℕ → ConnectOptions P
  of_c env copts self = record { self = self; opts = copts; members = blank_members env self }

  unfoldable pub set_keep_alive_interval : ℤ → ConnectOptions P → ConnectOptions P
  set_keep_alive_interval n o = record o { opts = record o.opts { keep_alive_interval = n } }

  unfoldable pub set_connect_timeout : ℤ → ConnectOptions P → ConnectOptions P
  set_connect_timeout timeout o = record o { opts = record o.opts { connect_timeout = timeout } }

  unfoldable pub set_max_inflight : ℤ → ConnectOptions P → ConnectOptions P
  set_max_inflight n o = record o { opts = record o.opts { max_inflight = n } }

  -- `set_automatic_reconnect(bool)`
  unfoldable pub set_reconnect : Bool → ConnectOptions P → ConnectOptions P
  set_reconnect on o = record o { opts = record o.opts { automatic_reconnect = to_int on } }

  -- `set_will_message`; the will that is made takes its buffers at the addresses of `env`.
  unfoldable pub set_will_message : Env P → Option (Message P) → ConnectOptions P → ConnectOptions P
  unfolding set_will
  set_will_message env none o = o
  set_will_message env (some msg) o =
      set_will env
        (WillOptions.from_message env.dflt_will env.lib.copy env.at_topic env.at_payload msg) o

-- ===== src/SslOptions/Handlers.antt =====
-- The functions of `ssl_options` that the C library calls, on the handlers of the application, and
-- the setters of numbers.
use paho_mqtt_cpp.Prelude.{ℕ, zero, suc, if◌then◌else◌, Bool, Option, none, some, [], Str, take, ℤ}
use paho_mqtt_cpp.Buffer.{to_int}
use paho_mqtt_cpp.Buffer.Text.{until_nul}
use paho_mqtt_cpp.SslOptions.{SslOptions}

-- `MQTTASYNC_SUCCESS` and `MQTTASYNC_FAILURE`
pub data Code : Type 0 where
  success failure : Code

-- `on_error`: the context is null, or an object with a handler or none. A handler tells whether it
-- returns, and does not throw.
unfoldable pub on_error : Option Str → ℕ → Option (Option (Str → Bool)) → Code
on_error none len context = failure
on_error (some str) zero context = failure
on_error (some str) (suc n) none = failure
on_error (some str) (suc n) (some none) = success
on_error (some str) (suc n) (some (some handler)) =
    if handler (take (suc n) str) then success else failure

-- What a handler of keys gives: the length of the key, or nothing where it throws, and the buffers
-- that it wrote.
abbrev pub PskHandler : Type 0
PskHandler = Str → ℕ → ℕ → Option ℕ × Str × Str

abbrev pub hint_str : Option Str → Str
hint_str none = []
hint_str (some hint) = until_nul hint

abbrev pub length_or_zero : Option ℕ → ℕ
length_or_zero none = 0
length_or_zero (some n) = n

-- `on_psk`: the number that it returns, and the buffers for the identity and the key, if a handler
-- was called.
unfoldable pub on_psk : Option Str → ℕ → ℕ → Option (Option PskHandler) → ℕ × Option (Str × Str)
on_psk hint max_identity_len max_psk_len none = (0, none)
on_psk hint max_identity_len max_psk_len (some none) = (0, none)
on_psk hint max_identity_len max_psk_len (some (some handler)) =
    let (len, identity, psk) = handler (hint_str hint) max_identity_len max_psk_len in
    (length_or_zero len, some (identity, psk))

unfoldable pub set_enable_server_cert_auth : Bool → SslOptions → SslOptions
set_enable_server_cert_auth on s = record s {
  opts = record s.opts { enable_server_cert_auth = to_int on };
}

unfoldable pub set_ssl_version : ℤ → SslOptions → SslOptions
set_ssl_version ssl_version s = record s { opts = record s.opts { ssl_version = ssl_version } }

unfoldable pub set_verify : Bool → SslOptions → SslOptions
set_verify on s = record s { opts = record s.opts { verify = to_int on } }

-- ===== src/SslOptions/Builder.antt =====
-- `ssl_options_builder` of include/mqtt/ssl_options.h: each call is a call of a setter, and
-- `finalize` copies the options. Of a handler only whether it is set is modelled.
use paho_mqtt_cpp.Prelude.{ℕ, Bool, List, [], ◌∷◌, Str, ℤ}
use paho_mqtt_cpp.SslOptions.{
  CSsl, SslOptions, blank, construct, set_trust_store, set_key_store, set_private_key,
  set_private_key_password, set_ca_path, set_enabled_cipher_suites, set_error_handler,
  set_psk_handler, set_alpn_protos, set_enable_server_cert_auth, set_ssl_version, set_verify,
}

-- The calls of a builder.
pub data Build : Type 0 where
  trust_store key_store private_key private_keypassword enabled_cipher_suites ca_path : Str → Build
  enable_server_cert_auth verify error_handler psk_handler : Bool → Build
  ssl_version : ℤ → Build
  alpn_protos : List Str → Build

unfoldable pub build : Build → SslOptions → SslOptions
unfolding set_trust_store set_key_store set_private_key set_private_key_password set_ca_path
    set_enabled_cipher_suites set_error_handler set_psk_handler set_alpn_protos
    set_enable_server_cert_auth set_ssl_version set_verify
build (trust_store store) s = set_trust_store store s
build (key_store store) s = set_key_store store s
build (private_key key) s = set_private_key key s
build (private_keypassword passwd) s = set_private_key_password passwd s
build (enabled_cipher_suites suites) s = set_enabled_cipher_suites suites s
build (enable_server_cert_auth on) s = set_enable_server_cert_auth on s
build (ssl_version ver) s = set_ssl_version ver s
build (verify on) s = set_verify on s
build (ca_path path) s = set_ca_path path s
build (error_handler cb) s = set_error_handler cb s
build (psk_handler cb) s = set_psk_handler cb s
build (alpn_protos protos) s = set_alpn_protos protos s

-- A chain of calls.
unfoldable pub build_all : List Build → SslOptions → SslOptions
unfolding build
build_all [] s = s
build_all (call ∷ calls) s = build_all calls (build call s)

-- The chain from `ssl_options_builder()` to `finalize`, which returns a copy at its own address.
unfoldable pub finalize : CSsl → ℕ → ℕ → List Build → SslOptions
unfolding build_all construct
finalize dflt self self' calls = construct self' (build_all calls (blank dflt self))

-- ===== src/SslOptions/Tests.antt =====
-- Two protocol names as bytes and back, through a builder.
use paho_mqtt_cpp.Prelude.{◌≡◌, refl, true, false, ◌++◌, none, [], ◌∷◌, Str, List, pos, arith}
use paho_mqtt_cpp.SslOptions.{SslOptions, get_alpn_protos, alpn_bytes}
use paho_mqtt_cpp.SslOptions.Mirror.{IsMirror}
use paho_mqtt_cpp.SslOptions.Builder.{finalize, verify, alpn_protos, trust_store}
use paho_mqtt_cpp.SslOptions.Built.{built-alpn_protos}

abbrev ssl : SslOptions
ssl = record {
  self = 1;
  opts = record {
    trust_store = none;
    key_store = none;
    private_key = none;
    private_key_password = none;
    ca_path = none;
    enabled_cipher_suites = none;
    error_cb = false;
    error_context = none;
    psk_cb = false;
    psk_context = none;
    protos = none;
    protos_len = 0;
    enable_server_cert_auth = pos 1;
    ssl_version = pos 0;
    verify = pos 0;
  };
  members = record {
    trust_store = [];
    key_store = [];
    private_key = [];
    private_key_password = [];
    ca_path = [];
    enabled_cipher_suites = [];
    err_handler = false;
    psk_handler = false;
    protos = [];
  };
}

abbrev protos : List Str
protos = (b'm' ∷ b'q' ∷ []) ∷ [] ∷ (b'h' ∷ []) ∷ []

alpn_bytes_protos : alpn_bytes protos ≡ 2 ∷ b'm' ∷ b'q' ∷ 0 ∷ 1 ∷ b'h' ∷ []
unfolding alpn_bytes
alpn_bytes_protos = refl

built-alpn_protos_example :
    let s =
      finalize ssl.opts 1 2
        ((verify true ∷ []) ++ alpn_protos protos ∷ trust_store (b'c' ∷ []) ∷ []) in
    (get_alpn_protos s ≡ protos) × IsMirror s
built-alpn_protos_example =
    built-alpn_protos ssl.opts 1 2 (verify true ∷ []) (trust_store (b'c' ∷ []) ∷ []) protos
      (omega arith, (omega arith, (omega arith, tt))) (refl, tt)

-- ===== src/SslOptions.antt =====
-- `ssl_options` of include/mqtt/ssl_options.h and src/ssl_options.cpp. The strings are members of
-- the object, so the pointers of the C struct lead into the object itself, at the address `self`.
pub mod Alpn
pub mod Builder
pub mod Built
pub mod Handlers
pub mod Mirror
mod Tests
use paho_mqtt_cpp.Prelude.{
  ℕ, zero, suc, ltb, ◌%◌, ◌^◌, if◌then◌else◌, Bool, true, false, Option, none, some, List, [], ◌∷◌,
  ◌++◌, length, take, drop, Str, ℤ, pos,
}
use paho_mqtt_cpp.Buffer.{Pointer, to_int, c_str}

-- `MQTTAsync_SSLOptions`; a callback is set or not.
pub record CSsl : Type 0 where
  pub trust_store : Pointer
  pub key_store : Pointer
  pub private_key : Pointer
  pub private_key_password : Pointer
  pub ca_path : Pointer
  pub enabled_cipher_suites : Pointer
  pub error_cb : Bool
  pub error_context : Option ℕ
  pub psk_cb : Bool
  pub psk_context : Option ℕ
  pub protos : Pointer
  pub protos_len : ℕ
  pub enable_server_cert_auth : ℤ
  pub ssl_version : ℤ
  pub verify : ℤ

-- The members that hold data; of a handler only whether it is set.
pub record Members : Type 0 where
  pub trust_store : Str
  pub key_store : Str
  pub private_key : Str
  pub private_key_password : Str
  pub ca_path : Str
  pub enabled_cipher_suites : Str
  pub err_handler : Bool
  pub psk_handler : Bool
  pub protos : Str

pub record SslOptions : Type 0 where
  pub self : ℕ
  pub opts : CSsl
  pub members : Members

-- `protos_.data()` and `unsigned(protos_.size())`
abbrev pub protos_ptr : ℕ → Str → Pointer
protos_ptr self [] = none
protos_ptr self (x ∷ xs) = some (self, x ∷ xs)

abbrev pub context : ℕ → Bool → Option ℕ
context self true = some self
context self false = none

-- `update_c_struct`
unfoldable pub update_c_struct : SslOptions → SslOptions
update_c_struct s =
    let m = s.members in
    record s {
      opts = record s.opts {
        trust_store = c_str s.self m.trust_store;
        key_store = c_str s.self m.key_store;
        private_key = c_str s.self m.private_key;
        private_key_password = c_str s.self m.private_key_password;
        ca_path = c_str s.self m.ca_path;
        enabled_cipher_suites = c_str s.self m.enabled_cipher_suites;
        error_cb = m.err_handler;
        error_context = context s.self m.err_handler;
        psk_cb = m.psk_handler;
        psk_context = context s.self m.psk_handler;
        protos = protos_ptr s.self m.protos;
        protos_len = length m.protos % 2 ^ 32;
      };
    }

-- `set_alpn_protos`: each name behind a byte for its length.
unfoldable pub alpn_bytes : List Str → Str
alpn_bytes [] = []
alpn_bytes (proto ∷ protos) = length proto % 256 ∷ (proto ++ alpn_bytes protos)

unfoldable pub set_alpn_protos : List Str → SslOptions → SslOptions
unfolding alpn_bytes
set_alpn_protos protos s =
    let bin = alpn_bytes protos in
    record s {
      members = record s.members { protos = bin };
      opts = record s.opts { protos = protos_ptr s.self bin; protos_len = length bin % 2 ^ 32 };
    }

-- The loop of `get_alpn_protos` from an index on, over the bytes that are left there. A round takes
-- a byte at least, so as many rounds as there are bytes are enough.
unfoldable pub alpn_loop : ℕ → Str → List Str
alpn_loop zero bytes = []
alpn_loop (suc fuel) [] = []
alpn_loop (suc fuel) (sn ∷ bytes) =
    let rest = alpn_loop fuel (drop sn bytes) in
    if ltb (length bytes) sn then [] else take sn bytes ∷ rest

unfoldable pub get_alpn_protos : SslOptions → List Str
get_alpn_protos s = alpn_loop (length s.members.protos) s.members.protos

-- The constructors, with the default C struct and a path for the CA certificates, which one of them
-- leaves empty.
unfoldable pub new : CSsl → ℕ → Members → Bool → List Str → SslOptions
unfolding set_alpn_protos update_c_struct
new dflt self members enable_server_cert_auth alpn_protos =
    let made = update_c_struct (
      set_alpn_protos alpn_protos (record {
        self = self;
        opts = dflt;
        members = record members { err_handler = false; psk_handler = false; protos = [] };
      })) in
    record made {
      opts = record made.opts { enable_server_cert_auth = to_int enable_server_cert_auth };
    }

-- The copy and the move constructor, at a new address.
unfoldable pub construct : ℕ → SslOptions → SslOptions
unfolding update_c_struct
construct self other =
    update_c_struct (record { self = self; opts = other.opts; members = other.members })

-- The assignments from another object.
unfoldable pub assign : SslOptions → SslOptions → SslOptions
unfolding update_c_struct
assign rhs s = update_c_struct (record s { opts = rhs.opts; members = rhs.members })

-- The setters of the strings.
unfoldable pub set_trust_store : Str → SslOptions → SslOptions
set_trust_store path s = record s {
  members = record s.members { trust_store = path };
  opts = record s.opts { trust_store = c_str s.self path };
}

unfoldable pub set_key_store : Str → SslOptions → SslOptions
set_key_store path s = record s {
  members = record s.members { key_store = path };
  opts = record s.opts { key_store = c_str s.self path };
}

unfoldable pub set_private_key : Str → SslOptions → SslOptions
set_private_key path s = record s {
  members = record s.members { private_key = path };
  opts = record s.opts { private_key = c_str s.self path };
}

unfoldable pub set_private_key_password : Str → SslOptions → SslOptions
set_private_key_password password s = record s {
  members = record s.members { private_key_password = password };
  opts = record s.opts { private_key_password = c_str s.self password };
}

unfoldable pub set_ca_path : Str → SslOptions → SslOptions
set_ca_path path s = record s {
  members = record s.members { ca_path = path };
  opts = record s.opts { ca_path = c_str s.self path };
}

unfoldable pub set_enabled_cipher_suites : Str → SslOptions → SslOptions
set_enabled_cipher_suites suites s = record s {
  members = record s.members { enabled_cipher_suites = suites };
  opts = record s.opts { enabled_cipher_suites = c_str s.self suites };
}

-- The setters of the handlers.
unfoldable pub set_error_handler : Bool → SslOptions → SslOptions
set_error_handler cb s = record s {
  members = record s.members { err_handler = cb };
  opts = record s.opts { error_cb = cb; error_context = context s.self cb };
}

unfoldable pub set_psk_handler : Bool → SslOptions → SslOptions
set_psk_handler cb s = record s {
  members = record s.members { psk_handler = cb };
  opts = record s.opts { psk_cb = cb; psk_context = context s.self cb };
}

-- The setters of the values in the C struct.
unfoldable pub set_enable_server_cert_auth : Bool → SslOptions → SslOptions
set_enable_server_cert_auth on s = record s {
  opts = record s.opts { enable_server_cert_auth = to_int on };
}

unfoldable pub set_ssl_version : ℤ → SslOptions → SslOptions
set_ssl_version ver s = record s { opts = record s.opts { ssl_version = ver } }

unfoldable pub set_verify : Bool → SslOptions → SslOptions
set_verify v s = record s { opts = record s.opts { verify = to_int v } }

-- `ssl_options()`
abbrev pub blank : CSsl → ℕ → SslOptions
blank dflt self = record {
  self = self;
  opts = dflt;
  members = record {
    trust_store = [];
    key_store = [];
    private_key = [];
    private_key_password = [];
    ca_path = [];
    enabled_cipher_suites = [];
    err_handler = false;
    psk_handler = false;
    protos = [];
  };
}

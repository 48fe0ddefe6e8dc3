-- ===== src/ConnectOptions/Copies.antt =====
-- The constructors and assignments of `connect_options`.
use paho_mqtt_cpp.Prelude.{ℕ, ltb, if◌then◌else◌, false, Option, none, some, is_some, []}
use paho_mqtt_cpp.Buffer.{BufferRef}
use paho_mqtt_cpp.WillOptions.{WillOptions}
use paho_mqtt_cpp.WillOptions
use paho_mqtt_cpp.SslOptions.{SslOptions}
use paho_mqtt_cpp.SslOptions
use paho_mqtt_cpp.StringCollection.{no_names, of_map}
use paho_mqtt_cpp.ConnectOptions.{
  COptions, Members, ConnectOptions, Headers, Env, update_c_struct, set_will, set_ssl,
  set_user_name, set_password,
}

-- `ssl_options()`, at the address of the object that it is a member of.
abbrev pub blank_ssl : {P : Type 0} → Env P → ℕ → SslOptions
blank_ssl env self = record {
  self = self;
  opts = env.dflt_ssl;
  members = record {
    trust_store = [];
    key_store = [];
    private_key = [];
    private_key_password = [];
    ca_path = [];
    enabled_cipher_suites = [];
    err_handler = false;
    psk_handler = false;
    protos = [];
  };
}

-- `if (p) p = <own>;` for a pointer of the C struct
abbrev pub repoint : ℕ → Option ℕ → Option ℕ
repoint self none = none
repoint self (some a) = some self

module _ {P : Type 0} where
  -- The members as they are before the body of a constructor that names none of them.
  abbrev pub blank_members : Env P → ℕ → Members P
  blank_members env self = record {
    will = WillOptions.blank env.dflt_will env.lib.no_properties env.at_topic;
    ssl = blank_ssl env self;
    user_name = none;
    password = none;
    tok = none;
    server_uris = none;
    props = env.lib.no_properties;
    http_headers = record { storage = env.at_headers; names = no_names };
    http_proxy = [];
    https_proxy = [];
  }

  -- The constructors from a version, with the C library's defaults for MQTT v3 and v5, and from a
  -- user name and a password.
  unfoldable pub new : Env P → COptions → COptions → ℕ → ℕ → ConnectOptions P
  new env dflt dflt5 self ver = record {
    self = self;
    opts = if ltb ver 5 then dflt else dflt5;
    members = blank_members env self;
  }

  unfoldable pub new_user :
      Env P → COptions → COptions → ℕ → BufferRef → BufferRef → ℕ → ConnectOptions P
  unfolding new set_user_name set_password
  new_user env dflt dflt5 self user_name password ver =
      set_password password (set_user_name user_name (new env dflt dflt5 self ver))

  -- `if (opts_.will) set_will(opt.will_); if (opts_.ssl) set_ssl(opt.ssl_);`
  unfoldable pub set_parts : Env P → ConnectOptions P → ConnectOptions P → ConnectOptions P
  unfolding set_will set_ssl
  set_parts env opt o =
      let o1 = if is_some opt.opts.will then set_will env opt.members.will o else o in
      if is_some opt.opts.ssl then set_ssl opt.members.ssl o1 else o1

  -- The headers of another object, copied: their array has a new address.
  abbrev pub copy_headers : Env P → Headers → Headers
  copy_headers env h = record { storage = env.at_headers; names = of_map h.names.entries }

  -- The copy constructor.
  unfoldable pub copy_construct : Env P → ℕ → ConnectOptions P → ConnectOptions P
  unfolding set_parts update_c_struct
  copy_construct env self opt = update_c_struct (
      set_parts env opt (record {
        self = self;
        opts = opt.opts;
        members = record (blank_members env self) {
          user_name = opt.members.user_name;
          password = opt.members.password;
          tok = opt.members.tok;
          server_uris = opt.members.server_uris;
          props = env.lib.copy opt.members.props;
          http_headers = copy_headers env opt.members.http_headers;
          http_proxy = opt.members.http_proxy;
          https_proxy = opt.members.https_proxy;
        };
      }))

  -- The move constructor.
  unfoldable pub move_construct : Env P → ℕ → ConnectOptions P → ConnectOptions P
  unfolding update_c_struct
  move_construct env self opt = update_c_struct (record {
    self = self;
    opts = record opt.opts {
      will = repoint self opt.opts.will;
      will_properties = repoint self opt.opts.will_properties;
      ssl = repoint self opt.opts.ssl;
    };
    members = record opt.members {
      will = WillOptions.move_construct env.at_topic env.at_payload opt.members.will;
      ssl = SslOptions.construct self opt.members.ssl;
    };
  })

  -- The copy assignment from another object.
  unfoldable pub copy_assign : Env P → ConnectOptions P → ConnectOptions P → ConnectOptions P
  unfolding set_parts update_c_struct
  copy_assign env opt o =
      let o1 = set_parts env opt (record o { opts = opt.opts }) in
      update_c_struct (record o1 {
        members = record opt.members {
          will = o1.members.will;
          ssl = o1.members.ssl;
          props = env.lib.copy opt.members.props;
          http_headers = copy_headers env opt.members.http_headers;
        };
      })

  -- The move assignment from another object; `set_will` and `set_ssl` copy here too.
  unfoldable pub move_assign : Env P → ConnectOptions P → ConnectOptions P → ConnectOptions P
  unfolding set_parts update_c_struct
  move_assign env opt o =
      let o1 = set_parts env opt (record o { opts = opt.opts }) in
      update_c_struct (record o1 {
        members = record opt.members { will = o1.members.will; ssl = o1.members.ssl };
      })

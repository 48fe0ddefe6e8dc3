-- ===== src/ConnectOptions.antt =====
-- `connect_options` of include/mqtt/connect_options.h and src/connect_options.cpp. The object
-- stands at an address, `self`; a pointer of its C struct to one of its subobjects is the address
-- of the object that it leads into.
pub mod Copies
pub mod Mirror
pub mod Stale
pub mod Setters
pub mod Builder
pub mod Built
pub mod Data
pub mod Update
mod Tests
use paho_mqtt_cpp.Prelude.{
  ℕ, ltb, if◌then◌else◌, Bool, true, false, not, ◌&&◌, Option, none, some, is_some, List, [], ◌∷◌,
  length, Str, ℤ, pos,
}
use paho_mqtt_cpp.Buffer.{
  Pointer, BufferRef, is_empty, data_of, size, to_c_int, to_int, c_str, c_str_ref,
}
use paho_mqtt_cpp.Message.{Library}
use paho_mqtt_cpp.WillOptions.{CWill, WillOptions}
use paho_mqtt_cpp.WillOptions
use paho_mqtt_cpp.SslOptions.{CSsl, SslOptions}
use paho_mqtt_cpp.SslOptions
use paho_mqtt_cpp.StringCollection.{StringCollection, NameValues}

-- The headers, with the address of their array.
pub record Headers : Type 0 where
  pub storage : ℕ
  pub names : NameValues

-- `MQTTAsync_connectOptions`; `on_success` stands for `onSuccess` and `onFailure`, and
-- `on_success5` for those of MQTT v5.
pub record COptions : Type 0 where
  pub mqtt_version : ℕ
  pub keep_alive_interval : ℤ
  pub cleansession : ℤ
  pub cleanstart : ℤ
  pub max_inflight : ℤ
  pub connect_timeout : ℤ
  pub automatic_reconnect : ℤ
  pub min_retry_interval : ℤ
  pub max_retry_interval : ℤ
  pub will : Option ℕ
  pub will_properties : Option ℕ
  pub ssl : Option ℕ
  pub username : Pointer
  pub password : Pointer
  pub password_len : ℤ
  pub on_success : Bool
  pub on_success5 : Bool
  pub context : Option ℕ
  pub server_uri_count : ℤ
  pub server_uris : Option StringCollection
  pub connect_properties : Option ℕ
  pub http_headers : Option (ℕ × List (Option (Str × Str)))
  pub http_proxy : Pointer
  pub https_proxy : Pointer

pub record Members (P : Type 0) : Type 0 where
  pub will : WillOptions P
  pub ssl : SslOptions
  pub user_name : BufferRef
  pub password : BufferRef
  pub tok : Option ℕ
  pub server_uris : Option StringCollection
  pub props : P
  pub http_headers : Headers
  pub http_proxy : Str
  pub https_proxy : Str

pub record ConnectOptions (P : Type 0) : Type 0 where
  pub self : ℕ
  pub opts : COptions
  pub members : Members P

-- What an operation takes from outside: the C library's part, and addresses for new buffers.
pub record Env (P : Type 0) : Type 0 where
  pub lib : Library P
  pub dflt_will : CWill
  pub dflt_ssl : CSsl
  -- `properties::empty`
  pub is_none : P → Bool
  pub at_topic : ℕ
  pub at_payload : ℕ
  pub at_headers : ℕ

-- `!serverURIs_ || serverURIs_->empty()`
abbrev pub no_servers : Option StringCollection → Bool
no_servers none = true
no_servers (some c) = elim (c.coll) [ [] ↦ true | _ ↦ false ]

abbrev pub server_count : Option StringCollection → ℕ
server_count none = 0
server_count (some c) = length c.coll

-- `httpHeaders_.empty() ? nullptr : httpHeaders_.c_arr()`
abbrev pub headers_ptr : Headers → Option (ℕ × List (Option (Str × Str)))
headers_ptr h = elim (h.names.entries) [ [] ↦ none | _ ↦ some (h.storage, h.names.c_arr) ]

module _ {P : Type 0} where
  -- `update_c_struct`
  unfoldable pub update_c_struct : ConnectOptions P → ConnectOptions P
  update_c_struct o =
      let m = o.members in
      let is_v5 = not (ltb o.opts.mqtt_version 5) in
      record o {
        opts = record o.opts {
          username = c_str_ref m.user_name;
          password = c_str_ref m.password;
          password_len = if is_empty m.password then pos 0 else to_c_int (size m.password);
          on_success = is_some m.tok && not is_v5;
          on_success5 = is_some m.tok && is_v5;
          server_uri_count =
              if no_servers m.server_uris then pos 0 else to_c_int (server_count m.server_uris);
          server_uris = if no_servers m.server_uris then none else m.server_uris;
          connect_properties = if is_v5 then some (o.self) else o.opts.connect_properties;
          http_proxy = c_str o.self m.http_proxy;
          https_proxy = c_str o.self m.https_proxy;
        };
      }

  -- `set_will`; both overloads assign a copy.
  unfoldable pub set_will : Env P → WillOptions P → ConnectOptions P → ConnectOptions P
  set_will env will o =
      let own =
        WillOptions.copy_assign env.lib.copy env.at_topic env.at_payload will o.members.will in
      record o {
        members = record o.members { will = own };
        opts = record o.opts {
          will = some (o.self);
          will_properties = if env.is_none own.props then none else some (o.self);
        };
      }

  -- `set_ssl`; both overloads assign a copy.
  unfoldable pub set_ssl : SslOptions → ConnectOptions P → ConnectOptions P
  set_ssl ssl o = record o {
    members = record o.members { ssl = SslOptions.assign ssl o.members.ssl };
    opts = record o.opts { ssl = some (o.self) };
  }

  unfoldable pub set_user_name : BufferRef → ConnectOptions P → ConnectOptions P
  set_user_name user_name o = record o {
    members = record o.members { user_name = user_name };
    opts = record o.opts { username = c_str_ref user_name };
  }

  unfoldable pub set_password : BufferRef → ConnectOptions P → ConnectOptions P
  set_password password o = record o {
    members = record o.members { password = password };
    opts = record o.opts {
      password = c_str_ref password;
      password_len = if is_empty password then pos 0 else to_c_int (size password);
    };
  }

  unfoldable pub set_clean_session : Bool → ConnectOptions P → ConnectOptions P
  set_clean_session clean o =
      if ltb o.opts.mqtt_version 5
      then record o { opts = record o.opts { cleansession = to_int clean } }
      else o

  unfoldable pub set_clean_start : Bool → ConnectOptions P → ConnectOptions P
  set_clean_start clean_start o =
      if ltb o.opts.mqtt_version 5
      then o
      else record o { opts = record o.opts { cleanstart = to_int clean_start } }

  -- `set_token`
  unfoldable pub set_token : Option ℕ → ConnectOptions P → ConnectOptions P
  set_token tok o = record o {
    members = record o.members { tok = tok };
    opts = record o.opts {
      context = tok;
      on_success = is_some tok && ltb o.opts.mqtt_version 5;
      on_success5 = is_some tok && not (ltb o.opts.mqtt_version 5);
    };
  }

  -- `set_servers`: for a collection that is there the pointer is its array's, also if it is empty.
  unfoldable pub set_servers : Option StringCollection → ConnectOptions P → ConnectOptions P
  set_servers server_uris o = record o {
    members = record o.members { server_uris = server_uris };
    opts = record o.opts {
      server_uri_count = to_c_int (server_count server_uris);
      server_uris = server_uris;
    };
  }

  unfoldable pub set_mqtt_version : ℕ → ConnectOptions P → ConnectOptions P
  set_mqtt_version mqtt_version o =
      let v = record o.opts { mqtt_version = mqtt_version } in
      record o {
        opts =
            if ltb mqtt_version 5
            then record v { cleanstart = pos 0 }
            else record v { cleansession = pos 0 };
      }

  unfoldable pub set_automatic_reconnect : ℤ → ℤ → ConnectOptions P → ConnectOptions P
  set_automatic_reconnect min_retry_interval max_retry_interval o = record o {
    opts = record o.opts {
      automatic_reconnect = to_int true;
      min_retry_interval = min_retry_interval;
      max_retry_interval = max_retry_interval;
    };
  }

  -- `set_properties`, with the copy or the properties that are moved in.
  unfoldable pub set_properties : P → ConnectOptions P → ConnectOptions P
  set_properties props o = record o {
    members = record o.members { props = props };
    opts = record o.opts { connect_properties = some (o.self); mqtt_version = 5 };
  }

  -- `set_http_headers`
  unfoldable pub set_http_headers : Headers → ConnectOptions P → ConnectOptions P
  set_http_headers http_headers o = record o {
    members = record o.members { http_headers = http_headers };
    opts = record o.opts { http_headers = headers_ptr http_headers };
  }

  unfoldable pub set_http_proxy : Str → ConnectOptions P → ConnectOptions P
  set_http_proxy http_proxy o = record o {
    members = record o.members { http_proxy = http_proxy };
    opts = record o.opts { http_proxy = c_str o.self http_proxy };
  }

  unfoldable pub set_https_proxy : Str → ConnectOptions P → ConnectOptions P
  set_https_proxy https_proxy o = record o {
    members = record o.members { https_proxy = https_proxy };
    opts = record o.opts { https_proxy = c_str o.self https_proxy };
  }

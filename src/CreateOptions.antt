-- ===== src/CreateOptions.antt =====
-- `create_options` of include/mqtt/create_options.h and src/create_options.cpp.
pub mod Buffering
pub mod Builder
use paho_mqtt_cpp.Prelude.{ℕ, if◌then◌else◌, Bool, true, Option, [], Str, ℤ, is_zero}
use paho_mqtt_cpp.Buffer.{to_int}

-- `persistence_type`: no persistence, a directory, or a pointer to the application's object, which
-- may be null.
pub data PersistenceType : Type 0 where
  no_persistence : PersistenceType
  directory : Str → PersistenceType
  user : Option ℕ → PersistenceType

-- `MQTTAsync_createOptions`
pub record CCreate : Type 0 where
  pub mqtt_version : ℕ
  pub send_while_disconnected : ℤ
  pub max_buffered_messages : ℤ
  pub allow_disconnected_send_at_any_time : ℤ
  pub delete_oldest_messages : ℤ
  pub restore_messages : ℤ
  pub persist_qos0 : ℤ

pub record CreateOptions : Type 0 where
  pub opts : CCreate
  pub server_uri : Str
  pub client_id : Str
  pub persistence : PersistenceType

-- The constructors; `dflt` is the C library's initializer.
abbrev pub blank : CCreate → CreateOptions
blank dflt = record { opts = dflt; server_uri = []; client_id = []; persistence = no_persistence }

unfoldable pub new_version : CCreate → ℕ → CreateOptions
new_version dflt mqtt_version = record (blank dflt) {
  opts = record dflt { mqtt_version = mqtt_version };
}

unfoldable pub new_buffered : CCreate → ℕ → ℤ → CreateOptions
new_buffered dflt mqtt_version max_buffered_messages =
    let versioned = record dflt { mqtt_version = mqtt_version } in
    record (blank dflt) {
      opts = if is_zero max_buffered_messages then versioned else record versioned {
        send_while_disconnected = to_int true;
        max_buffered_messages = max_buffered_messages;
      };
    }

unfoldable pub new : CCreate → Str → Str → PersistenceType → CreateOptions
new dflt server_uri client_id persistence = record {
  opts = dflt;
  server_uri = server_uri;
  client_id = client_id;
  persistence = persistence;
}

unfoldable pub new_client_buffered : CCreate → Str → Str → ℤ → PersistenceType → CreateOptions
new_client_buffered dflt server_uri client_id max_buffered_messages persistence = record {
  opts = record dflt { max_buffered_messages = max_buffered_messages };
  server_uri = server_uri;
  client_id = client_id;
  persistence = persistence;
}

unfoldable pub new_client : Str → Str → CreateOptions → PersistenceType → CreateOptions
new_client server_uri client_id opts persistence = record {
  opts = opts.opts;
  server_uri = server_uri;
  client_id = client_id;
  persistence = persistence;
}

-- The setters.
unfoldable pub set_server_uri : Str → CreateOptions → CreateOptions
set_server_uri server_uri o = record o { server_uri = server_uri }

unfoldable pub set_client_id : Str → CreateOptions → CreateOptions
set_client_id client_id o = record o { client_id = client_id }

unfoldable pub set_persistence : PersistenceType → CreateOptions → CreateOptions
set_persistence persistence o = record o { persistence = persistence }

unfoldable pub set_send_while_disconnected : Bool → Bool → CreateOptions → CreateOptions
set_send_while_disconnected on any_time o = record o {
  opts = record o.opts {
    send_while_disconnected = to_int on;
    allow_disconnected_send_at_any_time = to_int any_time;
  };
}

unfoldable pub set_max_buffered_messages : ℤ → CreateOptions → CreateOptions
set_max_buffered_messages n o = record o { opts = record o.opts { max_buffered_messages = n } }

unfoldable pub set_mqtt_version : ℕ → CreateOptions → CreateOptions
set_mqtt_version ver o = record o { opts = record o.opts { mqtt_version = ver } }

unfoldable pub set_delete_oldest_messages : Bool → CreateOptions → CreateOptions
set_delete_oldest_messages on o = record o {
  opts = record o.opts { delete_oldest_messages = to_int on };
}

unfoldable pub set_restore_messages : Bool → CreateOptions → CreateOptions
set_restore_messages on o = record o { opts = record o.opts { restore_messages = to_int on } }

unfoldable pub set_persist_qos0 : Bool → CreateOptions → CreateOptions
set_persist_qos0 on o = record o { opts = record o.opts { persist_qos0 = to_int on } }

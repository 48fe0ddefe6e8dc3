-- ===== src/Client/Setup.antt =====
-- How `async_client` is made, and how its callbacks and handlers are set. A call of the C library
-- is a value, and its answer an argument.
use paho_mqtt_cpp.Prelude.{
  ℕ, if◌then◌else◌, Bool, true, false, Option, none, some, List, [], ◌∷◌, Str, ℤ, is_zero,
}
use paho_mqtt_cpp.CreateOptions.{
  PersistenceType, no_persistence, directory, user, CCreate, CreateOptions,
}
use paho_mqtt_cpp.Client.{Client, Hook, null, own, discards, Hooks, Result, exception}

-- The persistence that `MQTTAsync_createWithOptions` is given: none, the C library's own files in a
-- directory, or the functions of `iclient_persistence` on an object.
pub data Persists : Type 0 where
  persists_none : Persists
  persists_default : Str → Persists
  persists_user : ℕ → Persists

pub data CCall : Type 0 where
  create_with_options : Str → Str → Persists → CCreate → CCall
  set_connected set_connection_lost set_disconnected set_message_arrived set_update : Hook → CCall
  set_callbacks : Hook → Hook → CCall

abbrev pub persists : PersistenceType → Persists
persists no_persistence = persists_none
persists (user none) = persists_none
persists (directory dir) = persists_default dir
persists (user (some persistence)) = persists_user persistence

-- A function that returns nothing: the exception that it throws, if any, the client and the calls.
abbrev pub Changed : Type 0 → Type 0
Changed P = Option Result × Client P × List CCall

-- `if (rc != MQTTASYNC_SUCCESS) throw exception(rc);`
abbrev pub check_ret : ℤ → Option Result
check_ret rc = if is_zero rc then none else some (exception rc)

-- The functions that the C library has after a call that it answers with a code.
abbrev pub after : ℤ → Hooks → Hooks → Hooks
after rc new old = if is_zero rc then new else old

module _ {P : Type 0} where
  -- `create`: "the C client is always created for MQTT v5".
  unfoldable pub create : CreateOptions → ℤ → Client P → Changed P
  create opts rc c = (
    check_ret rc,
    record c { mqtt_version = opts.opts.mqtt_version },
    create_with_options opts.server_uri opts.client_id (persists opts.persistence)
          (record opts.opts { mqtt_version = 5 })
        ∷ [],
  )

  -- `set_callback`, with the code of the first call and of the next, at which the source does not
  -- look.
  unfoldable pub set_callback : ℤ → ℤ → Client P → Changed P
  set_callback rc next_rc c =
      if is_zero rc
      then (
        none,
        record c {
          user_callback = true;
          hooks =
              after next_rc
                (record c.hooks { message_hook = own; lost_hook = own; connected_hook = own })
                (record c.hooks { connected_hook = own });
        },
        set_connected own ∷ set_callbacks own own ∷ [],
      )
      else (
        some (exception rc),
        record c {
          user_callback = false;
          hooks = after next_rc (record c.hooks { connected_hook = null }) c.hooks;
        },
        set_connected own ∷ set_connected null ∷ [],
      )

  -- `disable_callbacks`
  unfoldable pub disable_callbacks : ℤ → Client P → Changed P
  disable_callbacks rc c = (
    check_ret rc,
    record c {
      hooks = after rc (record c.hooks { message_hook = discards; lost_hook = null }) c.hooks;
    },
    set_callbacks null discards ∷ [],
  )

  unfoldable pub set_connected_handler : Bool → ℤ → Client P → Changed P
  set_connected_handler cb rc c = (
    check_ret rc,
    record c {
      conn_handler = cb;
      hooks = after rc (record c.hooks { connected_hook = own }) c.hooks;
    },
    set_connected own ∷ [],
  )

  unfoldable pub set_connection_lost_handler : Bool → ℤ → Client P → Changed P
  set_connection_lost_handler cb rc c = (
    check_ret rc,
    record c {
      conn_lost_handler = cb;
      hooks = after rc (record c.hooks { lost_hook = own }) c.hooks;
    },
    set_connection_lost own ∷ [],
  )

  unfoldable pub set_disconnected_handler : Bool → ℤ → Client P → Changed P
  set_disconnected_handler cb rc c = (
    check_ret rc,
    record c {
      disconnected_handler = cb;
      hooks = after rc (record c.hooks { disconnected_hook = own }) c.hooks;
    },
    set_disconnected own ∷ [],
  )

  unfoldable pub set_message_callback : Bool → ℤ → Client P → Changed P
  set_message_callback cb rc c = (
    check_ret rc,
    record c { msg_handler = cb; hooks = after rc (record c.hooks { message_hook = own }) c.hooks },
    set_message_arrived own ∷ [],
  )

-- `set_update_connection_handler`: the exception that it throws, if any, the handler that the
-- client has from now on, and the call.
unfoldable pub set_update_connection_handler : Bool → ℤ → Option Result × Bool × List CCall
set_update_connection_handler cb rc = (check_ret rc, cb, set_update own ∷ [])

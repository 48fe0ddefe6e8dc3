-- ===== src/DisconnectOptions.antt =====
-- `disconnect_options` of include/mqtt/disconnect_options.h and src/disconnect_options.cpp.
pub mod Builder
use paho_mqtt_cpp.Prelude.{ℕ, if◌then◌else◌, Option, is_some, ℤ}
use paho_mqtt_cpp.ResponseOptions.{Callbacks, callbacks_of, no_callbacks}

-- `MQTTAsync_disconnectOptions`
pub record CDisconnect (P : Type 0) : Type 0 where
  pub timeout : ℤ
  pub callbacks : Callbacks
  pub context : Option ℕ
  pub properties : P
  pub reason_code : ℕ

pub record DisconnectOptions (P : Type 0) : Type 0 where
  pub opts : CDisconnect P
  pub tok : Option ℕ
  pub props : P

module _ {P : Type 0} where
  -- `update_c_struct`
  unfoldable pub update_c_struct : DisconnectOptions P → DisconnectOptions P
  update_c_struct o = record o { opts = record o.opts { properties = o.props; context = o.tok } }

  -- The copy constructor and the copy assignment, and those that move.
  unfoldable pub copy_construct : (P → P) → DisconnectOptions P → DisconnectOptions P
  unfolding update_c_struct
  copy_construct copy opt = update_c_struct (record opt { props = copy opt.props })

  unfoldable pub move_construct : DisconnectOptions P → DisconnectOptions P
  unfolding update_c_struct
  move_construct opt = update_c_struct opt

  unfoldable pub set_token : Option ℕ → ℕ → DisconnectOptions P → DisconnectOptions P
  set_token tok mqtt_version o = record o {
    tok = tok;
    opts = record o.opts {
      context = tok;
      callbacks = if is_some tok then callbacks_of mqtt_version else no_callbacks;
    };
  }

  unfoldable pub set_properties : P → DisconnectOptions P → DisconnectOptions P
  set_properties props o = record o { props = props; opts = record o.opts { properties = props } }

  unfoldable pub set_timeout : ℤ → DisconnectOptions P → DisconnectOptions P
  set_timeout timeout o = record o { opts = record o.opts { timeout = timeout } }

  unfoldable pub set_reason_code : ℕ → DisconnectOptions P → DisconnectOptions P
  set_reason_code code o = record o { opts = record o.opts { reason_code = code } }

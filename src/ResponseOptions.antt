-- ===== src/ResponseOptions.antt =====
-- `response_options` and `delivery_response_options` of include/mqtt/response_options.h and
-- src/response_options.cpp. `P` is the struct of the properties, which the C struct holds by value,
-- and `O` that of the options of a subscription.
pub mod Mirror
pub mod Delivery
pub mod Builder
pub mod Built
use paho_mqtt_cpp.Prelude.{
  ℕ, ltb, if◌then◌else◌, Bool, true, false, not, Option, none, some, is_some, List, [], ◌∷◌, length,
  ℤ, pos, is_zero, ◌&&◌,
}
use paho_mqtt_cpp.Buffer.{to_c_int}

-- The functions of `token` that the C library calls: `on_success` and `on_failure`, or those of v5.
pub record Callbacks : Type 0 where
  pub v3 : Bool
  pub v5 : Bool

-- `MQTTAsync_responseOptions`, with the vector that `subscribeOptionsList` leads to.
pub record CResponse (P : Type 0) (O : Type 0) : Type 0 where
  pub callbacks : Callbacks
  pub context : Option ℕ
  pub properties : P
  pub subscribe_options : O
  pub subscribe_options_count : ℤ
  pub subscribe_options_list : Option (ℕ × List O)

pub record ResponseOptions (P : Type 0) (O : Type 0) : Type 0 where
  pub opts : CResponse P O
  -- The token, which the options do not keep alive.
  pub tok : Option ℕ
  pub props : P
  -- The address of the vector `subOpts_`, and its elements.
  pub storage : ℕ
  pub sub_opts : List O

-- The callbacks of a version.
abbrev pub callbacks_of : ℕ → Callbacks
callbacks_of mqtt_version =
    if ltb mqtt_version 5
    then record { v3 = true; v5 = false }
    else record { v3 = false; v5 = true }

abbrev pub no_callbacks : Callbacks
no_callbacks = record { v3 = false; v5 = false }

module _ {P O : Type 0} where
  -- `update_c_struct`
  unfoldable pub update_c_struct : ResponseOptions P O → ResponseOptions P O
  update_c_struct o =
      let opts = record o.opts { properties = o.props } in
      if is_zero o.opts.subscribe_options_count
      then record o { opts = opts }
      else record o { opts = record opts { subscribe_options_list = some (o.storage, o.sub_opts) } }

  unfoldable pub set_mqtt_version : ℕ → ResponseOptions P O → ResponseOptions P O
  set_mqtt_version mqtt_version o = record o {
    opts = record o.opts { callbacks = callbacks_of mqtt_version };
  }

  unfoldable pub set_token : Option ℕ → ResponseOptions P O → ResponseOptions P O
  set_token tok o = record o { tok = tok; opts = record o.opts { context = tok } }

  unfoldable pub set_properties : P → ResponseOptions P O → ResponseOptions P O
  set_properties props o = record o { props = props; opts = record o.opts { properties = props } }

  -- `set_subscribe_options`
  unfoldable pub set_subscribe_options : O → ResponseOptions P O → ResponseOptions P O
  set_subscribe_options opts o = record o { opts = record o.opts { subscribe_options = opts } }

  -- `set_subscribe_many_options`; the vector may move.
  unfoldable pub set_subscribe_many_options : ℕ → List O → ResponseOptions P O → ResponseOptions P O
  set_subscribe_many_options fresh opts o = record o {
    storage = fresh;
    sub_opts = opts;
    opts = record o.opts {
      subscribe_options_count = to_c_int (length opts);
      subscribe_options_list = some (fresh, opts);
    };
  }

  -- The constructors from a version, and from a token too; `dflt` is the C library's initializer.
  unfoldable pub new : CResponse P O → P → ℕ → ℕ → ResponseOptions P O
  unfolding set_mqtt_version
  new dflt no_properties fresh mqtt_version =
      set_mqtt_version mqtt_version
        (record { opts = dflt; tok = none; props = no_properties; storage = fresh; sub_opts = [] })

  unfoldable pub new_token : CResponse P O → P → ℕ → Option ℕ → ℕ → ResponseOptions P O
  unfolding new set_token
  new_token dflt no_properties fresh tok mqtt_version =
      set_token tok (new dflt no_properties fresh mqtt_version)

  -- The copy constructor and the copy assignment; `copy` is the C library's copy of properties.
  unfoldable pub copy_construct : (P → P) → ℕ → ResponseOptions P O → ResponseOptions P O
  unfolding update_c_struct
  copy_construct copy fresh other =
      update_c_struct (record other { props = copy other.props; storage = fresh })

  -- The move constructor and the move assignment: the vector keeps its address.
  unfoldable pub move_construct : ResponseOptions P O → ResponseOptions P O
  unfolding update_c_struct
  move_construct other = update_c_struct other

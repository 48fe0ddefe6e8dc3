-- ===== src/ResponseOptions/Mirror.antt =====
-- The C structs of the options of requests and of a disconnect, and the options' own members.
use paho_mqtt_cpp.Prelude.{
  ℕ, ◌≡◌, ◌⊎◌, refl, if◌then◌else◌, true, Option, some, is_some, List, length, ℤ, pos, is_zero,
  arith,
}
use paho_mqtt_cpp.Buffer.{to_c_int}
use paho_mqtt_cpp.ResponseOptions.{
  CResponse, ResponseOptions, callbacks_of, no_callbacks, set_mqtt_version, set_token,
  set_properties, set_subscribe_options, set_subscribe_many_options, new_token, copy_construct,
  move_construct,
}
use paho_mqtt_cpp.DisconnectOptions.{DisconnectOptions}
use paho_mqtt_cpp.DisconnectOptions as Disconnect

module _ {P O : Type 0} where
  -- The context is the token, the properties are the object's own, the count is the number of the
  -- object's subscription options, as a C `int`, and the list is theirs, unless the count is 0; one
  -- pair of callbacks is set.
  pub record IsMirror (o : ResponseOptions P O) : Type 0 where
    pub token_own : o.opts.context ≡ o.tok
    pub properties_own : o.opts.properties ≡ o.props
    pub count_own : o.opts.subscribe_options_count ≡ to_c_int (length o.sub_opts)
    pub list_own :
        (is_zero o.opts.subscribe_options_count ≡ true)
        ⊎ (o.opts.subscribe_options_list ≡ some (o.storage, o.sub_opts))
    pub one_version : (o.opts.callbacks ≡ callbacks_of 3) ⊎ (o.opts.callbacks ≡ callbacks_of 5)

  -- Options made for a token and a version, from a C struct with a null context, no options of
  -- subscriptions and empty properties, mirror their members, with the callbacks of the version;
  -- the setters, copies and moves keep that.
  pub options-IsMirror :
      (dflt : CResponse P O) (copy : P → P) (tok : Option ℕ) (props : P) (opt : O) (opts : List O)
      (fresh mqtt_version : ℕ) (o : ResponseOptions P O)
      → dflt.subscribe_options_count ≡ pos 0
      → IsMirror o
      → IsMirror (new_token dflt dflt.properties fresh tok mqtt_version)
        × ((new_token dflt dflt.properties fresh tok mqtt_version).opts.callbacks
            ≡ callbacks_of mqtt_version)
        × IsMirror (set_mqtt_version mqtt_version o)
        × IsMirror (set_token tok o)
        × IsMirror (set_properties props o)
        × IsMirror (set_subscribe_options opt o)
        × IsMirror (set_subscribe_many_options fresh opts o)
        × IsMirror (copy_construct copy fresh o)
        × IsMirror (move_construct o)
  unfolding new_token set_mqtt_version set_token set_properties set_subscribe_options
      set_subscribe_many_options copy_construct move_construct
  options-IsMirror dflt copy tok props opt opts fresh mqtt_version o z v = (
    ground (arith, z),
    refl,
    ground arith,
    ground arith,
    ground arith,
    ground arith,
    ground arith,
    ground arith,
    ground arith,
  )

module _ {P : Type 0} where
  -- The same of the options of a disconnect; the callbacks are those of a version, or none without
  -- a token.
  pub record IsDisconnectMirror (o : DisconnectOptions P) : Type 0 where
    pub token_own : o.opts.context ≡ o.tok
    pub properties_own : o.opts.properties ≡ o.props
    pub callbacks_own : o.opts.callbacks ≡ (
        if is_some o.tok
        then (if o.opts.callbacks.v5 then callbacks_of 5 else callbacks_of 3)
        else no_callbacks)

  pub disconnect-IsDisconnectMirror :
      (copy : P → P) (tok : Option ℕ) (props : P) (mqtt_version : ℕ) (timeout : ℤ) (code : ℕ)
      (o : DisconnectOptions P)
      → IsDisconnectMirror o
      → IsDisconnectMirror (Disconnect.copy_construct copy o)
        × IsDisconnectMirror (Disconnect.move_construct o)
        × IsDisconnectMirror (Disconnect.set_token tok mqtt_version o)
        × IsDisconnectMirror (Disconnect.set_properties props o)
        × IsDisconnectMirror (Disconnect.set_timeout timeout o)
        × IsDisconnectMirror (Disconnect.set_reason_code code o)
  unfolding Disconnect.copy_construct Disconnect.move_construct Disconnect.set_token
      Disconnect.set_properties Disconnect.set_timeout Disconnect.set_reason_code
  disconnect-IsDisconnectMirror copy tok props mqtt_version timeout code o v =
      (ground arith, ground arith, ground arith, ground arith, ground arith, ground arith)

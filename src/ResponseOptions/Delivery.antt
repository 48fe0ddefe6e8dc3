-- ===== src/ResponseOptions/Delivery.antt =====
-- `delivery_response_options` of include/mqtt/response_options.h and src/response_options.cpp.
use paho_mqtt_cpp.Prelude.{ℕ, ltb, if◌then◌else◌, true, Option, none}
use paho_mqtt_cpp.ResponseOptions.{CResponse}

-- The callbacks are those of `delivery_token`, which are `token`'s.
pub record DeliveryOptions (P : Type 0) (O : Type 0) : Type 0 where
  pub opts : CResponse P O
  -- The token, which the options do not keep alive.
  pub dtok : Option ℕ

module _ {P O : Type 0} where
  -- The constructor sets two of the four callbacks, and leaves the others as the initializer
  -- `dflt` of the C library has them.
  unfoldable pub new : CResponse P O → ℕ → DeliveryOptions P O
  new dflt mqtt_version =
      let set = dflt.callbacks in
      if ltb mqtt_version 5
      then record { opts = record dflt { callbacks = record set { v3 = true } }; dtok = none }
      else record { opts = record dflt { callbacks = record set { v5 = true } }; dtok = none }

  unfoldable pub set_token : Option ℕ → DeliveryOptions P O → DeliveryOptions P O
  set_token dtok o = record o { dtok = dtok; opts = record o.opts { context = dtok } }

  unfoldable pub new_token : CResponse P O → Option ℕ → ℕ → DeliveryOptions P O
  unfolding new set_token
  new_token dflt dtok mqtt_version = set_token dtok (new dflt mqtt_version)

-- ===== src/SubscribeOptions.antt =====
-- `subscribe_options` of include/mqtt/subscribe_options.h, and the getters of subscription options
-- of include/mqtt/response_options.h and src/response_options.cpp.
pub mod Fields
use paho_mqtt_cpp.Prelude.{ℕ, zero, suc, Bool, true, false, Option, none, some, List, map}
use paho_mqtt_cpp.ResponseOptions.{ResponseOptions}

-- The enumeration `RetainHandling`, its numbers, and the cast from a number. No enumerator has a
-- number above 2.
pub data RetainHandling : Type 0 where
  send_retained_on_subscribe send_retained_on_new dont_send_retained : RetainHandling

unfoldable pub to_byte : RetainHandling → ℕ
to_byte send_retained_on_subscribe = 0
to_byte send_retained_on_new = 1
to_byte dont_send_retained = 2

unfoldable pub of_byte : ℕ → Option RetainHandling
of_byte zero = some send_retained_on_subscribe
of_byte (suc zero) = some send_retained_on_new
of_byte (suc (suc zero)) = some dont_send_retained
of_byte (suc (suc (suc n))) = none

-- `MQTTSubscribe_options`; each field is an `unsigned char`.
pub record CSubscribe : Type 0 where
  pub no_local : ℕ
  pub retain_as_published : ℕ
  pub retain_handling : ℕ

-- `to_bool`, and `on ? 1 : 0`.
abbrev pub to_bool : ℕ → Bool
to_bool zero = false
to_bool (suc n) = true

abbrev pub to_flag : Bool → ℕ
to_flag true = 1
to_flag false = 0

pub record SubscribeOptions : Type 0 where
  pub opts : CSubscribe

unfoldable pub get_no_local : SubscribeOptions → Bool
get_no_local o = to_bool o.opts.no_local

unfoldable pub get_retain_as_published : SubscribeOptions → Bool
get_retain_as_published o = to_bool o.opts.retain_as_published

unfoldable pub get_retain_handling : SubscribeOptions → Option RetainHandling
get_retain_handling o = of_byte o.opts.retain_handling

unfoldable pub set_no_local : Bool → SubscribeOptions → SubscribeOptions
set_no_local on o = record o { opts = record o.opts { no_local = to_flag on } }

unfoldable pub set_retain_as_published : Bool → SubscribeOptions → SubscribeOptions
set_retain_as_published on o = record o {
  opts = record o.opts { retain_as_published = to_flag on };
}

unfoldable pub set_retain_handling : RetainHandling → SubscribeOptions → SubscribeOptions
set_retain_handling retain_handling o = record o {
  opts = record o.opts { retain_handling = to_byte retain_handling };
}

-- The constructor from the fields; `dflt` is the C library's initializer. The default constructor
-- and the one from a C struct only take the struct.
unfoldable pub new : CSubscribe → Bool → Bool → RetainHandling → SubscribeOptions
new dflt no_local retain_as_published retain_handling = record {
  opts = record dflt {
    no_local = to_flag no_local;
    retain_as_published = to_flag retain_as_published;
    retain_handling = to_byte retain_handling;
  };
}

abbrev pub c_struct : SubscribeOptions → CSubscribe
c_struct o = o.opts

abbrev pub of_c : CSubscribe → SubscribeOptions
of_c opts = record { opts = opts }

module _ {P : Type 0} where
  -- `response_options::get_subscribe_options` and `get_subscribe_many_options`
  unfoldable pub get_subscribe_options : ResponseOptions P CSubscribe → SubscribeOptions
  get_subscribe_options o = of_c o.opts.subscribe_options

  unfoldable pub get_subscribe_many_options : ResponseOptions P CSubscribe → List SubscribeOptions
  get_subscribe_many_options o = map of_c o.sub_opts

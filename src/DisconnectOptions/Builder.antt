-- ===== src/DisconnectOptions/Builder.antt =====
-- `disconnect_options_builder` of include/mqtt/disconnect_options.h: each call is a call of a
-- setter, and `finalize` copies the options. A duration is the number that it becomes.
use paho_mqtt_cpp.Prelude.{ℕ, none, List, [], ◌∷◌, ℤ}
use paho_mqtt_cpp.DisconnectOptions.{
  CDisconnect, DisconnectOptions, set_properties, set_timeout, set_reason_code, copy_construct,
}

pub data Build (P : Type 0) : Type 0 where
  properties : P → Build P
  timeout : ℤ → Build P
  reason_code : ℕ → Build P

module _ {P : Type 0} where
  unfoldable pub build : Build P → DisconnectOptions P → DisconnectOptions P
  build (properties props) o = set_properties props o
  build (timeout to) o = set_timeout to o
  build (reason_code code) o = set_reason_code code o

  unfoldable pub build_all : List (Build P) → DisconnectOptions P → DisconnectOptions P
  build_all [] o = o
  build_all (call ∷ calls) o = build_all calls (build call o)

  -- A builder on a default C struct of the C library, that of v3 or that of v5, a chain of calls,
  -- and `finalize`, which returns a copy.
  unfoldable pub finalize : CDisconnect P → P → (P → P) → List (Build P) → DisconnectOptions P
  finalize dflt no_properties copy calls =
      copy_construct copy
        (build_all calls (record { opts = dflt; tok = none; props = no_properties }))

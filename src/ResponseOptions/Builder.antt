-- ===== src/ResponseOptions/Builder.antt =====
-- `response_options_builder` of include/mqtt/response_options.h: each call is a call of a setter,
-- and `finalize` copies the options.
use paho_mqtt_cpp.Prelude.{ℕ, Option, List, [], ◌∷◌}
use paho_mqtt_cpp.ResponseOptions.{
  CResponse, ResponseOptions, set_mqtt_version, set_token, set_properties, set_subscribe_options,
  set_subscribe_many_options, new, copy_construct,
}

-- The calls of a builder; that with a vector takes the address that the options' own may move to.
pub data Build (P : Type 0) (O : Type 0) : Type 0 where
  mqtt_version : ℕ → Build P O
  token : Option ℕ → Build P O
  properties : P → Build P O
  subscribe_opts : O → Build P O
  subscribe_many_opts : ℕ → List O → Build P O

module _ {P O : Type 0} where
  unfoldable pub build : Build P O → ResponseOptions P O → ResponseOptions P O
  build (mqtt_version ver) o = set_mqtt_version ver o
  build (token tok) o = set_token tok o
  build (properties props) o = set_properties props o
  build (subscribe_opts opts) o = set_subscribe_options opts o
  build (subscribe_many_opts fresh opts) o = set_subscribe_many_options fresh opts o

  unfoldable pub build_all : List (Build P O) → ResponseOptions P O → ResponseOptions P O
  build_all [] o = o
  build_all (call ∷ calls) o = build_all calls (build call o)

  -- A builder for a version, a chain of calls, and `finalize`, which returns a copy.
  unfoldable pub finalize :
      CResponse P O → P → (P → P) → ℕ → ℕ → ℕ → List (Build P O) → ResponseOptions P O
  finalize dflt no_properties copy fresh fresh' ver calls =
      copy_construct copy fresh' (build_all calls (new dflt no_properties fresh ver))

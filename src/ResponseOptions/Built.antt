-- ===== src/ResponseOptions/Built.antt =====
-- The C structs of options of requests and of a disconnect that builders make, and those of
-- `delivery_response_options`.
use paho_mqtt_cpp.Prelude.{ℕ, ◌≡◌, Option, none, List, [], ◌∷◌, pos, arith}
use paho_mqtt_cpp.ResponseOptions.{
  CResponse, ResponseOptions, no_callbacks, new, set_mqtt_version, set_token, set_properties,
  set_subscribe_options, set_subscribe_many_options, copy_construct, new_token,
}
use paho_mqtt_cpp.ResponseOptions.Mirror.{IsMirror}
use paho_mqtt_cpp.ResponseOptions.Builder.{Build, build, build_all, finalize}
use paho_mqtt_cpp.ResponseOptions.Builder
use paho_mqtt_cpp.ResponseOptions.Delivery

module _ {P O : Type 0} where
  build-IsMirror :
      (call : Build P O) (o : ResponseOptions P O) → IsMirror o → IsMirror (build call o)
  unfolding build set_mqtt_version set_token set_properties set_subscribe_options
      set_subscribe_many_options
  build-IsMirror (Builder.mqtt_version ver) o v = ground arith
  build-IsMirror (Builder.token tok) o v = ground arith
  build-IsMirror (Builder.properties props) o v = ground arith
  build-IsMirror (Builder.subscribe_opts opts) o v = ground arith
  build-IsMirror (Builder.subscribe_many_opts fresh opts) o v = ground arith

  build_all-IsMirror :
      (calls : List (Build P O)) (o : ResponseOptions P O)
      → IsMirror o
      → IsMirror (build_all calls o)
  unfolding build_all
  build_all-IsMirror [] o v = v
  build_all-IsMirror (call ∷ calls) o v =
      build_all-IsMirror calls (build call o) (build-IsMirror call o v)

  new-IsMirror :
      (dflt : CResponse P O) (fresh ver : ℕ)
      → dflt.subscribe_options_count ≡ pos 0
      → dflt.context ≡ none
      → IsMirror (new dflt dflt.properties fresh ver)
  unfolding new set_mqtt_version
  new-IsMirror dflt fresh ver z n = ground (arith, z, n)

  copy-IsMirror :
      (copy : P → P) (fresh : ℕ) (o : ResponseOptions P O)
      → IsMirror o
      → IsMirror (copy_construct copy fresh o)
  unfolding copy_construct
  copy-IsMirror copy fresh o v = ground arith

  -- Options that a builder makes with any sequence of its calls, from a C struct with a null
  -- context, no options of subscriptions and empty properties, mirror their own members.
  pub built-IsMirror :
      (dflt : CResponse P O) (copy : P → P) (fresh fresh' ver : ℕ) (calls : List (Build P O))
      → dflt.subscribe_options_count ≡ pos 0
      → dflt.context ≡ none
      → IsMirror (finalize dflt dflt.properties copy fresh fresh' ver calls)
  unfolding finalize
  built-IsMirror dflt copy fresh fresh' ver calls z n =
      copy-IsMirror copy fresh' (build_all calls (new dflt dflt.properties fresh ver)) (
        build_all-IsMirror calls (new dflt dflt.properties fresh ver)
          (new-IsMirror dflt fresh ver z n))

  -- The C library is given the same for a delivery as for another request, when its initializer has
  -- no callbacks and empty properties.
  pub delivery-response :
      (dflt : CResponse P O) (fresh ver : ℕ) (tok : Option ℕ)
      → dflt.callbacks ≡ no_callbacks
      → (Delivery.new_token dflt tok ver).opts ≡ (new_token dflt dflt.properties fresh tok ver).opts
  unfolding Delivery.new_token Delivery.new Delivery.set_token new_token new set_mqtt_version
      set_token
  delivery-response dflt fresh ver tok h = ground (arith, h)

-- ===== src/SubscribeOptions/Fields.antt =====
-- What the getters of `subscribe_options` return after its constructor and setters.
use paho_mqtt_cpp.Prelude.{
  ℕ, Bool, true, false, ◌≡◌, refl, ap, ◌∙◌, arith, some, List, [], ◌∷◌, map,
}
use paho_mqtt_cpp.ResponseOptions.{
  ResponseOptions, set_subscribe_options, set_subscribe_many_options, update_c_struct,
  copy_construct,
}
use paho_mqtt_cpp.SubscribeOptions.{
  RetainHandling, send_retained_on_subscribe, send_retained_on_new, dont_send_retained, to_byte,
  of_byte, to_bool, to_flag, CSubscribe, SubscribeOptions, get_no_local, get_retain_as_published,
  get_retain_handling, set_no_local, set_retain_as_published, set_retain_handling, new, c_struct,
  of_c, get_subscribe_options, get_subscribe_many_options,
}

pub to_bool-to_flag : (b : Bool) → to_bool (to_flag b) ≡ b
to_bool-to_flag true = refl
to_bool-to_flag false = refl

pub of_byte-to_byte : (r : RetainHandling) → of_byte (to_byte r) ≡ some r
unfolding of_byte to_byte
of_byte-to_byte send_retained_on_subscribe = refl
of_byte-to_byte send_retained_on_new = refl
of_byte-to_byte dont_send_retained = refl

-- The getters return what the constructor was given, whatever the initializer of the C library is.
pub get-new :
    (dflt : CSubscribe) (no_local retained : Bool) (handling : RetainHandling)
    → (get_no_local (new dflt no_local retained handling) ≡ no_local)
      × (get_retain_as_published (new dflt no_local retained handling) ≡ retained)
      × (get_retain_handling (new dflt no_local retained handling) ≡ some handling)
unfolding get_no_local get_retain_as_published get_retain_handling new
get-new dflt no_local retained handling =
    (to_bool-to_flag no_local, to_bool-to_flag retained, of_byte-to_byte handling)

-- Three setters, in any of two orders, give the options that the constructor makes.
pub set-new :
    (o : SubscribeOptions) (no_local retained : Bool) (handling : RetainHandling)
    → (set_retain_handling handling (set_retain_as_published retained (set_no_local no_local o))
        ≡ new (c_struct o) no_local retained handling)
      × (set_no_local no_local (set_retain_as_published retained (set_retain_handling handling o))
          ≡ new (c_struct o) no_local retained handling)
unfolding set_retain_handling set_retain_as_published set_no_local new
set-new o no_local retained handling = (refl, refl)

map-of_c-c_struct : (opts : List SubscribeOptions) → map of_c (map c_struct opts) ≡ opts
map-of_c-c_struct [] = refl
map-of_c-c_struct (o ∷ opts) = ap (λ rest. o ∷ rest) (map-of_c-c_struct opts)

module _ {P : Type 0} where
  copied-sub_opts :
      (copy : P → P) (other : ℕ) (o : ResponseOptions P CSubscribe)
      → get_subscribe_many_options (copy_construct copy other o) ≡ get_subscribe_many_options o
  unfolding get_subscribe_many_options copy_construct update_c_struct
  copied-sub_opts copy other o = ground arith

  -- The options of one subscription, and those of several, which response options hold as C
  -- structs, are read back as they were set, also from a copy.
  pub get-set_subscribe_many_options :
      (copy : P → P) (fresh other : ℕ) (opts : List SubscribeOptions) (opt : SubscribeOptions)
      (o : ResponseOptions P CSubscribe)
      → (get_subscribe_many_options (
            copy_construct copy other (
              set_subscribe_options
                (c_struct opt)
                (set_subscribe_many_options fresh (map c_struct opts) o)))
          ≡ opts)
        × (get_subscribe_options (
              set_subscribe_many_options fresh
                (map c_struct opts)
                (set_subscribe_options (c_struct opt) o))
            ≡ opt)
  unfolding get_subscribe_many_options get_subscribe_options copy_construct update_c_struct
      set_subscribe_options set_subscribe_many_options
  get-set_subscribe_many_options copy fresh other opts opt o = (
    copied-sub_opts copy other (
          set_subscribe_options (c_struct opt)
            (set_subscribe_many_options fresh (map c_struct opts) o))
        ∙ map-of_c-c_struct opts,
    refl,
  )

-- ===== src/SslOptions/Built.antt =====
-- The TLS options that a builder makes.
use paho_mqtt_cpp.Prelude.{
  ℕ, ◌≡◌, refl, ap, ◌∙◌, Bool, true, false, List, [], ◌∷◌, ◌++◌, length, All, Str, arith,
}
use paho_mqtt_cpp.SslOptions.{
  CSsl, SslOptions, blank, construct, alpn_loop, set_alpn_protos, get_alpn_protos, set_trust_store,
  set_key_store, set_private_key, set_private_key_password, set_ca_path, set_enabled_cipher_suites,
  set_error_handler, set_psk_handler, set_enable_server_cert_auth, set_ssl_version, set_verify,
}
use paho_mqtt_cpp.SslOptions.Alpn.{IsShort, get-set_alpn_protos}
use paho_mqtt_cpp.SslOptions.Mirror.{IsMirror, made-IsMirror}
use paho_mqtt_cpp.SslOptions.Builder.{Build, build, build_all, finalize}
use paho_mqtt_cpp.SslOptions.Builder

abbrev sets_protos : Build → Bool
sets_protos (Builder.alpn_protos protos) = true
sets_protos call = false

-- A call that does not set the names of protocols.
abbrev pub IsOther : Build → Type 0
IsOther call = sets_protos call ≡ false

build_all-append :
    (xs ys : List Build) (s : SslOptions) → build_all (xs ++ ys) s ≡ build_all ys (build_all xs s)
unfolding build_all
build_all-append [] ys s = refl
build_all-append (x ∷ xs) ys s = build_all-append xs ys (build x s)

build-protos :
    (call : Build) (s : SslOptions)
    → IsOther call
    → (build call s).members.protos ≡ s.members.protos
unfolding build set_trust_store set_key_store set_private_key set_private_key_password set_ca_path
    set_enabled_cipher_suites set_error_handler set_psk_handler set_alpn_protos
    set_enable_server_cert_auth set_ssl_version set_verify
build-protos call s h = ground arith

build_all-protos :
    (calls : List Build) (s : SslOptions)
    → All IsOther calls
    → (build_all calls s).members.protos ≡ s.members.protos
unfolding build_all
build_all-protos [] s h = refl
build_all-protos (call ∷ calls) s h =
    build_all-protos calls (build call s) h.1 ∙ build-protos call s h.0

get_alpn_protos-protos :
    (s t : SslOptions) → s.members.protos ≡ t.members.protos → get_alpn_protos s ≡ get_alpn_protos t
unfolding get_alpn_protos
get_alpn_protos-protos s t h = ap (λ bytes. alpn_loop (length bytes) bytes) h

copied :
    (self : ℕ) (calls : List Build) (s : SslOptions)
    → All IsOther calls
    → (construct self (build_all calls s)).members.protos ≡ s.members.protos
copied self calls s h =
    let same = (made-IsMirror s.opts self s.members true [] (build_all calls s) s).3 in
    ap (λ m. m.protos) same ∙ build_all-protos calls s h

-- The options that a builder makes give back the names of protocols that the last call of
-- `alpn_protos` was given, when these are shorter than 256 bytes, whatever was called before and
-- whatever else after. Each pointer of their C struct to text or bytes leads to the options' own
-- member, or is null for an empty one, and the functions for errors and keys are set where there is
-- a handler, with the options as their context.
pub built-alpn_protos :
    (dflt : CSsl) (self self' : ℕ) (before after : List Build) (protos : List Str)
    → All IsShort protos
    → All IsOther after
    → let s = finalize dflt self self' (before ++ Builder.alpn_protos protos ∷ after) in
      (get_alpn_protos s ≡ protos) × IsMirror s
unfolding finalize build_all build
built-alpn_protos dflt self self' before after protos short other =
    let m = build_all before (blank dflt self) in
    let set = set_alpn_protos protos m in
    let split = build_all-append before (Builder.alpn_protos protos ∷ after) (blank dflt self) in
    (
      rw split (
          get_alpn_protos-protos (construct self' (build_all after set)) set
            (copied self' after set other)
          ∙ get-set_alpn_protos protos m short),
      (made-IsMirror dflt self' m.members true []
          (build_all (before ++ Builder.alpn_protos protos ∷ after) (blank dflt self)) m).1,
    )

-- ===== src/ConnectOptions/Mirror.antt =====
-- The pointers of the C struct of `connect_options` and the object's own members.
use paho_mqtt_cpp.Prelude.{
  ℕ, ltb, if◌then◌else◌, ◌≡◌, ◌⊎◌, inl, inr, Bool-cases, Option, none, some, Str, pos, arith,
}
use paho_mqtt_cpp.Buffer.{BufferRef, is_empty, size, to_c_int, c_str, c_str_ref}
use paho_mqtt_cpp.WillOptions.{WillOptions}
use paho_mqtt_cpp.WillOptions
use paho_mqtt_cpp.WillOptions.Mirror as Will
use paho_mqtt_cpp.SslOptions.{SslOptions}
use paho_mqtt_cpp.SslOptions
use paho_mqtt_cpp.SslOptions.Mirror as Ssl
use paho_mqtt_cpp.StringCollection.{StringCollection}
use paho_mqtt_cpp.ConnectOptions.{
  COptions, ConnectOptions, Headers, Env, set_will, set_ssl, set_user_name, set_password, set_token,
  set_servers, set_mqtt_version, set_properties, set_http_headers, set_http_proxy, set_https_proxy,
}
use paho_mqtt_cpp.ConnectOptions.Copies.{
  new_user, set_parts, copy_construct, move_construct, copy_assign, move_assign,
}

-- The pointers to the own members are null.
pub record IsBlank (c : COptions) : Type 0 where
  pub no_will : c.will ≡ none
  pub no_will_properties : c.will_properties ≡ none
  pub no_ssl : c.ssl ≡ none
  pub no_servers : c.server_uris ≡ none
  pub no_http_proxy : c.http_proxy ≡ none
  pub no_https_proxy : c.https_proxy ≡ none

module _ {P : Type 0} where
  -- Each pointer to a will, its properties or TLS options is null or leads into the object itself,
  -- and each pointer to text or an array to what the object's own member holds now.
  pub record IsMirror (o : ConnectOptions P) : Type 0 where
    pub will_own :
        ((o.opts.will ≡ none) × (o.opts.will_properties ≡ none))
        ⊎ ((o.opts.will ≡ some (o.self))
            × ((o.opts.will_properties ≡ none) ⊎ (o.opts.will_properties ≡ some (o.self))))
    pub ssl_own : (o.opts.ssl ≡ none) ⊎ (o.opts.ssl ≡ some (o.self))
    pub ssl_here : o.members.ssl.self ≡ o.self
    pub username_own : o.opts.username ≡ c_str_ref o.members.user_name
    pub password_own : o.opts.password ≡ c_str_ref o.members.password
    pub password_length :
        o.opts.password_len
        ≡ (if is_empty o.members.password then pos 0 else to_c_int (size o.members.password))
    pub servers_own : (o.opts.server_uris ≡ none) ⊎ (o.opts.server_uris ≡ o.members.server_uris)
    pub http_proxy_own : o.opts.http_proxy ≡ c_str o.self o.members.http_proxy
    pub https_proxy_own : o.opts.https_proxy ≡ c_str o.self o.members.https_proxy

  pub options_copies-IsMirror :
      (env : Env P) (self : ℕ) (opt o : ConnectOptions P)
      → IsMirror opt
      → IsMirror o
      → IsMirror (copy_construct env self opt)
        × IsMirror (move_construct env self opt)
        × IsMirror (copy_assign env opt o)
        × IsMirror (move_assign env opt o)
  unfolding copy_construct move_construct copy_assign move_assign SslOptions.construct
      SslOptions.assign
  options_copies-IsMirror env self opt o v w =
      (ground arith, ground arith, ground arith, ground arith)

  -- The setters keep that, and so do all changes of the version, the properties and the headers.
  pub options_setters-IsMirror :
      (env : Env P) (will : WillOptions P) (ssl : SslOptions) (buf : BufferRef) (text : Str)
      (tok : Option ℕ) (servers : Option StringCollection) (ver : ℕ) (props : P) (headers : Headers)
      (o : ConnectOptions P)
      → IsMirror o
      → (IsMirror (set_will env will o) × IsMirror (set_ssl ssl o))
        × (IsMirror (set_user_name buf o) × IsMirror (set_password buf o))
        × (IsMirror (set_token tok o) × IsMirror (set_servers servers o))
        × (IsMirror (set_mqtt_version ver o) × IsMirror (set_properties props o))
        × (IsMirror (set_http_headers headers o) × IsMirror (set_http_proxy text o))
        × IsMirror (set_https_proxy text o)
  unfolding set_will set_ssl set_user_name set_password set_token set_servers set_mqtt_version
      set_properties set_http_headers set_http_proxy set_https_proxy SslOptions.assign
  options_setters-IsMirror env will ssl buf text tok servers ver props headers o v = (
    (ground arith, ground arith),
    (ground arith, ground arith),
    (ground arith, ground arith),
    (ground arith, ground arith),
    (ground arith, ground arith),
    ground arith,
  )

  -- Options made for a version, a user name and a password, from defaults whose pointers are null.
  pub new_user-IsMirror :
      (env : Env P) (dflt dflt5 : COptions) (self ver : ℕ) (user_name password : BufferRef)
      → IsBlank dflt
      → IsBlank dflt5
      → IsMirror (new_user env dflt dflt5 self user_name password ver)
  unfolding new_user
  new_user-IsMirror env dflt dflt5 self ver user_name password blank blank5 =
      elim (Bool-cases (ltb ver 5)) [
        | inl old ↦ rw old (ground (arith, blank))
        | inr now ↦ rw now (ground (arith, blank5))
      ]

  set_parts-IsMirror :
      (env : Env P) (a b : ℕ) (opt o : ConnectOptions P)
      → opt.opts.will ≡ some a
      → opt.opts.ssl ≡ some b
      → Will.IsMirror (set_parts env opt o).members.will
        × Ssl.IsMirror (set_parts env opt o).members.ssl
  unfolding set_parts WillOptions.copy_assign SslOptions.assign
  set_parts-IsMirror env a b opt o h k =
      (ground arith, rw (h, k) (Ssl.assign-IsMirror opt.members.ssl o.members.ssl))

  -- The will and the TLS options are sound themselves: their pointers lead to their own members.
  abbrev pub HasParts : ConnectOptions P → Type 0
  HasParts o = Will.IsMirror o.members.will × Ssl.IsMirror o.members.ssl

  -- A copy, a move and the assignments of options with a will and TLS options, whatever their
  -- state, give options whose will and TLS options are sound: each pointer of these leads to their
  -- own member as it is now, or is null for an empty one, and the functions for errors and keys are
  -- set where there is a handler, with these TLS options as their context.
  pub parts-IsMirror :
      (env : Env P) (self a b : ℕ) (opt o : ConnectOptions P)
      → opt.opts.will ≡ some a
      → opt.opts.ssl ≡ some b
      → HasParts (copy_construct env self opt)
        × HasParts (move_construct env self opt)
        × HasParts (copy_assign env opt o)
        × HasParts (move_assign env opt o)
  unfolding copy_construct move_construct copy_assign move_assign WillOptions.move_construct
      SslOptions.construct
  parts-IsMirror env self a b opt o h k = (
    set_parts-IsMirror env a b opt _ h k,
    (ground arith, Ssl.construct-IsMirror self opt.members.ssl),
    set_parts-IsMirror env a b opt _ h k,
    set_parts-IsMirror env a b opt _ h k,
  )

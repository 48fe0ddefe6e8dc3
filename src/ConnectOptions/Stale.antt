-- ===== src/ConnectOptions/Stale.antt =====
-- The pointers of `connect_options` that a copy does not renew.
use paho_mqtt_cpp.Prelude.{ℕ, ◌≡◌, ◌≢◌, ap, sym, ◌∙◌, true, false, some, [], arith, ◌<◌}
use paho_mqtt_cpp.ConnectOptions.{
  ConnectOptions, Headers, Env, set_token, set_mqtt_version, set_properties, headers_ptr,
}
use paho_mqtt_cpp.ConnectOptions.Copies.{
  set_parts, copy_headers, copy_construct, move_construct, copy_assign, move_assign,
}

headers_ptr-some :
    (h : Headers) → h.names.entries ≢ [] → headers_ptr h ≡ some (h.storage, h.names.c_arr)
headers_ptr-some h some_headers = ground (arith, some_headers)

other_array :
    (h k : Headers)
    → headers_ptr h ≡ some (h.storage, h.names.c_arr)
    → headers_ptr k ≡ some (k.storage, k.names.c_arr)
    → k.storage ≢ h.storage
    → headers_ptr h ≢ headers_ptr k
other_array h k p q fresh e = ground (arith, p, q, fresh)

module _ {P : Type 0} where
  -- The pointer to the headers leads to the object's own array, or is null for no headers.
  abbrev pub OwnsHeaders : ConnectOptions P → Type 0
  OwnsHeaders o = o.opts.http_headers ≡ headers_ptr o.members.http_headers

  set_parts-headers :
      (env : Env P) (opt o : ConnectOptions P)
      → ((set_parts env opt o).opts.http_headers ≡ o.opts.http_headers)
        × ((set_parts env opt o).members.http_headers ≡ o.members.http_headers)
  unfolding set_parts
  set_parts-headers env opt o = (ground arith, ground arith)

  -- Moves keep the object's own headers; a copy of options with headers has its own array, at a new
  -- address, and a pointer to the array of the object that was copied.
  pub copied_headers :
      (env : Env P) (self : ℕ) (opt o : ConnectOptions P)
      → OwnsHeaders opt
      → env.at_headers ≢ opt.members.http_headers.storage
      → opt.members.http_headers.names.entries ≢ []
      → OwnsHeaders (move_construct env self opt)
        × OwnsHeaders (move_assign env opt o)
        × ((copy_construct env self opt).opts.http_headers ≡ headers_ptr opt.members.http_headers)
        × (¬ OwnsHeaders (copy_construct env self opt))
        × (¬ OwnsHeaders (copy_assign env opt o))
  unfolding copy_construct move_construct copy_assign move_assign
  copied_headers env self opt o v fresh some_headers =
      let there = headers_ptr-some opt.members.http_headers some_headers in
      let there' = headers_ptr-some (copy_headers env opt.members.http_headers) some_headers in
      (
        v,
        (set_parts-headers env opt _).0 ∙ v,
        (set_parts-headers env opt _).0 ∙ v,
        λ own.
            other_array opt.members.http_headers (copy_headers env opt.members.http_headers) there
              there' fresh
              (sym v
                ∙ sym (set_parts-headers env opt _).0
                ∙ own
                ∙ ap headers_ptr (set_parts-headers env opt _).1),
        λ own.
            other_array opt.members.http_headers (copy_headers env opt.members.http_headers) there
              there' fresh (sym v ∙ sym (set_parts-headers env opt _).0 ∙ own),
      )

  -- Options that were given properties and then a version below 5: a copy keeps the pointer to the
  -- properties of the object that was copied, also when its own version is set to 5 again.
  pub copied_properties :
      (env : Env P) (self ver : ℕ) (props : P) (opt : ConnectOptions P)
      → ver < 5
      → let c = copy_construct env self (set_mqtt_version ver (set_properties props opt)) in
        (set_mqtt_version 5 c).opts.connect_properties ≡ some (opt.self)
  unfolding copy_construct set_mqtt_version set_properties
  copied_properties env self ver props opt h = ground arith

  -- The callbacks of the C struct follow the version only when the token is set: a version that is
  -- set after it leaves those of the version before, until a copy is made.
  pub stale_callbacks :
      (env : Env P) (self tok : ℕ) (o : ConnectOptions P)
      → let changed = set_mqtt_version 5 (set_token (some tok) (set_mqtt_version 4 o)) in
        let c = copy_construct env self changed in
        (changed.opts.on_success ≡ true)
        × (changed.opts.on_success5 ≡ false)
        × (c.opts.on_success ≡ false)
        × (c.opts.on_success5 ≡ true)
  unfolding copy_construct set_mqtt_version set_token
  stale_callbacks env self tok o = ground arith

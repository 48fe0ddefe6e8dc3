-- ===== src/Client/Registered.antt =====
-- Which functions of the client the C library has, after the calls that it accepted.
use paho_mqtt_cpp.Prelude.{◌≡◌, true, false, some, List, [], ◌∷◌, ℤ, is_zero, arith}
use paho_mqtt_cpp.Client.{Client, Hook, null, exception}
use paho_mqtt_cpp.Client.Setup.{CCall, set_connected, set_callback, set_connected_handler}

-- The function for `connected` after some calls, each of which the C library accepts.
abbrev pub connected_hook : List CCall → Hook → Hook
connected_hook [] h = h
connected_hook (set_connected k ∷ cs) h = connected_hook cs k
connected_hook (call ∷ cs) h = connected_hook cs h

module _ {P : Type 0} where
  -- A `set_callback` that is refused throws and forgets the callback object that was set before,
  -- and the C library, if it accepts the second call, then calls nothing for a connection, also
  -- where a handler of connections is set; a refused `set_connected_handler` throws too and keeps
  -- the handler.
  pub set_callback_refused :
      (rc next_rc : ℤ) (before : Hook) (c : Client P)
      → is_zero rc ≡ false
      → let (result, c', calls) = set_callback rc next_rc c in
        let (result', c'', calls') = set_connected_handler true rc c in
        (result ≡ some (exception rc))
        × (c'.user_callback ≡ false)
        × (connected_hook calls before ≡ null)
        × (result' ≡ some (exception rc))
        × (c''.conn_handler ≡ true)
  unfolding set_callback set_connected_handler
  set_callback_refused rc next_rc before c h = ground arith

-- ===== src/CreateOptions/Buffering.antt =====
-- Whether a client buffers messages while it is not connected.
use paho_mqtt_cpp.Prelude.{ℕ, ◌≡◌, true, false, Str, ℤ, is_zero, arith}
use paho_mqtt_cpp.Buffer.{to_int}
use paho_mqtt_cpp.CreateOptions.{
  CCreate, PersistenceType, new_buffered, new_client_buffered, new_client,
}

-- Options made for a version and a number of messages to buffer, not 0, let a client send while it
-- is not connected, and so do those of a client that is made with them; options made for a server,
-- a client identifier and such a number leave that as the C library's default has it.
pub buffering_constructors :
    (dflt : CCreate) (ver : ℕ) (n : ℤ) (server_uri client_id : Str) (typ : PersistenceType)
    → is_zero n ≡ false
    → let buffered = new_buffered dflt ver n in
      let of_client = new_client_buffered dflt server_uri client_id n typ in
      (buffered.opts.send_while_disconnected ≡ to_int true)
      × (buffered.opts.max_buffered_messages ≡ n)
      × ((new_client server_uri client_id buffered typ).opts ≡ buffered.opts)
      × (of_client.opts.max_buffered_messages ≡ n)
      × (of_client.opts.send_while_disconnected ≡ dflt.send_while_disconnected)
unfolding new_buffered new_client_buffered new_client
buffering_constructors dflt ver n server_uri client_id typ h = ground arith

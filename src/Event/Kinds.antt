-- ===== src/Event/Kinds.antt =====
-- The tests for the kind of an event.
use paho_mqtt_cpp.Prelude.{◌≡◌, ◌⊎◌, inl, inr, refl, true, false}
use paho_mqtt_cpp.Event.{
  Event, message, connected, connection_lost, disconnected, shutdown, is_message, is_connected,
  is_disconnected, is_shutdown, is_any_disconnect,
}

module _ {P : Type 0} where
  -- `is_shutdown` answers for every event as `is_disconnected` does, and so it is false for a
  -- shutdown event.
  pub is_shutdown-disconnected :
      (e : Event P) → (is_shutdown e ≡ is_disconnected e) × (is_shutdown {P = P} shutdown ≡ false)
  unfolding is_shutdown is_disconnected
  is_shutdown-disconnected (message m) = (refl, refl)
  is_shutdown-disconnected (connected c) = (refl, refl)
  is_shutdown-disconnected (connection_lost c) = (refl, refl)
  is_shutdown-disconnected (disconnected p r) = (refl, refl)
  is_shutdown-disconnected shutdown = (refl, refl)

  -- Every event is exactly one of: a message, a connection, or one of the kinds that end a
  -- consumer's wait for a message.
  pub event_kinds :
      (e : Event P)
      → ((is_message e ≡ true) × (is_connected e ≡ false) × (is_any_disconnect e ≡ false))
        ⊎ (((is_message e ≡ false) × (is_connected e ≡ true) × (is_any_disconnect e ≡ false))
            ⊎ ((is_message e ≡ false) × (is_connected e ≡ false) × (is_any_disconnect e ≡ true)))
  unfolding is_message is_connected is_any_disconnect
  event_kinds (message m) = inl (refl, refl, refl)
  event_kinds (connected c) = inr (inl (refl, refl, refl))
  event_kinds (connection_lost c) = inr (inr (refl, refl, refl))
  event_kinds (disconnected p r) = inr (inr (refl, refl, refl))
  event_kinds shutdown = inr (inr (refl, refl, refl))

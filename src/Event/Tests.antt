-- ===== src/Event/Tests.antt =====
-- A shutdown event, as the tests see it.
use paho_mqtt_cpp.Prelude.{ℕ, ◌≡◌, refl, true, false}
use paho_mqtt_cpp.Event.{Event, shutdown, is_shutdown, is_any_disconnect}

abbrev stop : Event ℕ
stop = shutdown

shutdown_not_seen : is_shutdown stop ≡ false
unfolding is_shutdown
shutdown_not_seen = refl

shutdown_disconnects : is_any_disconnect stop ≡ true
unfolding is_any_disconnect
shutdown_disconnects = refl

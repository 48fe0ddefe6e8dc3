-- ===== src/Client/Inbox.antt =====
-- Runs of a client that gets messages.
use paho_mqtt_cpp.Prelude.{pos, ℕ, ◌≡◌, refl, true, some, List, [], ◌∷◌, ◌++◌}
use paho_mqtt_cpp.Event.{Message, message, connection_lost, get_message_if, is_any_disconnect}
use paho_mqtt_cpp.ThreadQueue.{Queue}
use paho_mqtt_cpp.ThreadQueue
use paho_mqtt_cpp.Client.{Client, Call, discards, null, on_message, message_arrived}
use paho_mqtt_cpp.Client.Callbacks.{put_event, message_callback}
use paho_mqtt_cpp.Client.Consumer.{consume_message, consume_event, stop_consuming}
use paho_mqtt_cpp.Client.Runs.{Runs, here, next, act, arrives, consumes, stops}
use paho_mqtt_cpp.Client.Received.{waiting, received}
use paho_mqtt_cpp.Client.Ordered.{IsPatient, over, entered, run_in_order}
use paho_mqtt_cpp.Client.Samples.{hello, events, client}

abbrev later : Message
later = record hello { payload = 2 ∷ [] }

abbrev listening : Client ℕ
listening = record client { msg_handler = true }

-- The sample events, without the two that the first `consume_message` takes.
abbrev told : Client ℕ
told = record listening { que = some (record events { que = connection_lost [] ∷ [] }) }

abbrev busy : Client ℕ
busy = record listening {
  que = some (record events { que = connection_lost [] ∷ message (some later) ∷ [] });
}

abbrev stopped : Client ℕ
stopped = record listening {
  que =
      some (record events { closed = true; que = connection_lost [] ∷ message (some later) ∷ [] });
  hooks = record listening.hooks { message_hook = discards; lost_hook = null };
}

abbrev calls : List (Call ℕ)
calls = on_message (some later) ∷ message_arrived (some later) ∷ []

ran : Runs IsPatient listening stopped ((([] ++ []) ++ calls) ++ [])
unfolding act consume_message consume_event message_callback put_event stop_consuming
    ThreadQueue.put ThreadQueue.get ThreadQueue.close ThreadQueue.get_ready ThreadQueue.put_ready
    get_message_if is_any_disconnect
ran =
    next (stops (pos 0))
      (next (arrives later) (next {c' = listening} {c'' = told} (consumes 5) here tt refl) tt refl)
      tt refl

run_in_order_example :
    waiting listening.que ++ over entered ran ≡ over received ran ++ waiting stopped.que
run_in_order_example = run_in_order ran

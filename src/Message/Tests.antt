-- ===== src/Message/Tests.antt =====
-- A message that a builder makes.
use paho_mqtt_cpp.Prelude.{ℕ, ◌≡◌, ◌⊎◌, true, none, some, List, All, [], ◌∷◌, pos, arith}
use paho_mqtt_cpp.Message.{Message, Library, blank}
use paho_mqtt_cpp.Message.Mirror.{IsMirror}
use paho_mqtt_cpp.Message.Builder.{Build, qos, payload, retained, finalize}
use paho_mqtt_cpp.Message.Built.{IsGood, IsBuilt, finalize-IsBuilt}

abbrev lib : Library ℕ
lib = record {
  dflt = record {
    payload_len = pos 0;
    payload = none;
    qos = pos 0;
    retained = pos 0;
    dup = pos 0;
    properties = 0;
  };
  no_properties = 0;
  copy = λ p. p;
}

abbrev calls : List (Build ℕ)
calls = payload (some (7, 1 ∷ 2 ∷ [])) ∷ qos (pos 1) ∷ retained true ∷ qos (pos 2) ∷ []

lib-IsMirror : IsMirror (blank lib)
unfolding blank
lib-IsMirror = ground arith

finalize-IsBuilt_example :
    ((¬ All IsGood calls) × (finalize lib calls ≡ none))
    ⊎ ((m : Message ℕ) × All IsGood calls
        × (finalize lib calls ≡ some m)
        × IsBuilt calls (blank lib) m)
finalize-IsBuilt_example = finalize-IsBuilt lib calls lib-IsMirror

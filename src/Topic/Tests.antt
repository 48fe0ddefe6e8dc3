-- ===== src/Topic/Tests.antt =====
-- `topic::split` at concrete strings.
use paho_mqtt_cpp.Prelude.{◌≡◌, refl, [], ◌∷◌, Str}
use paho_mqtt_cpp.Topic.{split, index_of}
use paho_mqtt_cpp.Topic.Fields.{fields}
use paho_mqtt_cpp.Topic.Split.{split-fields}

-- "a//b"
abbrev topic : Str
topic = b'a' ∷ b'/' ∷ b'/' ∷ b'b' ∷ []

split_test : split topic ≡ (b'a' ∷ []) ∷ [] ∷ (b'b' ∷ []) ∷ []
unfolding split index_of
split_test = refl

split-fields_example : split topic ≡ fields topic
split-fields_example = split-fields topic (λ e. cc)

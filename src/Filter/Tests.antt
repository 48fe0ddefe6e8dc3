-- ===== src/Filter/Tests.antt =====
-- `topic_filter` at concrete filters and topics.
use paho_mqtt_cpp.Prelude.{◌≡◌, refl, true, some, [], ◌∷◌, Str, str_eq}
use paho_mqtt_cpp.Topic.{split, index_of}
use paho_mqtt_cpp.Filter.{
  new, matches, has_wildcards_str, matches_fields, back_is_hash, first_is_wildcard, match_loop,
}
use paho_mqtt_cpp.Filter.Spec.{Matches}

-- "a/+/#" and "a/b"
abbrev filter : Str
filter = b'a' ∷ b'/' ∷ b'+' ∷ b'/' ∷ b'#' ∷ []

abbrev topic : Str
topic = b'a' ∷ b'/' ∷ b'b' ∷ []

matches_test : matches (new filter) topic ≡ some true
unfolding matches new split has_wildcards_str matches_fields index_of back_is_hash str_eq
    first_is_wildcard match_loop
matches_test = refl

-- ===== src/Filter/Matches.antt =====
-- `topic_filter::matches` and the matching relation; `to_string`.
use paho_mqtt_cpp.Prelude.{
  suc, ◌≡◌, ◌≢◌, ◌↔◌, refl, ap, sym, ◌∙◌, Bool, true, not, ◌&&◌, Bool-cases, inl, inr, none, some,
  List, [], ◌∷◌, length, Str, arith,
}
use paho_mqtt_cpp.Topic.{split, join}
use paho_mqtt_cpp.Topic.Split.{join-split}
use paho_mqtt_cpp.Filter.{
  Filter, plain, wild, new, matches, matches_fields, to_string, back_is_hash, has_wildcards_str,
  first_is_wildcard, starts_dollar,
}
use paho_mqtt_cpp.Filter.Spec.{IsFilter, match_fields, match_fields_iff}
use paho_mqtt_cpp.Filter.Dollar.{Agrees}
use paho_mqtt_cpp.Filter.Loop.{Fits, match_loop-match_fields}
use paho_mqtt_cpp.Filter.Plain.{split-IsLiteral, str_eq-match_fields}

abbrev decided : List Str → List Str → Bool
decided fs ts = match_fields fs ts && not (first_is_wildcard fs && starts_dollar ts)

-- A match passes the length tests.
match_fields-Fits : (fs ts : List Str) → IsFilter fs → match_fields fs ts ≡ true → Fits fs ts
unfolding match_fields back_is_hash
match_fields-Fits [] [] w h = (inl (omega arith), inl (omega arith))
match_fields-Fits [] (t ∷ ts) w h = cc
match_fields-Fits (f ∷ []) [] w h = ground arith
match_fields-Fits (f ∷ g ∷ fs) [] w h = ground arith
match_fields-Fits (f ∷ []) (t ∷ ts) w h = ground (arith, match_fields-Fits [] ts)
match_fields-Fits (f ∷ g ∷ fs) (t ∷ ts) w h = ground (arith, match_fields-Fits (g ∷ fs) ts w.1)

-- `matches_fields` reads in range only, and computes the decision.
matches_fields-decided :
    (f : Str) (fs ts : List Str)
    → IsFilter (f ∷ fs)
    → matches_fields (f ∷ fs) ts ≡ some (decided (f ∷ fs) ts)
unfolding matches_fields
matches_fields-decided f fs ts w = ground (
  arith,
  match_fields-Fits (f ∷ fs) ts w,
  match_loop-match_fields (suc (length fs)) (f ∷ fs) ts 0 (f ∷ fs) ts refl refl refl,
  Bool-cases (match_fields (f ∷ fs) ts),
)

matches_fields-ne-none : (fs ts : List Str) → matches_fields fs ts ≢ none
unfolding matches_fields back_is_hash
matches_fields-ne-none [] ts h = cc
matches_fields-ne-none (f ∷ fs) ts h =
    ground
      (arith, match_loop-match_fields (suc (length fs)) (f ∷ fs) ts 0 (f ∷ fs) ts refl refl refl)

-- Whatever the filter and the topic are, `matches` reads inside its two vectors of fields only,
-- and returns.
pub matches-ne-none : (filter : Filter) (topic : Str) → matches filter topic ≢ none
unfolding matches
matches-ne-none (plain s) topic h = cc
matches-ne-none (wild fs) topic h = matches_fields-ne-none fs (split topic) h

decided_iff : (fs ts : List Str) → IsFilter fs → (decided fs ts ≡ true) ↔ Agrees fs ts
decided_iff fs ts w = (
  λ h. ((match_fields_iff fs ts w).0 (ground arith), ground arith),
  λ m. let d : match_fields fs ts ≡ true = (match_fields_iff fs ts w).1 m.0 in rw (d, m.1),
)

wild_decided :
    (fs ts : List Str) → fs ≢ [] → IsFilter fs → matches_fields fs ts ≡ some (decided fs ts)
wild_decided [] ts ne w = absurd (ne refl)
wild_decided (f ∷ fs) ts ne w = matches_fields-decided f fs ts w

split-ne-nil : (s : Str) → has_wildcards_str s ≡ true → split s ≢ []
unfolding has_wildcards_str join
split-ne-nil [] h e = cc
split-ne-nil (c ∷ s) h e = let bad : [] ≡ c ∷ s = ap join (sym e) ∙ join-split (c ∷ s) in cc

matches-decided :
    (filter topic : Str)
    → IsFilter (split filter)
    → matches (new filter) topic ≡ some (decided (split filter) (split topic))
unfolding matches new
matches-decided filter topic w = elim (Bool-cases (has_wildcards_str filter)) [
  | inl e ↦ rw (e, new) (wild_decided (split filter) (split topic) (split-ne-nil filter e) w)
  | inr e ↦
      let (same, no_wild) = str_eq-match_fields filter topic (split-IsLiteral filter w e) in
      ground (arith, same, no_wild)
]

-- The same with the test of the code for a topic that begins with '$'.
pub matches-Agrees :
    (filter topic : Str)
    → IsFilter (split filter)
    → (b : Bool) × (matches (new filter) topic ≡ some b)
      × ((b ≡ true) ↔ Agrees (split filter) (split topic))
matches-Agrees filter topic w =
    (_, matches-decided filter topic w, decided_iff (split filter) (split topic) w)

-- For a filter that is made from a string, `to_string` gives that string.
pub to_string-new : (filter : Str) → to_string (new filter) ≡ filter
unfolding to_string new
to_string-new filter = ground (arith, join-split filter)

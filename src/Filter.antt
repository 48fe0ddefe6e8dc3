-- ===== src/Filter.antt =====
-- `topic_filter` of include/mqtt/topic.h and src/topic.cpp.
pub mod Spec
pub mod Dollar
pub mod Loop
pub mod Plain
pub mod Matches
mod Tests
use paho_mqtt_cpp.Prelude.{
  ℕ, zero, suc, ◌+◌, ◌-◌, ltb, ◌==◌, if◌then◌else◌, Bool, true, false, not, ◌&&◌, ◌||◌, Option,
  none, some, is_some, List, [], ◌∷◌, length, get_elem?, last?, Str, str_eq,
}
use paho_mqtt_cpp.Topic.{find, split, join}

abbrev pub plus : Str
plus = b'+' ∷ []

abbrev pub hash : Str
hash = b'#' ∷ []

-- `std::variant<string, std::vector<string>> filter_`
pub data Filter : Type 0 where
  plain : Str → Filter
  wild : List Str → Filter

-- `is_wildcard(char)`
unfoldable pub is_wildcard_char : ℕ → Bool
is_wildcard_char c = c == b'+' || c == b'#'

-- `is_wildcard(const string&)`
unfoldable pub is_wildcard : Str → Bool
unfolding is_wildcard_char
is_wildcard [] = false
is_wildcard (c ∷ []) = is_wildcard_char c
is_wildcard (c ∷ d ∷ s) = false

-- The static `has_wildcards(const string&)`.
pub has_wildcards_str : Str → Bool
has_wildcards_str [] = false
has_wildcards_str (c ∷ s) = elim (last? (c ∷ s)) [
  | none ↦ false
  | some b ↦ if b == b'#' then true else is_some (find (c ∷ s) b'+' 0)
]

-- The constructor.
pub new : Str → Filter
new filter = if has_wildcards_str filter then wild (split filter) else plain filter

-- `has_wildcards() const`
pub has_wildcards : Filter → Bool
has_wildcards (plain s) = false
has_wildcards (wild fs) = true

-- `fields.back() == "#"`
pub back_is_hash : List Str → Bool
back_is_hash fs = elim (last? fs) [ none ↦ false | some f ↦ str_eq f hash ]

-- A topic whose first field begins with '$'.
unfoldable pub starts_dollar : List Str → Bool
starts_dollar [] = false
starts_dollar ([] ∷ ts) = false
starts_dollar ((c ∷ t) ∷ ts) = c == b'$'

unfoldable pub first_is_wildcard : List Str → Bool
unfolding is_wildcard
first_is_wildcard [] = false
first_is_wildcard (f ∷ fs) = is_wildcard f

-- The `for` loop of `matches`, with the rounds that are left; `none` is a read out of range.
pub match_loop : ℕ → List Str → List Str → ℕ → Option Bool
match_loop zero fields topic_fields i = some true
match_loop (suc k) fields topic_fields i =
    let rest = match_loop k fields topic_fields (i + 1) in
    elim (get_elem? fields i) [
      | none ↦ none
      | some f ↦
          if str_eq f hash
          then some true
          else if i == length topic_fields && ltb i (length fields - 1)
          then elim (get_elem? fields (i + 1)) [ none ↦ none | some g ↦ some (str_eq g hash) ]
          else if str_eq f plus
          then rest
          else elim (get_elem? topic_fields i) [
            | none ↦ none
            | some t ↦ if str_eq f t then rest else some false
          ]
    ]

-- `matches` on the fields of a filter with wildcards.
pub matches_fields : List Str → List Str → Option Bool
matches_fields fields topic_fields =
    let n = length fields in
    let nt = length topic_fields in
    let loop = match_loop n fields topic_fields 0 in
    if n == 0
    then some false
    else if ltb nt n && not (n == nt + 1 && back_is_hash fields)
    then some false
    else if ltb n nt && not (back_is_hash fields)
    then some false
    else if first_is_wildcard fields && starts_dollar topic_fields
    then some false
    else loop

-- `matches`
pub matches : Filter → Str → Option Bool
matches (plain s) topic = some (str_eq s topic)
matches (wild fs) topic = matches_fields fs (split topic)

-- `to_string`
pub to_string : Filter → Str
to_string (plain s) = s
to_string (wild fs) = join fs

-- ===== src/Topic.antt =====
-- `topic::split` of src/topic.cpp: the fields of a topic, delimited by '/'.
pub mod Split
mod Tests
pub mod Fields
use paho_mqtt_cpp.Prelude.{
  ℕ, zero, suc, ◌+◌, ◌-◌, ◌==◌, if◌then◌else◌, Option, none, some, List, [], ◌∷◌, ◌++◌, length,
  take, drop, Str,
}

-- '/'
abbrev pub delim : ℕ
delim = b'/'

shifted : Option ℕ → Option ℕ
shifted none = none
shifted (some i) = some (suc i)

-- The first index of `c` in `s`.
unfoldable pub index_of : ℕ → Str → Option ℕ
unfolding shifted
index_of c [] = none
index_of c (x ∷ xs) = if x == c then some 0 else shifted (index_of c xs)

-- `s.find(c, pos)`: the first index of `c` from `pos` on; `none` is `string::npos`.
unfoldable pub find : Str → ℕ → ℕ → Option ℕ
find s c pos = elim (index_of c (drop pos s)) [ none ↦ none | some i ↦ some (pos + i) ]

-- `s.substr(pos, n)`; `none` is `npos`, to the end of the string.
unfoldable pub substr : Str → ℕ → Option ℕ → Str
substr s pos none = drop pos s
substr s pos (some n) = take n (drop pos s)

-- The `do ... while (pos != npos)` loop of `topic::split`. A round moves `start` past a delimiter,
-- so one more round than the string has bytes is enough.
split_loop : ℕ → Str → ℕ → List Str
unfolding find substr
split_loop zero s start = []
split_loop (suc fuel) s start = elim (find s delim start) [
  | none ↦ substr s start none ∷ []
  | some pos ↦ substr s start (some (pos - start)) ∷ split_loop fuel s (pos + 1)
]

-- `topic::split`
unfoldable pub split : Str → List Str
unfolding split_loop
split [] = []
split (x ∷ xs) = split_loop (suc (length (x ∷ xs))) (x ∷ xs) 0

-- The loop of `topic_filter::to_string`: the fields with a delimiter after all but the last.
unfoldable pub join : List Str → Str
join [] = []
join (f ∷ []) = f
join (f ∷ g ∷ fs) = f ++ delim ∷ join (g ∷ fs)

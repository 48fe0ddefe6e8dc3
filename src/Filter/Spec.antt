-- ===== src/Filter/Spec.antt =====
-- What it is for a topic to match a filter, field by field, as MQTT v5 has it, and a decision of
-- the part of it that goes field by field.
use paho_mqtt_cpp.Prelude.{
  ◌≡◌, ◌↔◌, ◌⊎◌, refl, Bool, true, false, ◌&&◌, ◌||◌, Bool-cases, inl, inr, List, [], ◌∷◌, Str,
  str_eq, str_eq→eq, str_eq_iff, arith,
}
use paho_mqtt_cpp.Filter.{plus, hash}

-- MQTT v5, 4.7.1: '+' stands for one level, '#' for the parent and any levels below it.
pub data MatchesFields : List Str → List Str → Type 0 where
  done : MatchesFields [] []
  rest : (f : Str) (fs ts : List Str) → f ≡ b'#' ∷ [] → fs ≡ [] → MatchesFields (f ∷ fs) ts
  level :
      (f t : Str) {fs ts : List Str}
      → (f ≡ b'+' ∷ []) ⊎ (f ≡ t)
      → MatchesFields fs ts
      → MatchesFields (f ∷ fs) (t ∷ ts)

-- '#' stands last, if it stands at all.
abbrev pub IsFilter : List Str → Type 0
IsFilter [] = Unit {0}
IsFilter (f ∷ fs) = ((str_eq f hash ≡ false) ⊎ (fs ≡ [])) × IsFilter fs

-- The first of some fields.
pub data IsFirst (f : Str) : List Str → Type 0 where
  first : (fs : List Str) → IsFirst f (f ∷ fs)

-- A filter that begins with '#' or '+' as a field, and a topic that begins with '$'.
abbrev pub IsWildTop : List Str → Type 0
IsWildTop fs = IsFirst (b'#' ∷ []) fs ⊎ IsFirst (b'+' ∷ []) fs

abbrev pub IsSystem : List Str → Type 0
IsSystem ts = (name : Str) × IsFirst (b'$' ∷ name) ts

-- "The Server MUST NOT match Topic Filters starting with a wildcard character (# or +) with Topic
-- Names beginning with a $ character" (4.7.2).
abbrev pub Matches : List Str → List Str → Type 0
Matches fs ts = MatchesFields fs ts × (¬ (IsWildTop fs × IsSystem ts))

-- The decision, by recursion on the fields.
unfoldable pub match_fields : List Str → List Str → Bool
match_fields [] [] = true
match_fields [] (t ∷ ts) = false
match_fields (f ∷ fs) [] = str_eq f hash
match_fields (f ∷ fs) (t ∷ ts) =
    str_eq f hash || (str_eq f plus || str_eq f t) && match_fields fs ts

hash_last :
    (f : Str) (fs : List Str) → (str_eq f hash ≡ false) ⊎ (fs ≡ []) → str_eq f hash ≡ true → fs ≡ []
hash_last f fs w e = ground arith

pub match_fields_sound :
    (fs ts : List Str) → IsFilter fs → match_fields fs ts ≡ true → MatchesFields fs ts
unfolding match_fields
match_fields_sound [] [] w h = done
match_fields_sound [] (t ∷ ts) w h = cc
match_fields_sound (f ∷ fs) [] w h = rest f fs [] (str_eq→eq f hash h) (hash_last f fs w.0 h)
match_fields_sound (f ∷ fs) (t ∷ ts) w h = elim (Bool-cases (str_eq f hash)) [
  | inl e ↦ rest f fs (t ∷ ts) (str_eq→eq f hash e) (hash_last f fs w.0 e)
  | inr e ↦ elim (Bool-cases (str_eq f plus)) [
    | inl p ↦ level f t (inl (str_eq→eq f plus p)) (match_fields_sound fs ts w.1 (ground arith))
    | inr p ↦
        level f t (inr (str_eq→eq f t (ground arith))) (match_fields_sound fs ts w.1 (ground arith))
  ]
]

pub match_fields_complete : {fs ts : List Str} → MatchesFields fs ts → match_fields fs ts ≡ true
unfolding match_fields
match_fields_complete done = refl
match_fields_complete (rest f fs [] e l) = (str_eq_iff f hash).1 e
match_fields_complete (rest f fs (t ∷ ts) e l) = rw ((str_eq_iff f hash).1 e)
match_fields_complete (level f t c m) =
    ground (arith, match_fields_complete m, str_eq_iff f plus, str_eq_iff f t)

-- The decision decides the relation.
pub match_fields_iff :
    (fs ts : List Str) → IsFilter fs → (match_fields fs ts ≡ true) ↔ MatchesFields fs ts
match_fields_iff fs ts w = (match_fields_sound fs ts w, match_fields_complete)

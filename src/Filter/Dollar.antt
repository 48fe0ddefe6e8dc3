-- ===== src/Filter/Dollar.antt =====
-- The test for a topic that begins with '$', and what it is for one to be hidden from a wildcard.
use paho_mqtt_cpp.Prelude.{
  ◌≡◌, ◌↔◌, refl, true, false, sym, subst, ==→eq, ◌==◌, Bool-cases, ◌&&◌, inl, inr, List, [], ◌∷◌,
  Str, arith,
}
use paho_mqtt_cpp.Filter.{is_wildcard, is_wildcard_char, first_is_wildcard, starts_dollar}
use paho_mqtt_cpp.Filter.Spec.{MatchesFields, Matches, IsWildTop, IsSystem, IsFirst, first}

-- The relation with the test of the code in it.
abbrev pub Agrees : List Str → List Str → Type 0
Agrees fs ts = MatchesFields fs ts × ((first_is_wildcard fs && starts_dollar ts) ≡ false)

wild_top : {fs : List Str} → IsWildTop fs → first_is_wildcard fs ≡ true
unfolding first_is_wildcard is_wildcard is_wildcard_char
wild_top (inl (first fs)) = refl
wild_top (inr (first fs)) = refl

system : {ts : List Str} → (name : Str) → IsFirst (b'$' ∷ name) ts → starts_dollar ts ≡ true
unfolding starts_dollar
system name (first ts) = refl

top_wild : (fs : List Str) → first_is_wildcard fs ≡ true → IsWildTop fs
unfolding first_is_wildcard is_wildcard is_wildcard_char
top_wild [] h = cc
top_wild ([] ∷ fs) h = cc
top_wild ((c ∷ []) ∷ fs) h = elim (Bool-cases (c == b'#')) [
  | inl e ↦ inl (subst (λ x. IsFirst (b'#' ∷ []) ((x ∷ []) ∷ fs)) (sym (==→eq c b'#' e)) (first fs))
  | inr e ↦ inr (
      subst (λ x. IsFirst (b'+' ∷ []) ((x ∷ []) ∷ fs)) (sym (==→eq c b'+' (ground (arith, h))))
        (first fs))
]
top_wild ((c ∷ d ∷ f) ∷ fs) h = cc

dollar_first : (ts : List Str) → starts_dollar ts ≡ true → IsSystem ts
unfolding starts_dollar
dollar_first [] h = cc
dollar_first ([] ∷ ts) h = cc
dollar_first ((c ∷ t) ∷ ts) h =
    (t, subst (λ x. IsFirst (b'$' ∷ t) ((x ∷ t) ∷ ts)) (sym (==→eq c b'$' h)) (first ts))

-- The two relations are the same.
pub Agrees-iff : (fs ts : List Str) → Agrees fs ts ↔ Matches fs ts
Agrees-iff fs ts = (
  λ a. (a.0, λ s. ground (arith, a.1, wild_top s.0, system s.1.0 s.1.1)),
  λ m. elim (Bool-cases (first_is_wildcard fs && starts_dollar ts)) [
    | inl e ↦ absurd (m.1 (top_wild fs (ground (arith, e)), dollar_first ts (ground (arith, e))))
    | inr e ↦ (m.0, e)
  ],
)

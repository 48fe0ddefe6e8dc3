-- ===== src/Properties/Content.antt =====
-- What a property holds, with the addresses of its blocks left out.
use paho_mqtt_cpp.Prelude.{
  ℕ, zero, suc, ◌+◌, ◌==◌, if◌then◌else◌, ◌≡◌, refl, ap, subst, Bool, false, ◌||◌, Option, none,
  some, List, [], ◌∷◌, map, length, get_elem?, All, arith,
}
use paho_mqtt_cpp.Property.{
  PropertyType, LenString, Value, byte_value, integer2, integer4, text, pair, unset, zeroed,
  Property, copy, copied_as,
}
use paho_mqtt_cpp.Property.Types.{
  Fits, fits_byte, fits_two_byte, fits_four_byte, fits_variable, fits_binary, fits_string,
  fits_pair, IsTyped,
}

abbrev pub erase_block : LenString → LenString
erase_block t = record t { address = 0 }

abbrev pub erase : Value → Value
erase (byte_value n) = byte_value n
erase (integer2 n) = integer2 n
erase (integer4 n) = integer4 n
erase (text t) = text (erase_block t)
erase (pair s t) = pair (erase_block s) (erase_block t)
erase unset = unset
erase zeroed = zeroed

abbrev pub content : Property → Property
content p = record { identifier = p.identifier; value = erase p.value }

-- Whether a code is in a list, how often, and the property of a code at a place among those.
abbrev pub occurs : ℕ → List Property → Bool
occurs c [] = false
occurs c (p ∷ ps) = p.identifier == c || occurs c ps

abbrev pub occurrences : ℕ → List Property → ℕ
occurrences c [] = 0
occurrences c (p ∷ ps) = (if p.identifier == c then 1 else 0) + occurrences c ps

unfoldable pub pick : ℕ → ℕ → List Property → Option Property
pick c i [] = none
pick c zero (p ∷ ps) = if p.identifier == c then some p else pick c zero ps
pick c (suc i) (p ∷ ps) = pick c (if p.identifier == c then i else suc i) ps

abbrev pub map_content : Option Property → Option Property
map_content none = none
map_content (some p) = some (content p)

pub occurs-content : (c : ℕ) (ps : List Property) → occurs c (map content ps) ≡ occurs c ps
occurs-content c [] = refl
occurs-content c (p ∷ ps) = ap (λ b. p.identifier == c || b) (occurs-content c ps)

pub occurrences-content :
    (c : ℕ) (ps : List Property) → occurrences c (map content ps) ≡ occurrences c ps
occurrences-content c [] = refl
occurrences-content c (p ∷ ps) =
    ap (λ n. (if p.identifier == c then 1 else 0) + n) (occurrences-content c ps)

pub pick-content :
    (c i : ℕ) (ps : List Property) → pick c i (map content ps) ≡ map_content (pick c i ps)
unfolding pick
pick-content c i [] = refl
pick-content c zero (p ∷ ps) = ground (arith, pick-content c zero ps)
pick-content c (suc i) (p ∷ ps) = pick-content c (if p.identifier == c then i else suc i) ps

pub get_elem?-content :
    (ps : List Property) (i : ℕ) → get_elem? (map content ps) i ≡ map_content (get_elem? ps i)
get_elem?-content [] i = refl
get_elem?-content (p ∷ ps) zero = refl
get_elem?-content (p ∷ ps) (suc i) = get_elem?-content ps i

pub length-content : (ps : List Property) → length (map content ps) ≡ length ps
length-content [] = refl
length-content (p ∷ ps) = ap (λ n. suc n) (length-content ps)

Fits-erase : {typ : Option PropertyType} {v : Value} → Fits typ v → Fits typ (erase v)
Fits-erase (fits_byte n h) = fits_byte n h
Fits-erase (fits_two_byte n h) = fits_two_byte n h
Fits-erase (fits_four_byte n h) = fits_four_byte n h
Fits-erase (fits_variable n h) = fits_variable n h
Fits-erase (fits_binary t) = fits_binary (erase_block t)
Fits-erase (fits_string t) = fits_string (erase_block t)
Fits-erase (fits_pair s t) = fits_pair (erase_block s) (erase_block t)

Fits-erased : (typ : Option PropertyType) (v : Value) → Fits typ (erase v) → Fits typ v
Fits-erased typ (byte_value n) h = h
Fits-erased typ (integer2 n) h = h
Fits-erased typ (integer4 n) h = h
Fits-erased typ (text t) (fits_binary t') = fits_binary t
Fits-erased typ (text t) (fits_string t') = fits_string t
Fits-erased typ (pair s t) (fits_pair s' t') = fits_pair s t
Fits-erased typ unset h = h
Fits-erased typ zeroed h = h

erase-copied_as :
    {typ : Option PropertyType} {v : Value} (a b : ℕ)
    → Fits typ v
    → erase (copied_as typ a b v) ≡ erase v
erase-copied_as a b (fits_byte n h) = refl
erase-copied_as a b (fits_two_byte n h) = refl
erase-copied_as a b (fits_four_byte n h) = refl
erase-copied_as a b (fits_variable n h) = refl
erase-copied_as a b (fits_binary t) = refl
erase-copied_as a b (fits_string t) = refl
erase-copied_as a b (fits_pair s t) = refl

module _ (type_of : ℕ → Option PropertyType) where
  abbrev pub AllTyped : List Property → Type 0
  AllTyped = All (IsTyped type_of)

  -- A copy holds what the property holds.
  pub content-copy :
      (p : Property) (a b : ℕ) → IsTyped type_of p → content (copy type_of a b p) ≡ content p
  unfolding copy
  content-copy p a b h =
      ap (λ (v : Value). record { identifier = p.identifier; value = v }) (erase-copied_as a b h)

  AllTyped-content : (ps : List Property) → AllTyped ps → AllTyped (map content ps)
  AllTyped-content [] h = tt
  AllTyped-content (p ∷ ps) h = (Fits-erase h.0, AllTyped-content ps h.1)

  AllTyped-contents : (ps : List Property) → AllTyped (map content ps) → AllTyped ps
  AllTyped-contents [] h = tt
  AllTyped-contents (p ∷ ps) h = (Fits-erased _ p.value h.0, AllTyped-contents ps h.1)

  pub AllTyped-same :
      (ps qs : List Property) → map content ps ≡ map content qs → AllTyped ps → AllTyped qs
  AllTyped-same ps qs e h =
      AllTyped-contents qs (subst (λ xs. AllTyped xs) e (AllTyped-content ps h))
